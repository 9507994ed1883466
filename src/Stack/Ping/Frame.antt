-- ===== src/Stack/Ping/Frame.antt =====
-- A frame with an echo request that the TAP device receives: the interrupt thread takes in the signal of the
-- device and then its own.
use mathlib.Core.Path.{ap₂}
use llnstack.Base.{
  ℕ, suc, ◌+◌, ◌-◌, ◌^◌, ◌<◌, ◌≡◌, refl, sym, ap, ◌∙◌, inl, Bool, true, false, some, List, [], ◌∷◌,
  length, take_all, replicate, ltb, ◌==◌, if◌then◌else◌, arith,
}
use llnstack.Util.Checksum.Residue.{IsBytes}
use llnstack.Net.{ok, Interface, Device, network_protocol_type_ip}
use llnstack.Net.Protocol.{Packet, network_input_handler}
use llnstack.Arp.Cache.{ArpCache, ether_addr_len}
use llnstack.Ip.Route.{Route}
use llnstack.Ip.Packet.{min_ip_header_size, ip_packet}
use llnstack.Icmp.{icmp_protocol, icmp_hdr_size, icmp_type_echo, icmp_type_echoreply, icmp_message}
use llnstack.Ether.{ether_frame, padded, ether_hdr_size, ether_payload_size_min, ether_poll_helper}
use llnstack.Ether.Frames.{long, ether_poll_helper-ether_frame}
use llnstack.Driver.{Poll, idle, ready, ether_read, ether_isr}
use llnstack.Driver.Tap.{ether_tap_isr}
use llnstack.Intr.{sigusr1, intr_dispatch, call_irq}
use llnstack.Stack.{tap_isr, Env, Stack, device_at, with_protocols}
use llnstack.Stack.Signals.{after_isr, call_isr, on_protocol, intr_thread}
use llnstack.Stack.Loopback.{waiting, Plenty}
use llnstack.Stack.Ping.{Answers, answered, ping_answered}

read_back :
    (frame : List ℕ)
    → ltb (length frame) ether_hdr_size ≡ false
    → ether_read (some frame) ≡ some frame
unfolding ether_read
read_back [] l = absurd (cc (l))
read_back (b ∷ bs) l = refl

module _ {O : Type 0} (env : Env O) (memory : Plenty env) where
  joined :
      (bytes : List ℕ) (dev : ℕ)
      → network_input_handler env.alloc env.alloc_link network_protocol_type_ip bytes dev
          (waiting [])
        ≡ (ok, waiting (record { dev = dev; bytes = bytes } ∷ []), true)
  unfolding network_input_handler
  joined bytes dev = let (a, b) = memory in rw (a, b, network_input_handler) refl

  -- A frame for the device that carries an IP packet is queued.
  received :
      (dev : Device) (packet src : List ℕ)
      → length dev.address ≡ 6
      → length src ≡ 6
      → ether_tap_isr env.host env.alloc env.alloc_link dev
          (ready (some (ether_frame env.host network_protocol_type_ip packet dev.address src))
            ∷ idle
            ∷ [])
          (waiting [], false)
        ≡ (some ok, waiting (record { dev = dev.index; bytes = padded packet } ∷ []), true)
  unfolding ether_tap_isr ether_isr
  received dev packet src six_dst six_src =
      let frame = ether_frame env.host network_protocol_type_ip packet dev.address src in
      ap (λ r. (some ok, r.1, if r.2 then true else false))
        (ap (λ o. ether_poll_helper env.host env.alloc env.alloc_link dev o (waiting []))
            (read_back frame (
              long env.host network_protocol_type_ip packet dev.address src (omega arith) six_dst
                six_src))
          ∙ ether_poll_helper-ether_frame env.host network_protocol_type_ip packet dev.address src
              (omega arith) six_dst six_src env.alloc env.alloc_link dev (waiting [])
              (inl (take_all ether_addr_len dev.address (omega (arith, six_dst))))
          ∙ joined (padded packet) dev.index)

  -- The state in which the packet waits and the software interrupt is, or is no longer, pending.
  abbrev pub holding : Bool → Stack O → Packet → Stack O
  holding raised s p = record s {
    sending = record s.sending {
      driver = record s.sending.driver { protocols = waiting (p ∷ []); pending = raised };
    };
  }

  -- Nothing is pending or queued, the TAP device, whose index it carries, has an address of six bytes, and its
  -- handler is the only one for the signal, which is none of the three of the stack itself.
  pub record Listens (s : Stack O) (d irq flags : ℕ) : Type 0 where
    pub index : (device_at s.devices.devices d).index ≡ d
    pub address : length (device_at s.devices.devices d).address ≡ 6
    pub installed :
        s.irqs.irq_vec ≡ record { irq = irq; handler = tap_isr; flags = flags; dev = d } ∷ []
    pub user_signal : 14 < irq
    pub idle_queues : s.sending.driver.protocols ≡ waiting []
    pub idle_signal : s.sending.driver.pending ≡ false

  -- The signal of the device goes to its handler.
  to_device :
      (fuel : ℕ) (polls : ℕ → List Poll) (s : Stack O) (d irq flags : ℕ)
      → Listens s d irq flags
      → intr_thread env fuel polls irq s ≡ call_isr env fuel polls tap_isr irq d (some s)
  unfolding intr_thread intr_dispatch call_irq
  to_device fuel polls s d irq flags l =
      let one : (irq == 10) ≡ false = ground (arith, l.user_signal) in
      let two : (irq == 12) ≡ false = ground (arith, l.user_signal) in
      let three : (irq == 14) ≡ false = ground (arith, l.user_signal) in
      let same : (irq == irq) ≡ true = ground arith in rw (one, two, three, l.installed, same) refl

  interrupted :
      (fuel : ℕ) (polls : ℕ → List Poll) (s : Stack O) (d irq flags : ℕ) (packet src : List ℕ)
      → Listens s d irq flags
      → length src ≡ 6
      → let dev = device_at s.devices.devices d in
        polls d
          ≡ ready (some (ether_frame env.host network_protocol_type_ip packet dev.address src))
            ∷ idle
            ∷ []
        → intr_thread env fuel polls irq s
          ≡ some (holding true s (record { dev = d; bytes = padded packet }))
  unfolding call_isr after_isr
  interrupted fuel polls s d irq flags packet src l six e =
      let dev = device_at s.devices.devices d in
      let taken : ether_tap_isr env.host env.alloc env.alloc_link dev (polls d)
            (s.sending.driver.protocols, s.sending.driver.pending)
          ≡ (some ok, waiting (record { dev = d; bytes = padded packet } ∷ []), true) =
        rw (e, l.idle_queues, l.idle_signal)
          (received dev packet src l.address six
            ∙ ap (λ i. (some ok, waiting (record { dev = i; bytes = padded packet } ∷ []), true))
                l.index) in
      to_device fuel polls s d irq flags l ∙ ap (after_isr env fuel polls s) taken

  -- When the TAP device receives a frame with an echo request for an address of its interface, built as
  -- `icmp_output`, `ip_output_core` and `ether_transmit_helper` build one, the interrupt thread takes the signal
  -- of the device, after which the packet waits for IP and the thread's own signal is pending, and then that
  -- signal, after which one frame has been written, to the device of the route back and with the hardware address
  -- that the ARP cache has for the next hop: it carries the echo reply with the request's code, values and data,
  -- addressed to the sender. Nothing else has changed but the identification number, which is used up. Conditions:
  -- nothing is queued or pending before, memory is at hand, the device has the only handler, the address that the
  -- frame is for, and no second frame; the device of the route back is up and needs ARP, its interface has the
  -- address that the reply is from, and the reply fits its MTU.
  pub frame_answered :
      (fuel : ℕ) (polls : ℕ → List Poll) (s : Stack O) (d irq flags : ℕ) (iface : Interface)
      (route : Route) (code values : ℕ) (content ha : List ℕ) (src dst id i : ℕ) (e : ArpCache)
      → Listens s d irq flags
      → length ha ≡ 6
      → let request = icmp_message env.host icmp_type_echo code values content in
        let reply = icmp_message env.host icmp_type_echoreply code values content in
        let packet = ip_packet env.host icmp_protocol request src dst id 0 in
        let dev = device_at s.devices.devices d in
        polls d
          ≡ ready (some (ether_frame env.host network_protocol_type_ip packet dev.address ha))
            ∷ idle
            ∷ []
        → Answers env.host s
            (record { dev = d; bytes = padded packet })
            iface
            route
            reply
            src
            dst
            i
            e
        → code < 256
        → values < 2 ^ 32
        → IsBytes content
        → min_ip_header_size + (icmp_hdr_size + length content) < 65536
        → src < 2 ^ 32
        → dst < 2 ^ 32
        → let out = device_at s.devices.devices route.iface.dev in
          let back =
            ip_packet env.host icmp_protocol reply route.iface.unicast src s.sending.next_id 0 in
          let waits = holding true s (record { dev = d; bytes = padded packet }) in
          (intr_thread env (suc (suc fuel)) polls irq s ≡ some waits)
          × (intr_thread env (suc (suc fuel)) polls sigusr1 waits
              ≡ some (
                  answered env memory s out
                    (ether_frame env.host network_protocol_type_ip back e.ha out.address)))
  unfolding intr_thread intr_dispatch on_protocol with_protocols
  frame_answered fuel polls s d irq flags iface route code values content ha src dst id i e l six
        heard a c v b fits sb db =
      let request = icmp_message env.host icmp_type_echo code values content in
      let packet = ip_packet env.host icmp_protocol request src dst id 0 in
      let p : Packet = record { dev = d; bytes = padded packet } in
      let s1 = holding false s p in
      let out = device_at s.devices.devices route.iface.dev in
      let back =
        ip_packet env.host icmp_protocol
          (icmp_message env.host icmp_type_echoreply code values content) route.iface.unicast src
          s.sending.next_id 0 in
      let reply_frame = ether_frame env.host network_protocol_type_ip back e.ha out.address in
      let a1 : Answers env.host s1 p iface route
          (icmp_message env.host icmp_type_echoreply code values content) src dst i e =
        record {
          iface_is = a.iface_is;
          for_us = a.for_us;
          registered = a.registered;
          permitted = a.permitted;
          needs_address = a.needs_address;
          up = a.up;
          cached = a.cached;
          known = a.known;
          whole = a.whole;
        } in
      (
        interrupted (suc (suc fuel)) polls s d irq flags packet ha l six heard,
        ping_answered env memory fuel s1 d iface route code values content
              (replicate (ether_payload_size_min - length packet) 0) src dst id i e refl a1 c v b
              fits sb db
            ∙ ap₂
                (λ protocols pending. some (
                  answered env memory
                    (record s {
                      sending = record s.sending {
                        driver = record s.sending.driver {
                          protocols = protocols;
                          pending = pending;
                        };
                      };
                    })
                    out reply_frame))
                (sym l.idle_queues) (sym l.idle_signal),
      )
