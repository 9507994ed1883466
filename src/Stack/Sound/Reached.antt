-- ===== src/Stack/Sound/Reached.antt =====
-- The runs of the whole stack: `network_init`, then signals and the calls of the user in any order, one
-- after the other, each in its own environment.
use llnstack.Base.{
  ℕ, ◌≡◌, refl, sym, ap, inl, inr, Bool, some, List, [], length, ltb, kept_if, Option-cases, ◌-◌,
}
use llnstack.Net.{ok, Devices}
use llnstack.Net.Timer.{Timeval}
use llnstack.Arp.Cache.{arp_cache_size, empty_caches}
use llnstack.Arp.Cache.Distinct.{replicate-Distinct}
use llnstack.Ip.Text.{Endpoint}
use llnstack.Ip.Route.{IpTables}
use llnstack.Ip.Packet.{Size, Sending, ip_send_packet}
use llnstack.Ip.Packet.Keeps.{Holds, send_keeps}
use llnstack.Udp.Pcb.{UdpPcb, empty_pcbs}
use llnstack.Udp.Datagram.{udp_protocol, udp_hdr_size, max_ip_payload_size, udp_message, udp_output}
use llnstack.Udp.User.{choose_source, udp_sendto}
use llnstack.Udp.User.Steps
use llnstack.Udp.User.Ports.{source-IsValid}
use llnstack.Driver.{Poll}
use llnstack.Intr.{intr_request_irq}
use llnstack.Intr.Table.{intr_request_irq_lem}
use llnstack.Stack.{IrqHandler, Env, Stack, Wire, transmit, device_at, with_protocols}
use llnstack.Stack.Signals.{intr_thread}
use llnstack.Stack.Start.{Room, network_init}
use llnstack.Stack.Start.Tables.{IsFresh, started, network_init_lem}
use llnstack.Stack.Sound.{IsSound, WireIsTable, IsSoundIfSome}
use llnstack.Stack.Sound.Handlers.{Any, transmit-Keeps}
use llnstack.Stack.Sound.Thread.{intr_thread-IsSound}

-- The static variables before any call.
pub record IsStatic {O : Type 0} (s : Stack O) : Type 0 where
  pub fresh : IsFresh s
  pub caches : s.sending.caches ≡ empty_caches
  pub pcbs : s.pcbs ≡ empty_pcbs
  pub irqs : s.irqs.irq_vec ≡ []

module _ {O : Type 0} where
  -- The state after `udp_sendto`.
  abbrev pub after_sendto : Env O → ℕ → List ℕ → Endpoint → Stack O → Stack O
  after_sendto env id payload foreign s =
      let (size, pcbs, sending) =
        udp_sendto env.host (transmit env) env.now (device_at s.devices.devices) s.tables.routes id
          payload foreign (s.pcbs, s.sending) in
      record s { pcbs = pcbs; sending = sending }

  -- A step runs from its start to its end with no other in between, also where the code gives a mutex up on the
  -- way, as `arp_input` does: a round of the interrupt thread that ends; a call on the blocks of UDP; a datagram sent; a handler
  -- registered for a signal; and any change of the devices, interfaces and routes.
  pub data Step : Stack O → Stack O → Type 0 where
    signals :
        (env : Env O) (fuel : ℕ) (polls : ℕ → List Poll) (sig : ℕ) (s t : Stack O)
        → intr_thread env fuel polls sig s ≡ some t
        → Step s t
    calls :
        (s : Stack O) (pcbs : List UdpPcb)
        → Steps.Step s.pcbs pcbs
        → Step s (record s { pcbs = pcbs })
    sends :
        (env : Env O) (id : ℕ) (payload : List ℕ) (foreign : Endpoint) (s : Stack O)
        → Step s (after_sendto env id payload foreign s)
    requests :
        (alloc : Bool) (irq : ℕ) (handler : IrqHandler) (flags dev : ℕ) (s : Stack O)
        → Step s (record s { irqs = (intr_request_irq alloc irq handler flags dev s.irqs).1 })
    configures :
        (devices : Devices) (tables : IpTables) (s : Stack O)
        → Step s (record s { devices = devices; tables = tables })

  pub data Reached : Stack O → Type 0 where
    start :
        (room : Room) (now : Timeval) (s t : Stack O)
        → IsStatic s
        → network_init room now s ≡ (ok, t)
        → Reached t
    next : (s t : Stack O) → Reached s → Step s t → Reached t

  started-IsSound :
      (event : Bool) (now : Timeval) (s : Stack O) → IsStatic s → IsSound (started event now s)
  unfolding with_protocols
  started-IsSound event now s f = record {
    caches = rw f.caches (replicate-Distinct arp_cache_size);
    pcbs = rw f.pcbs (Steps.Reached-IsValid empty_pcbs Steps.start);
    irqs = record {
      compatible = rw f.irqs tt;
      masked = rw f.irqs tt;
      usr1 = refl;
      usr2 = refl;
      alrm = refl;
    };
    protocols = ([], [], refl);
  }

  output-Holds :
      (env : Env O) (src dst : Endpoint) (payload : List ℕ) (s : Stack O) (w : Sending (Wire O))
      → Holds Any WireIsTable w
      → Holds Any WireIsTable
          (udp_output env.host
            (transmit env)
            env.now
            (device_at s.devices.devices)
            s.tables.routes
            src
            dst
            payload
            w).1
  unfolding udp_output
  output-Holds env src dst payload s w v =
      let sent =
        ip_send_packet env.host (transmit env) env.now (device_at s.devices.devices) s.tables.routes
          udp_protocol (udp_message env.host src dst payload) src.address dst.address w in
      let k =
        send_keeps Any WireIsTable env.host (transmit env) env.now (device_at s.devices.devices)
          (transmit-Keeps env) (λ i. tt) s.tables.routes udp_protocol
          (udp_message env.host src dst payload) src.address dst.address w v in
      kept_if Sent (ltb (max_ip_payload_size - udp_hdr_size) (length payload)) _ _ v
        (elim (Option-cases sent.0) [ inl e ↦ rw e k | inr (n, e) ↦ rw e k ])
    where
      Sent : Size × Sending (Wire O) → Type 0
      Sent r = Holds Any WireIsTable r.1

  sends-IsSound :
      (env : Env O) (id : ℕ) (payload : List ℕ) (foreign : Endpoint) (s : Stack O)
      → IsSound s
      → IsSound (after_sendto env id payload foreign s)
  unfolding udp_sendto
  sends-IsSound env id payload foreign s v =
      let pcbs = source-IsValid env.host s.tables.routes id foreign s.pcbs v.pcbs in
      elim (Option-cases (choose_source env.host s.tables.routes id foreign s.pcbs).0) [
        | inl e ↦
            rw (e, udp_sendto)
              (record { caches = v.caches; pcbs = pcbs; irqs = v.irqs; protocols = v.protocols })
        | inr (src, e) ↦
            let k = output-Holds env src foreign payload s s.sending (v.caches, v.protocols) in
            rw (e, udp_sendto)
              (record { caches = k.0; pcbs = pcbs; irqs = v.irqs; protocols = k.1 })
      ]

  Step-IsSound : (s t : Stack O) → Step s t → IsSound s → IsSound t
  Step-IsSound _ _ (signals env fuel polls sig s t e) v =
      rw (ap IsSoundIfSome (sym e)) (intr_thread-IsSound env fuel polls sig s v)
  Step-IsSound _ _ (calls s pcbs c) v = record {
    caches = v.caches;
    pcbs = Steps.Step-IsValid s.pcbs pcbs c v.pcbs;
    irqs = v.irqs;
    protocols = v.protocols;
  }
  Step-IsSound _ _ (sends env id payload foreign s) v = sends-IsSound env id payload foreign s v
  Step-IsSound _ _ (requests alloc irq handler flags dev s) v = record {
    caches = v.caches;
    pcbs = v.pcbs;
    irqs = (intr_request_irq_lem alloc irq handler flags dev s.irqs v.irqs).0;
    protocols = v.protocols;
  }
  Step-IsSound _ _ (configures devices tables s) v = record {
    caches = v.caches;
    pcbs = v.pcbs;
    irqs = v.irqs;
    protocols = v.protocols;
  }

  -- In every state that the stack reaches from `network_init`, where no round of the interrupt thread, call of
  -- the user or other step runs while another does, so that none comes between the two critical sections of
  -- `arp_input`, the ARP cache has at most one entry for an
  -- address; the free blocks of UDP are clean and no two open ones are bound alike; the handlers of one
  -- signal are shared and every signal with a handler is in the mask that the thread waits for; and the
  -- protocols of the devices are IP and ARP, with their handlers.
  pub Reached-IsSound : (s : Stack O) → Reached s → IsSound s
  Reached-IsSound _ (start room now s t f e) = elim (network_init_lem room now s f.fresh) [
    | inl (h, i, again) ↦
        rw (ap (λ r. r.1) (sym e), ap (λ r. r.1) i) (started-IsSound room.udp_event now s f)
    | inr (h, i) ↦ absurd (cc)
  ]
  Reached-IsSound _ (next s t r step) = Step-IsSound s t step (Reached-IsSound s r)
