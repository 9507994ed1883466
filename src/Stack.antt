-- ===== src/Stack.antt =====
-- The stack as one state: the tables of src/lib/net.c, src/lib/arp.c, src/lib/ip.c, src/lib/udp.c and
-- handler/interrupt.c, the handlers that they hold, and the drivers behind the devices.
pub mod Start
pub mod Signals
pub mod Loopback
pub mod Datagram
pub mod EndToEnd
pub mod Written
pub mod Ping
pub mod Sound
use llnstack.Base.{
  ℕ, zero, suc, ◌+◌, Bool, true, false, ◌||◌, Option, none, some, List, [], ◌∷◌, length, ◌==◌,
  if◌then◌else◌,
}
use llnstack.Util.Endian.{Host}
use llnstack.Net.{
  Status, ok, fail, Device, Devices, Transmit, zero_device, network_device_type_loopback,
  network_device_type_ethernet,
}
use llnstack.Net.Protocol.{Packet, Protocol, network_input_handler, network_protocol_handler}
use llnstack.Net.Timer.{Timeval, Timer, network_timer_handler, network_event_handler}
use llnstack.Arp.Cache.{ArpCache, arp_timer}
use llnstack.Arp.Resolve.{arp_input}
use llnstack.Ip.Route.{Route, IpTables, IpProtocol}
use llnstack.Ip.Packet.{Delivery, Sending, ip_input}
use llnstack.Icmp.{icmp_input}
use llnstack.Udp.Pcb.{UdpPcb, event_handler}
use llnstack.Udp.Datagram.{udp_input}
use llnstack.Ether.{ether_transmit_helper}
use llnstack.Intr.{Irqs}

-- The functions whose addresses the tables hold.
pub data ProtocolHandler : Type 0 where
  arp_handler ip_handler : ProtocolHandler

pub data IpHandler : Type 0 where
  icmp_handler udp_handler : IpHandler

pub data TimerHandler : Type 0 where
  arp_timer_handler : TimerHandler

pub data EventHandler : Type 0 where
  udp_event_handler : EventHandler

pub data IrqHandler : Type 0 where
  tap_isr pcap_isr : IrqHandler

-- What sending changes behind a device: the input queues, which the loopback device fills, whether the
-- software interrupt is pending, and the system behind the file descriptors.
pub record Wire (O : Type 0) : Type 0 where
  pub protocols : List (Protocol ProtocolHandler)
  pub pending : Bool
  pub os : O

-- What a run of the stack is given: the byte order, whether memory is at hand, the time, and `write` to
-- the file descriptor of a device.
pub record Env (O : Type 0) : Type 0 where
  pub host : Host
  pub alloc : Bool
  pub alloc_link : Bool
  pub now : Timeval
  pub write : ℕ → List ℕ → O → Option ℕ × O

pub record Stack (O : Type 0) : Type 0 where
  pub devices : Devices
  pub ip_protocols : List (IpProtocol IpHandler)
  pub timers : List (Timer TimerHandler)
  pub events : List EventHandler
  pub tables : IpTables
  pub sending : Sending (Wire O)
  pub pcbs : List UdpPcb
  pub irqs : Irqs IrqHandler

-- The device of an index; every index in use is one that `network_device_register` gave out.
unfoldable pub device_at : List Device → ℕ → Device
device_at [] i = zero_device
device_at (dev ∷ rest) i = if dev.index == i then dev else device_at rest i

unfoldable pub with_protocols : {O : Type 0} → List (Protocol ProtocolHandler) → Stack O → Stack O
with_protocols protocols s = record s {
  sending = record s.sending { driver = record s.sending.driver { protocols = protocols } };
}

module _ {O : Type 0} (env : Env O) where
  -- `loopback_transmit` on the wire: the packet is queued again, and 0 is returned in any case.
  unfoldable pub loop_back : Transmit (Wire O)
  loop_back dev type buf dst w =
      let (status, protocols, raised) =
        network_input_handler env.alloc env.alloc_link type buf dev.index w.protocols in
      (ok, record w { protocols = protocols; pending = w.pending || raised })

  -- `ether_tap_transmit` and `ether_pcap_transmit`.
  unfoldable pub put_frame : Transmit (Wire O)
  put_frame dev type buf dst w =
      let (status, os) =
        ether_transmit_helper (env.write dev.index) env.host dev type buf dst w.os in
      (status, record w { os = os })

  -- `dev->ops->transmit`; a driver sets the type and the operations of its device together.
  unfoldable pub transmit : Transmit (Wire O)
  transmit dev type buf dst w =
      if dev.type == network_device_type_loopback
      then loop_back dev type buf dst w
      else (if dev.type == network_device_type_ethernet
          then put_frame dev type buf dst w
          else (fail, w))

  -- The handlers of the IP protocols.
  unfoldable pub deliver : IpHandler → Delivery → Stack O → Stack O
  deliver icmp_handler d s = record s {
    sending =
        icmp_input env.host transmit env.now (device_at s.devices.devices) s.tables.routes d.payload
          d.len d.src d.dst d.iface s.sending;
  }
  deliver udp_handler d s = record s {
    pcbs = udp_input env.host env.alloc env.alloc_link d.payload d.len d.src d.dst s.pcbs;
  }

  -- The handlers of the protocols of the devices.
  unfoldable pub handle_packet : ProtocolHandler → Packet → Stack O → Stack O
  handle_packet arp_handler p s =
      let (caches, driver) =
        arp_input env.host transmit env.now (device_at s.devices.devices p.dev) p.bytes
          (s.sending.caches, s.sending.driver) in
      record s { sending = record s.sending { caches = caches; driver = driver } }
  handle_packet ip_handler p s =
      elim (ip_input env.host (device_at s.devices.devices p.dev) s.ip_protocols p.bytes) [
        | none ↦ s
        | some (handler, d) ↦ deliver handler d s
      ]

  -- A handler with the table in its hands, as the loop of `network_protocol_handler` calls it.
  unfoldable pub call_protocol :
      ProtocolHandler
      → Packet
      → List (Protocol ProtocolHandler) × Stack O
      → List (Protocol ProtocolHandler) × Stack O
  call_protocol handler p (protocols, s) =
      let s' = handle_packet handler p (with_protocols protocols s) in
      (s'.sending.driver.protocols, s')

  -- `network_protocol_handler` on the whole state; `none` means that the fuel ran out.
  unfoldable pub soft_interrupt : ℕ → Stack O → Option (Stack O)
  soft_interrupt fuel s =
      elim (network_protocol_handler call_protocol fuel (s.sending.driver.protocols, s)) [
        | none ↦ none
        | some (protocols, s') ↦ some (with_protocols protocols s')
      ]

  abbrev pub call_timer : TimerHandler → Stack O → Stack O
  call_timer arp_timer_handler s = record s {
    sending = record s.sending { caches = arp_timer env.now s.sending.caches };
  }

  -- `network_timer_handler`, with one reading of the clock.
  unfoldable pub timer_interrupt : Stack O → Stack O
  timer_interrupt s =
      let (timers, s') = network_timer_handler (λ st. env.now) call_timer s.timers s in
      record s' { timers = timers }

  abbrev pub call_event : EventHandler → Stack O → Stack O
  call_event udp_event_handler s = record s { pcbs = event_handler s.pcbs }

  unfoldable pub event_interrupt : Stack O → Stack O
  event_interrupt s = network_event_handler call_event s.events s
