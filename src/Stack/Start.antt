-- ===== src/Stack/Start.antt =====
-- Starting and stopping: `network_init`, `network_run` and `network_shutdown` of src/lib/net.c, what they
-- call in src/lib/arp.c, src/lib/ip.c, src/lib/icmp.c and src/lib/udp.c, and `loopback_init` of
-- device/loopback.c.
pub mod Tables
pub mod UpDown
use llnstack.Base.{ℕ, Bool, Option, none, some, List, [], ◌∷◌, ◌==◌, if◌then◌else◌}
use llnstack.Net.{
  Status, ok, fail, Device, Devices, is_up, network_protocol_type_ip, network_protocol_type_arp,
  network_device_allocate, network_device_register, network_device_open, network_device_close,
}
use llnstack.Net.Protocol.{Protocol, network_protocol_register}
use llnstack.Net.Timer.{Timeval, Timer, network_timer_register, network_event_subscribe}
use llnstack.Ip.Route.{IpProtocol, ip_register_protocol}
use llnstack.Icmp.{icmp_protocol}
use llnstack.Udp.Datagram.{udp_protocol}
use llnstack.Intr.{Irqs, intr_init, intr_run}
use llnstack.Ether.{loopback_setup}
use llnstack.Stack.{
  ProtocolHandler, arp_handler, ip_handler, IpHandler, icmp_handler, udp_handler, TimerHandler,
  arp_timer_handler, EventHandler, udp_event_handler, Env, Stack, with_protocols,
}

-- What `memory_alloc` says to each that asks during `network_init`.
pub record Room : Type 0 where
  pub arp : Bool
  pub arp_timer : Bool
  pub ip : Bool
  pub icmp : Bool
  pub udp : Bool
  pub udp_event : Bool

-- `{1, 0}`
abbrev pub one_second : Timeval
one_second = record { sec = 1; usec = 0 }

module _ {O : Type 0} where
  -- What follows a call whose failure ends the function with -1.
  abbrev pub after_ok : (Stack O → Status × Stack O) → Status × Stack O → Status × Stack O
  after_ok next (ok, s) = next s
  after_ok next (fail, s) = (fail, s)

  unfoldable pub register_protocol : Bool → ℕ → ProtocolHandler → Stack O → Status × Stack O
  register_protocol alloc type handler s =
      let (status, protocols) =
        network_protocol_register alloc type handler s.sending.driver.protocols in
      (status, with_protocols protocols s)

  unfoldable pub register_ip_protocol : Bool → ℕ → IpHandler → Stack O → Status × Stack O
  register_ip_protocol alloc type handler s =
      let (status, protocols) = ip_register_protocol alloc type handler s.ip_protocols in
      (status, record s { ip_protocols = protocols })

  unfoldable pub register_timer : Bool → Timeval → Stack O → Status × Stack O
  register_timer alloc now s =
      let (status, timers) =
        network_timer_register alloc now one_second arp_timer_handler s.timers in
      (status, record s { timers = timers })

  unfoldable pub subscribe : Bool → Stack O → Stack O
  subscribe alloc s =
      let (status, events) = network_event_subscribe alloc udp_event_handler s.events in
      record s { events = events }

  unfoldable pub arp_init : Room → Timeval → Stack O → Status × Stack O
  arp_init room now s =
      after_ok (register_timer room.arp_timer now)
        (register_protocol room.arp network_protocol_type_arp arp_handler s)

  unfoldable pub ip_initialize : Room → Stack O → Status × Stack O
  ip_initialize room s = register_protocol room.ip network_protocol_type_ip ip_handler s

  unfoldable pub icmp_init : Room → Stack O → Status × Stack O
  icmp_init room s = register_ip_protocol room.icmp icmp_protocol icmp_handler s

  -- The result of `network_event_subscribe` is not looked at.
  unfoldable pub udp_init : Room → Stack O → Status × Stack O
  udp_init room s =
      after_ok (λ t. (ok, subscribe room.udp_event t))
        (register_ip_protocol room.udp udp_protocol udp_handler s)

  unfoldable pub network_init : Room → Timeval → Stack O → Status × Stack O
  network_init room now s = after_ok (udp_init room) (
      after_ok (icmp_init room) (
        after_ok (ip_initialize room)
          (after_ok (arp_init room now) (ok, record s { irqs = (intr_init s.irqs).1 }))))

  -- The device of the index that it is given, and the state; `none` is NULL.
  unfoldable pub loopback_init : Bool → Stack O → Option Device × Stack O
  loopback_init alloc s = elim (network_device_allocate alloc (some loopback_setup)) [
    | none ↦ (none, s)
    | some dev ↦
        let (status, devices) = network_device_register dev s.devices in
        let s' = record s { devices = devices } in
        elim status [
          | fail ↦ (none, s')
          | ok ↦ (some (record dev { index = s.devices.next_index }), s')
        ]
  ]

-- The driver's `open`, which may set the address of the device: what it returns, and the device then.
abbrev pub Opens : Type 0
Opens = Device → Option Status × Device

-- `network_device_open` calls the driver where the device is down.
unfoldable pub open_device : Opens → Device → Device
open_device drive dev =
    let (result, dev') = if is_up dev then (none, dev) else drive dev in
    (network_device_open result dev').1

-- The two loops; what a device's call returns is not looked at.
unfoldable pub open_all : Opens → List Device → List Device
open_all drive [] = []
open_all drive (dev ∷ rest) = open_device drive dev ∷ open_all drive rest

unfoldable pub close_all : (Device → Option Status) → List Device → List Device
close_all drive [] = []
close_all drive (dev ∷ rest) = (network_device_close (drive dev) dev).1 ∷ close_all drive rest

module _ {O : Type 0} where
  abbrev pub with_devices : (List Device → List Device) → Stack O → Stack O
  with_devices change s = record s {
    devices = record s.devices { devices = change s.devices.devices };
  }

  -- The two numbers are what the calls of the threads library return.
  unfoldable pub network_run : ℕ → ℕ → Opens → Stack O → Status × Stack O
  network_run masked created drive s = elim (intr_run masked created) [
    | fail ↦ (fail, s)
    | ok ↦ (ok, with_devices (open_all drive) s)
  ]

  unfoldable pub network_shutdown : (Device → Option Status) → Stack O → Stack O
  network_shutdown drive s = with_devices (close_all drive) s
