-- ===== src/App.antt =====
-- apps/udp_app.c: the setup of the stack on a TAP device, and one round of the loop that sends back what it
-- receives. The arguments of the command line and the constants of src/include/params.h are texts.
pub mod Expected
pub mod Setup
pub mod Echo
pub mod Main
use llnstack.Base.{ℕ, Bool, true, false, Option, none, some, List, [], ◌∷◌, ◌==◌, if◌then◌else◌}
use llnstack.Util.Endian.{Host}
use llnstack.Net.{Status, ok, fail, Interface, Device, Devices, Transmit}
use llnstack.Net.Timer.{Timeval}
use llnstack.Ip.Text.{Endpoint}
use llnstack.Ip.Route.{
  Route, IpTables, ip_allocate_interface, ip_register_interface, ip_set_default_gateway,
}
use llnstack.Ip.Packet.{Sending}
use llnstack.Udp.Pcb.{UdpPcb}
use llnstack.Udp.User.{Receiving, failed, received, asleep}
use llnstack.Sock.{Sock, sock_recvfrom, sock_sendto}
use llnstack.Driver
use llnstack.Driver.Tap.{ether_tap_init}
use llnstack.Intr.{Irqs}
use llnstack.Stack.{Stack, IrqHandler, tap_isr}
use llnstack.Stack.Start.{Room, Opens, network_init, network_run}

-- "00:00:5e:00:53:01", "192.0.2.2", "255.255.255.0" and "192.0.2.1"
abbrev pub ether_tap_hw_addr : List ℕ
ether_tap_hw_addr =
    b'0' ∷ b'0' ∷ b':' ∷ b'0' ∷ b'0' ∷ b':' ∷ b'5' ∷ b'e' ∷ b':' ∷ b'0' ∷ b'0' ∷ b':' ∷ b'5' ∷ b'3'
    ∷ b':' ∷ b'0' ∷ b'1' ∷ []

abbrev pub ether_tap_ip_addr : List ℕ
ether_tap_ip_addr = b'1' ∷ b'9' ∷ b'2' ∷ b'.' ∷ b'0' ∷ b'.' ∷ b'2' ∷ b'.' ∷ b'2' ∷ []

abbrev pub ether_tap_netmask : List ℕ
ether_tap_netmask =
    b'2' ∷ b'5' ∷ b'5' ∷ b'.' ∷ b'2' ∷ b'5' ∷ b'5' ∷ b'.' ∷ b'2' ∷ b'5' ∷ b'5' ∷ b'.' ∷ b'0' ∷ []

abbrev pub default_gateway : List ℕ
default_gateway = b'1' ∷ b'9' ∷ b'2' ∷ b'.' ∷ b'0' ∷ b'.' ∷ b'2' ∷ b'.' ∷ b'1' ∷ []

-- What the machine gives to `setup`: memory to each that asks, SIGRTMIN, the time, what the calls of the
-- threads library return, and the driver's open.
pub record Machine : Type 0 where
  pub host : Host
  pub network : Room
  pub tap : Driver.Room
  pub iface : Bool
  pub route : Bool
  pub gateway : Bool
  pub sigrtmin : ℕ
  pub now : Timeval
  pub masked : ℕ
  pub created : ℕ
  pub drive : Opens

-- The device behind a pointer, changed.
unfoldable pub store_device : Device → List Device → List Device
store_device dev [] = []
store_device dev (x ∷ rest) =
    let rest' = store_device dev rest in if x.index == dev.index then dev ∷ rest else x ∷ rest'

module _ {O : Type 0} (m : Machine) where
  -- From the default gateway on.
  unfoldable pub set_gateway_and_run : Interface → Stack O → Status × Stack O
  set_gateway_and_run iface s =
      let (status, routes) =
        ip_set_default_gateway m.host m.gateway iface default_gateway s.tables.routes in
      let s' = record s { tables = record s.tables { routes = routes } } in
      elim status [ fail ↦ (fail, s') | ok ↦ network_run m.masked m.created m.drive s' ]

  -- From the interface on.
  unfoldable pub configure : Device → Stack O → Status × Stack O
  configure dev s =
      elim (ip_allocate_interface m.host m.iface ether_tap_ip_addr ether_tap_netmask) [
        | none ↦ (fail, s)
        | some iface ↦
            let (status, dev', tables) = ip_register_interface m.route dev iface s.tables in
            let s' = record s {
              devices = record s.devices { devices = store_device dev' s.devices.devices };
              tables = tables;
            } in
            elim status [
              | fail ↦ (fail, s')
              | ok ↦ set_gateway_and_run (record iface { dev = dev.index }) s'
            ]
      ]

  -- From the driver's result on.
  unfoldable pub after_tap : Stack O → Option Device × Devices × Irqs IrqHandler → Status × Stack O
  after_tap s (none, devices, irqs) = (fail, record s { devices = devices; irqs = irqs })
  after_tap s (some dev, devices, irqs) =
      configure dev (record s { devices = devices; irqs = irqs })

  unfoldable pub after_network : Status × Stack O → Status × Stack O
  after_network (fail, s) = (fail, s)
  after_network (ok, s) =
      after_tap s
        (ether_tap_init m.tap tap_isr m.sigrtmin (some ether_tap_hw_addr) (s.devices, s.irqs))

  -- `setup`, but for the handler of SIGINT.
  unfoldable pub setup : Stack O → Status × Stack O
  setup s = after_network (network_init m.network m.now s)

-- How a round of the loop in `main` ends: asleep in `sock_recvfrom`, or going on, or at a `break`.
pub data Round : Type 0 where
  waits goes_on breaks : Round

abbrev pub buf_size : ℕ
buf_size = 1024

-- The test of `sock_sendto` on -1.
abbrev pub after_send : Option ℕ → Round
after_send none = breaks
after_send (some n) = goes_on

module _ {S : Type 0} (h : Host) (transmit : Transmit S) (now : Timeval) (device : ℕ → Device) where
  -- What follows `sock_recvfrom`; the Boolean tells whether `errno` is EINTR where it fails.
  unfoldable pub answer :
      List Route
      → ℕ
      → List Sock
      → Bool
      → Receiving
      → List UdpPcb × Sending S
      → Round × List UdpPcb × Sending S
  answer routes soc socks eintr failed (pcbs, w) = (if eintr then goes_on else breaks, pcbs, w)
  answer routes soc socks eintr asleep (pcbs, w) = (waits, pcbs, w)
  answer routes soc socks eintr (received foreign bytes) (pcbs, w) =
      let (size, pcbs', w') =
        sock_sendto h transmit now device routes soc bytes foreign socks (pcbs, w) in
      (after_send size, pcbs', w')

  unfoldable pub echo_round :
      List Route → ℕ → List Sock → Bool → List UdpPcb × Sending S → Round × List UdpPcb × Sending S
  echo_round routes soc socks eintr (pcbs, w) =
      let (r, pcbs') = sock_recvfrom soc buf_size (socks, pcbs) in
      answer routes soc socks eintr r (pcbs', w)
