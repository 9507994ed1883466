-- ===== src/Tests.antt =====
-- Runs of the definitions on concrete inputs, and the theorems at them, by component.
pub mod Util
pub mod Arp
pub mod Ip
pub mod Udp
pub mod Stack
pub mod Driver
pub mod Ping
pub mod App
pub mod Serve
pub mod Cache
use llnstack.Base.{ℕ, List, [], ◌∷◌}
use llnstack.Net.{Status, ok, Interface, Device, Transmit}
use llnstack.Net.Timer.{Timeval}
use llnstack.Ip.Route.{Route}

-- A driver that keeps the frames it is given.
abbrev pub Frames : Type 0
Frames = List (List ℕ)

abbrev pub keep_frame : Transmit Frames
keep_frame dev type buf dst s = (ok, buf ∷ s)

abbrev pub now : Timeval
now = record { sec = 100; usec = 5 }

-- 192.0.2.2/24 as a little-endian machine reads it.
abbrev pub iface : Interface
iface = record {
  dev = 0;
  family = 1;
  unicast = 33685696;
  netmask = 16777215;
  broadcast = 4278321344;
}

-- An Ethernet device that is up and needs ARP.
abbrev pub ethernet : Device
ethernet = record {
  index = 0;
  type = 2;
  mtu = 1500;
  flags = 257;
  header_len = 14;
  address_len = 6;
  address = 2 ∷ 0 ∷ 0 ∷ 0 ∷ 0 ∷ 1 ∷ [];
  broadcast = 255 ∷ 255 ∷ 255 ∷ 255 ∷ 255 ∷ 255 ∷ [];
  interfaces = iface ∷ [];
}

abbrev pub devices : ℕ → Device
devices i = ethernet

abbrev pub routes : List Route
routes = record { network = 131264; netmask = 16777215; nexthop = 0; iface = iface } ∷ []

-- 192.0.2.9, on the interface's network.
abbrev pub peer : ℕ
peer = 151126208
