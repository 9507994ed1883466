-- ===== src/Net.antt =====
-- src/lib/net.c and src/include/net2.h: devices, interfaces and what sends through them.
-- A device is known by its index, and the pointer of an interface to its device is that index.
-- The flags are bits: 0x0001 (up), 0x0010, 0x0020, 0x0040 and 0x0100 (needs ARP).
pub mod Protocol
pub mod Timer
pub mod Laws
use llnstack.Base.{
  ℕ, suc, ◌+◌, ◌-◌, ◌/◌, ◌%◌, ◌^◌, Bool, true, false, not, Option, none, some, List, [], ◌∷◌,
  length, replicate, ltb, ◌==◌, ◌!=◌, if◌then◌else◌,
}

-- What an `int` function returns: 0 or -1.
pub data Status : Type 0 where
  ok fail : Status

-- `struct IP_INTERFACE` with the `struct network_interface` in it. Addresses are `uint32_t`.
pub record Interface : Type 0 where
  pub dev : ℕ
  pub family : ℕ
  pub unicast : ℕ
  pub netmask : ℕ
  pub broadcast : ℕ

-- `struct network_device`; `ops` and `priv` are arguments of the functions that call them.
pub record Device : Type 0 where
  pub index : ℕ
  pub type : ℕ
  pub mtu : ℕ
  pub flags : ℕ
  pub header_len : ℕ
  pub address_len : ℕ
  pub address : List ℕ
  pub broadcast : List ℕ
  pub interfaces : List Interface

abbrev pub network_interface_family_ip : ℕ
network_interface_family_ip = 1

abbrev pub network_device_type_loopback : ℕ
network_device_type_loopback = 1

abbrev pub network_device_type_ethernet : ℕ
network_device_type_ethernet = 2

abbrev pub network_protocol_type_ip : ℕ
network_protocol_type_ip = 0x0800

abbrev pub network_protocol_type_arp : ℕ
network_protocol_type_arp = 0x0806

-- NETWORK_DEVICE_IS_UP(x), bit 0, and the test of NETWORK_DEVICE_FLAG_NEED_ARP, bit 8.
abbrev pub is_up : Device → Bool
is_up dev = dev.flags % 2 != 0

abbrev pub need_arp : Device → Bool
need_arp dev = dev.flags / 256 % 2 != 0

-- A device as `calloc` leaves it.
abbrev pub zero_device : Device
zero_device = record {
  index = 0;
  type = 0;
  mtu = 0;
  flags = 0;
  header_len = 0;
  address_len = 0;
  address = replicate 16 0;
  broadcast = replicate 16 0;
  interfaces = [];
}

-- The first argument tells whether `memory_alloc` succeeds; `setup` may be NULL.
unfoldable pub network_device_allocate : Bool → Option (Device → Device) → Option Device
network_device_allocate false setup = none
network_device_allocate true none = some zero_device
network_device_allocate true (some setup) = some (setup zero_device)

-- The static list and the static counter.
pub record Devices : Type 0 where
  pub devices : List Device
  pub next_index : ℕ

unfoldable pub network_device_register : Device → Devices → Status × Devices
network_device_register dev s = (
  ok,
  record {
    devices = record dev { index = s.next_index } ∷ s.devices;
    next_index = (s.next_index + 1) % 2 ^ 32;
  },
)

-- `dev->ops->open` or `close`: NULL, or what the call returns.
abbrev pub op_fails : Option Status → Bool
op_fails none = false
op_fails (some ok) = false
op_fails (some fail) = true

unfoldable pub network_device_open : Option Status → Device → Status × Device
network_device_open open_op dev =
    if is_up dev
    then (fail, dev)
    else (if op_fails open_op
        then (fail, dev)
        else (ok, record dev { flags = dev.flags - dev.flags % 2 + 1 }))

unfoldable pub network_device_close : Option Status → Device → Status × Device
network_device_close close_op dev =
    if not (is_up dev)
    then (fail, dev)
    else (if op_fails close_op
        then (fail, dev)
        else (ok, record dev { flags = dev.flags - dev.flags % 2 }))

-- The loop of `network_device_get_interface`.
unfoldable pub find_family : ℕ → List Interface → Option Interface
find_family family [] = none
find_family family (entry ∷ rest) =
    if entry.family == family then some entry else find_family family rest

unfoldable pub network_device_get_interface : Device → ℕ → Option Interface
network_device_get_interface dev family = find_family family dev.interfaces

-- The new device and interface. The loop ends at the first entry of the same family.
unfoldable pub network_device_add_interface : Device → Interface → Status × Device × Interface
network_device_add_interface dev iface = elim (find_family iface.family dev.interfaces) [
  | some entry ↦ (fail, dev, iface)
  | none ↦ (
    ok,
    record dev { interfaces = record iface { dev = dev.index } ∷ dev.interfaces },
    record iface { dev = dev.index },
  )
]

-- `dev->ops->transmit` as a change of the state behind the driver.
abbrev pub Transmit : Type 0 → Type 0
Transmit S = Device → ℕ → List ℕ → List ℕ → S → Status × S

unfoldable pub network_device_output :
    {S : Type 0} → Transmit S → Device → ℕ → List ℕ → List ℕ → S → Status × S
network_device_output transmit dev type buf dst s =
    if not (is_up dev)
    then (fail, s)
    else (if ltb dev.mtu (length buf) then (fail, s) else transmit dev type buf dst s)
