-- ===== src/Ip/Route.antt =====
-- The routes, the interfaces and the protocol table of src/lib/ip.c. `&`, `|` and `~` on addresses
-- are those of 32-bit numbers.
pub mod Longest
pub mod Interfaces
use llnstack.Base.{
  ℕ, ◌+◌, ◌-◌, ◌^◌, Bool, true, false, Option, none, some, List, [], ◌∷◌, bit_and, bit_or, ltb,
  ◌==◌, if◌then◌else◌,
}
use llnstack.Util.Endian.{Host, ntoh32}
use llnstack.Net.{
  Status, ok, fail, Interface, Device, network_interface_family_ip, network_device_add_interface,
}
use llnstack.Ip.Text.{ip_string_to_address}

abbrev pub ip_addr_any : ℕ
ip_addr_any = 0

abbrev pub ip_addr_broadcast : ℕ
ip_addr_broadcast = 0xffff_ffff

-- `struct ip_route`
pub record Route : Type 0 where
  pub network : ℕ
  pub netmask : ℕ
  pub nexthop : ℕ
  pub iface : Interface

-- The Boolean tells whether `memory_alloc` succeeds.
unfoldable pub ip_route_add : Bool → ℕ → ℕ → ℕ → Interface → List Route → Status × List Route
ip_route_add false network netmask nexthop iface routes = (fail, routes)
ip_route_add true network netmask nexthop iface routes =
    (ok, record { network = network; netmask = netmask; nexthop = nexthop; iface = iface } ∷ routes)

abbrev pub route_matches : ℕ → Route → Bool
route_matches dst route = bit_and dst route.netmask == route.network

-- `!candidate || ntoh32(candidate->netmask) < ntoh32(route->netmask)`
abbrev pub is_better : Host → Option Route → Route → Bool
is_better h none route = true
is_better h (some candidate) route = ltb (ntoh32 h candidate.netmask) (ntoh32 h route.netmask)

unfoldable pub lookup_from : Host → ℕ → Option Route → List Route → Option Route
lookup_from h dst candidate [] = candidate
lookup_from h dst candidate (route ∷ rest) =
    lookup_from h dst
      (if route_matches dst route
        then (if is_better h candidate route then some route else candidate)
        else candidate)
      rest

unfoldable pub ip_route_lookup : Host → ℕ → List Route → Option Route
ip_route_lookup h dst routes = lookup_from h dst none routes

unfoldable pub ip_set_default_gateway :
    Host → Bool → Interface → List ℕ → List Route → Status × List Route
ip_set_default_gateway h alloc iface gateway routes = elim (ip_string_to_address h gateway) [
  | none ↦ (fail, routes)
  | some gw ↦ ip_route_add alloc ip_addr_any ip_addr_any gw iface routes
]

unfoldable pub ip_get_interface : Host → ℕ → List Route → Option Interface
ip_get_interface h dst routes = elim (ip_route_lookup h dst routes) [
  | none ↦ none
  | some route ↦ some route.iface
]

-- ~netmask
abbrev pub complement32 : ℕ → ℕ
complement32 a = 2 ^ 32 - 1 - a

-- A new interface has no device yet; 0 stands for the NULL that `calloc` leaves.
abbrev pub new_interface : ℕ → ℕ → Interface
new_interface unicast netmask = record {
  dev = 0;
  family = network_interface_family_ip;
  unicast = unicast;
  netmask = netmask;
  broadcast = bit_or (bit_and unicast netmask) (complement32 netmask);
}

unfoldable pub ip_allocate_interface : Host → Bool → List ℕ → List ℕ → Option Interface
ip_allocate_interface h false unicast netmask = none
ip_allocate_interface h true unicast netmask = elim (ip_string_to_address h unicast) [
  | none ↦ none
  | some u ↦ elim (ip_string_to_address h netmask) [
    | none ↦ none
    | some m ↦ some (new_interface u m)
  ]
]

-- The static lists.
pub record IpTables : Type 0 where
  pub ifaces : List Interface
  pub routes : List Route

register_added : Bool → Status × Device × Interface → IpTables → Status × Device × IpTables
register_added alloc (fail, dev, iface) t = (fail, dev, t)
register_added alloc (ok, dev, iface) t =
    let (status, routes) =
      ip_route_add alloc (bit_and iface.unicast iface.netmask) iface.netmask ip_addr_any iface
        t.routes in
    elim status [
      | fail ↦ (fail, dev, record t { routes = routes })
      | ok ↦ (ok, dev, record { ifaces = iface ∷ t.ifaces; routes = routes })
    ]

unfoldable pub ip_register_interface :
    Bool → Device → Interface → IpTables → Status × Device × IpTables
unfolding register_added
ip_register_interface alloc dev iface t =
    register_added alloc (network_device_add_interface dev iface) t

unfoldable pub ip_select_interface : ℕ → List Interface → Option Interface
ip_select_interface addr [] = none
ip_select_interface addr (entry ∷ rest) =
    if entry.unicast == addr then some entry else ip_select_interface addr rest

-- `struct ip_protocol`; `H` is the type of the handler's address.
pub record IpProtocol (H : Type 0) : Type 0 where
  pub type : ℕ
  pub handler : H

module _ {H : Type 0} where
  unfoldable pub find_ip_protocol : ℕ → List (IpProtocol H) → Option H
  find_ip_protocol type [] = none
  find_ip_protocol type (entry ∷ rest) =
      if entry.type == type then some entry.handler else find_ip_protocol type rest

  unfoldable pub ip_register_protocol :
      Bool → ℕ → H → List (IpProtocol H) → Status × List (IpProtocol H)
  ip_register_protocol alloc type handler protocols = elim (find_ip_protocol type protocols) [
    | some h ↦ (fail, protocols)
    | none ↦
        if alloc
        then (ok, record { type = type; handler = handler } ∷ protocols)
        else (fail, protocols)
  ]
