-- ===== src/Ip/Route/Interfaces.antt =====
-- Registering interfaces, the default gateway and protocols.
use llnstack.Base.{
  ℕ, zero, suc, ◌/◌, min, ◌≡◌, ◌≢◌, refl, ◌∙◌, ◌⊎◌, inl, inr, Bool, true, false, none, some, List,
  ◌∷◌, Option-cases, ==_iff, bit_and, ◌==◌, if◌then◌else◌, arith,
}
use Prim.Native.Nat.{digits, bit_and-bitwise}
use llnstack.Util.Endian.{Host}
use llnstack.Net.{
  ok, fail, Interface, Device, find_family, network_device_add_interface,
  network_device_get_interface,
}
use llnstack.Ip.Text.{ip_string_to_address}
use llnstack.Ip.Route.{
  Route, IpTables, IpProtocol, ip_addr_any, ip_route_add, route_matches, ip_route_lookup,
  ip_set_default_gateway, ip_get_interface, ip_register_interface, ip_select_interface,
  find_ip_protocol, ip_register_protocol,
}
use llnstack.Ip.Route.Longest.{ip_route_lookup_lem}

-- The route that registration adds for an interface.
abbrev pub connected_route : Interface → Route
connected_route iface = record {
  network = bit_and iface.unicast iface.netmask;
  netmask = iface.netmask;
  nexthop = ip_addr_any;
  iface = iface;
}

-- Registration succeeds exactly when the device has no interface of the family and memory is at hand
-- for the route; the interface is then bound to the device, at the head of the list of interfaces, with
-- its route at the head of the routes. Otherwise the two lists stay; but where only the memory was
-- missing, the device keeps the interface.
pub ip_register_interface_lem :
    (alloc : Bool) (dev : Device) (iface : Interface) (t : IpTables)
    → let bound = record iface { dev = dev.index } in
      let (status, dev', t') = ip_register_interface alloc dev iface t in
      ((status ≡ ok)
        × (find_family iface.family dev.interfaces ≡ none)
        × (alloc ≡ true)
        × (network_device_get_interface dev' iface.family ≡ some bound)
        × (t'.ifaces ≡ bound ∷ t.ifaces)
        × (t'.routes ≡ connected_route bound ∷ t.routes))
      ⊎ ((status ≡ fail)
          × (t' ≡ t)
          × (((find_family iface.family dev.interfaces ≢ none) × (dev' ≡ dev))
              ⊎ ((find_family iface.family dev.interfaces ≡ none)
                  × (alloc ≡ false)
                  × (network_device_get_interface dev' iface.family ≡ some bound))))
unfolding ip_register_interface ip_route_add network_device_add_interface
    network_device_get_interface find_family
ip_register_interface_lem alloc dev iface t = ground arith

lookup_head :
    (h : Host) (dst : ℕ) (r : Route) (rest : List Route)
    → route_matches dst r ≡ true
    → ip_route_lookup h dst (r ∷ rest) ≢ none
lookup_head h dst r rest m = elim (ip_route_lookup_lem h dst (r ∷ rest)) [
  | inl (e, a) ↦ λ n. cc a.0
  | inr (x, e, b) ↦ λ n. cc
]

get_interface_head :
    (h : Host) (dst : ℕ) (routes : List Route)
    → ip_route_lookup h dst routes ≢ none
    → ip_get_interface h dst routes ≢ none
unfolding ip_get_interface
get_interface_head h dst routes n = elim (Option-cases (ip_route_lookup h dst routes)) [
  | inl e ↦ absurd (n e)
  | inr (r, e) ↦ λ g. ground (arith, e, g)
]

-- An address on the interface's network.
abbrev pub OnLink : Interface → ℕ → Type 0
OnLink iface dst = bit_and dst iface.netmask ≡ bit_and iface.unicast iface.netmask

select_head :
    (i : Interface) (rest : List Interface) → ip_select_interface i.unicast (i ∷ rest) ≡ some i
unfolding ip_select_interface
select_head i rest = ground arith

-- After a successful registration every address on the interface's network can be routed, and
-- `ip_select_interface` finds the interface by its address.
pub register_reaches :
    (h : Host) (alloc : Bool) (dev : Device) (iface : Interface) (t : IpTables) (dst : ℕ)
    → (ip_register_interface alloc dev iface t).0 ≡ ok
    → OnLink iface dst
    → let t' = (ip_register_interface alloc dev iface t).2 in
      (ip_get_interface h dst t'.routes ≢ none)
      × (ip_select_interface iface.unicast t'.ifaces ≡ some (record iface { dev = dev.index }))
register_reaches h alloc dev iface t dst s l = elim (ip_register_interface_lem alloc dev iface t) [
  | inl (o, f, a, g, ifs, rs) ↦ (
    rw rs (
        get_interface_head h dst _ (
          lookup_head h dst (connected_route (record iface { dev = dev.index })) t.routes
            ((==_iff _ _).1 l))),
    rw ifs (select_head (record iface { dev = dev.index }) t.ifaces),
  )
  | inr (f, same, cause) ↦ absurd (cc)
]

no_digits : (n a : ℕ) → digits (λ b. zero) min n a 0 ≡ 0
no_digits zero a = refl
no_digits (suc n) zero = refl
no_digits (suc n) (suc a) = omega (arith, no_digits n (suc a / 2))

pub bit_and-zero : (a : ℕ) → bit_and a 0 ≡ 0
bit_and-zero a = bit_and-bitwise a 0 ∙ no_digits a a

pub gateway_added :
    (h : Host) (iface : Interface) (gateway : List ℕ) (routes : List Route) (gw : ℕ)
    → ip_string_to_address h gateway ≡ some gw
    → ip_set_default_gateway h true iface gateway routes ≡ (
      ok,
      record { network = ip_addr_any; netmask = ip_addr_any; nexthop = gw; iface = iface } ∷ routes,
    )
unfolding ip_set_default_gateway ip_route_add
gateway_added h iface gateway routes gw e = rw (e, ip_set_default_gateway)

-- Once a default gateway is set, which a valid text and memory suffice for, every address can be
-- routed.
pub default_gateway_reaches :
    (h : Host) (iface : Interface) (gateway : List ℕ) (routes : List Route) (dst gw : ℕ)
    → ip_string_to_address h gateway ≡ some gw
    → let (status, routes') = ip_set_default_gateway h true iface gateway routes in
      (status ≡ ok) × (ip_route_lookup h dst routes' ≢ none)
default_gateway_reaches h iface gateway routes dst gw e =
    rw (gateway_added h iface gateway routes gw e)
      (refl, lookup_head h dst _ routes ((==_iff _ _).1 (bit_and-zero dst)))

module _ {H : Type 0} where
  -- A protocol is registered once: registration succeeds exactly when its number is new and memory is
  -- at hand; the number then has the handler, and every other number is as before.
  pub ip_register_protocol_lem :
      (alloc : Bool) (type : ℕ) (handler : H) (protocols : List (IpProtocol H))
      → let (status, protocols') = ip_register_protocol alloc type handler protocols in
        ((status ≡ ok)
          × (find_ip_protocol type protocols ≡ none)
          × (alloc ≡ true)
          × ((t : ℕ)
              → find_ip_protocol t protocols'
                ≡ (if type == t then some handler else find_ip_protocol t protocols)))
        ⊎ ((status ≡ fail)
            × (protocols' ≡ protocols)
            × ((find_ip_protocol type protocols ≢ none) ⊎ (alloc ≡ false)))
  unfolding ip_register_protocol find_ip_protocol
  ip_register_protocol_lem alloc type handler protocols = ground arith
