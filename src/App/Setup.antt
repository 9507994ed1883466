-- ===== src/App/Setup.antt =====
-- What `setup` of apps/udp_app.c leaves.
use llnstack.Base.{
  ℕ, ◌≡◌, refl, ap, ◌∙◌, inl, inr, Bool, true, some, List, [], ◌∷◌, bit_and, ◌==◌, if◌then◌else◌,
  Bool-cases, ◌!=◌, take, ltb,
}
use llnstack.Util.Endian.{Host, little, big, ntoh32}
use llnstack.Net.{
  Status, ok, Interface, Devices, zero_device, network_device_allocate, network_device_register,
  network_device_add_interface, find_family,
}
use llnstack.Net.Timer.{Timeval}
use llnstack.Ip.Route.{
  Route, ip_route_lookup, lookup_from, ip_allocate_interface, ip_route_add, ip_register_interface,
}
use llnstack.Ip.Route.Interfaces.{gateway_added, bit_and-zero}
use llnstack.Ip.Packet.{next_hop}
use llnstack.Stack.{Stack, IrqHandler, tap_isr, with_protocols}
use llnstack.Stack.Start.{Opens, open_device, open_all, network_run, network_init}
use llnstack.Driver.Init.{ethernet_with}
use llnstack.Ether.Address.{ether_addr_pton, hex_bytes, after_byte, strtol_hex, skip_prefix}
use llnstack.Ip.Text.{ip_string_to_address, octets, strtol, after_octet, skip_space, strtol_digits}
use llnstack.Intr.{Irqs, intr_run, intr_request_irq, network_irq_shared}
use llnstack.Ether.{ether_setup_helper}
use llnstack.Driver.{set_addr, install, ether_init}
use llnstack.Driver.Tap.{ether_tap_irq, ether_tap_init}
use llnstack.Stack.Start.Tables.{started, network_init_lem}
use llnstack.App.{
  Machine, set_gateway_and_run, configure, after_tap, after_network, store_device, setup,
  ether_tap_hw_addr, ether_tap_ip_addr, ether_tap_netmask, default_gateway,
}
use llnstack.App.Expected.{
  static_storage, generous, own, mask, gateway, interface_of, hw_addr, tap_device, both_routes,
}

hw_read : ether_addr_pton ether_tap_hw_addr ≡ some (take 6 hw_addr)
unfolding ether_addr_pton hex_bytes after_byte strtol_hex skip_prefix skip_space strtol_digits
hw_read = refl

own_read : (h : Host) → ip_string_to_address h ether_tap_ip_addr ≡ some (own h)
unfolding ip_string_to_address octets strtol after_octet
own_read little = refl
own_read big = refl

mask_read : (h : Host) → ip_string_to_address h ether_tap_netmask ≡ some (mask h)
unfolding ip_string_to_address octets strtol after_octet
mask_read little = refl
mask_read big = refl

gateway_read : (h : Host) → ip_string_to_address h default_gateway ≡ some (gateway h)
unfolding ip_string_to_address octets strtol after_octet
gateway_read little = refl
gateway_read big = refl

allocated :
    (h : Host)
    → ip_allocate_interface h true ether_tap_ip_addr ether_tap_netmask ≡ some (interface_of h)
unfolding ip_allocate_interface
allocated h = rw (own_read h, mask_read h, ip_allocate_interface) refl

abbrev at_first : Devices
at_first = record { devices = []; next_index = 0 }

address_set :
    set_addr (some ether_tap_hw_addr) (ether_setup_helper zero_device)
    ≡ some (record (ether_setup_helper zero_device) { address = hw_addr })
unfolding set_addr ether_setup_helper
address_set = rw (hw_read, set_addr) refl

tap_made :
    (irq : Bool) (sigrtmin : ℕ) (irqs : Irqs IrqHandler)
    → ether_tap_init
        (record { device = true; priv = true; irq = irq })
        tap_isr
        sigrtmin
        (some ether_tap_hw_addr)
        (at_first, irqs)
      ≡ (
        some (ethernet_with 0 hw_addr),
        record { devices = ethernet_with 0 hw_addr ∷ []; next_index = 1 },
        (intr_request_irq irq (ether_tap_irq sigrtmin) tap_isr network_irq_shared 0 irqs).1,
      )
unfolding ether_tap_init ether_init install network_device_allocate network_device_register
tap_made irq sigrtmin irqs = rw (address_set, ether_init) refl

better : (h : Host) → ltb (ntoh32 h 0) (ntoh32 h (mask h)) ≡ true
better little = refl
better big = refl

far_hop : (h : Host) (dst : ℕ) → (if gateway h != 0 then gateway h else dst) ≡ gateway h
far_hop little dst = refl
far_hop big dst = refl

hop :
    (h : Host) (dst : ℕ)
    → (route : Route) × (ip_route_lookup h dst (both_routes h) ≡ some route)
      × (route.iface ≡ interface_of h)
      × (next_hop route dst
          ≡ (if bit_and dst (mask h) == bit_and (own h) (mask h) then dst else gateway h))
unfolding ip_route_lookup lookup_from
hop h dst = elim (Bool-cases (bit_and dst (mask h) == bit_and (own h) (mask h))) [
  | inl near ↦ (
    record {
      network = bit_and (own h) (mask h);
      netmask = mask h;
      nexthop = 0;
      iface = interface_of h;
    },
    rw (bit_and-zero dst, near, better h) refl,
    refl,
    rw near refl,
  )
  | inr far ↦ (
    record { network = 0; netmask = 0; nexthop = gateway h; iface = interface_of h },
    rw (bit_and-zero dst, far) refl,
    refl,
    rw far (far_hop h dst),
  )
]

module _ {O : Type 0} (os : O) (h : Host) (event irq : Bool) (sigrtmin : ℕ) (now : Timeval)
    (drive : Opens) where
  abbrev pub machine : Machine
  machine = generous h event irq sigrtmin now drive

  gateway_set :
      (iface : Interface) (s : Stack O)
      → set_gateway_and_run machine iface s ≡ (
        ok,
        record s {
          devices = record s.devices { devices = open_all drive s.devices.devices };
          tables = record s.tables {
            routes =
                record { network = 0; netmask = 0; nexthop = gateway h; iface = iface }
                ∷ s.tables.routes;
          };
        },
      )
  unfolding set_gateway_and_run network_run intr_run
  gateway_set iface s =
      let g = gateway_added h iface default_gateway s.tables.routes (gateway h) (gateway_read h) in
      rw (g, set_gateway_and_run)
        (ap
          (λ (r : Status × List Route). (
            ok,
            record s {
              devices = record s.devices { devices = open_all drive s.devices.devices };
              tables = record s.tables { routes = r.1 };
            },
          ))
          g)

  -- The state after the driver is there.
  abbrev pub with_tap : Stack O
  with_tap = record (started event now (static_storage os)) {
    devices = record { devices = ethernet_with 0 hw_addr ∷ []; next_index = 1 };
    irqs =
        (intr_request_irq irq (ether_tap_irq sigrtmin) tap_isr network_irq_shared 0
          (started event now (static_storage os)).irqs).1;
  }

  abbrev pub ready_stack : Stack O
  ready_stack = record with_tap {
    devices = record { devices = open_device drive (tap_device h) ∷ []; next_index = 1 };
    tables = record { ifaces = interface_of h ∷ []; routes = both_routes h };
  }

  configured : configure machine (ethernet_with 0 hw_addr) with_tap ≡ (ok, ready_stack)
  unfolding configure ip_register_interface network_device_add_interface find_family ip_route_add
      store_device open_all with_protocols ether_setup_helper
  configured = rw (allocated h, configure) (gateway_set (interface_of h) _)

  initialised :
      network_init machine.network now (static_storage os)
      ≡ (ok, started event now (static_storage os))
  initialised =
      elim (network_init_lem machine.network now (static_storage os)
        (record { protocols = refl; ip_protocols = refl; timers = refl; events = refl })) [
          | inl (r, e, again) ↦ e
          | inr (r, e) ↦ absurd (cc)
        ]

  pub set_up : setup machine (static_storage os) ≡ (ok, ready_stack)
  unfolding setup after_network after_tap with_protocols
  set_up =
      ap (after_network machine) initialised
      ∙ ap (after_tap machine (started event now (static_storage os)))
          (tap_made irq sigrtmin (started event now (static_storage os)).irqs)
      ∙ configured

-- Where memory is at hand and the threads library's calls succeed, `setup` succeeds from the static
-- variables, whatever the driver's open gives. The only device is then the one of TAP, with the address and
-- the interface that the constants say, opened; and every destination has a route on it: one on the network
-- of the interface is its own next hop, any other goes to the default gateway.
pub setup_lem :
    {O : Type 0} (os : O) (h : Host) (event irq : Bool) (sigrtmin : ℕ) (now : Timeval)
    (drive : Opens) (dst : ℕ)
    → let (status, t) = setup (generous h event irq sigrtmin now drive) (static_storage os) in
      (status ≡ ok)
      × (t.devices.devices ≡ open_device drive (tap_device h) ∷ [])
      × ((route : Route) × (ip_route_lookup h dst t.tables.routes ≡ some route)
          × (route.iface ≡ interface_of h)
          × (next_hop route dst
              ≡ (if bit_and dst (mask h) == bit_and (own h) (mask h) then dst else gateway h)))
setup_lem os h event irq sigrtmin now drive dst =
    rw (set_up os h event irq sigrtmin now drive) (refl, refl, hop h dst)
