-- ===== src/Driver/Init.antt =====
-- What `ether_tap_init` and `ether_pcap_init` leave.
use llnstack.Base.{
  ℕ, ◌+◌, ◌%◌, ◌^◌, true, false, ◌≡◌, refl, ap, ◌⊎◌, inl, inr, Option, none, some, List, ◌∷◌,
  Bool-cases, Option-cases,
}
use llnstack.Net.{Device, Devices, network_device_allocate, network_device_register, zero_device}
use llnstack.Arp.Cache.{ether_addr_len}
use llnstack.Util.Packed.{copy_into}
use llnstack.Ether.{ether_setup_helper}
use llnstack.Ether.Address.{ether_addr_pton}
use llnstack.Intr.{Irqs, intr_request_irq, network_irq_shared}
use llnstack.Intr.Table.{IsSound, intr_request_irq_lem}
use llnstack.Driver.{Room, set_addr, install, ether_init}

-- The device that both functions set up, with a hardware address in its array.
abbrev pub ethernet_with : ℕ → List ℕ → Device
ethernet_with index address = record (ether_setup_helper zero_device) {
  index = index;
  address = address;
}

-- The address that a text gives; an absent one leaves zeros.
abbrev pub Gives : Option (List ℕ) → List ℕ → Type 0
Gives none address = address ≡ zero_device.address
Gives (some text) address =
    (bytes : List ℕ) × (ether_addr_pton text ≡ some bytes)
    × (address ≡ copy_into zero_device.address bytes ether_addr_len)

-- The text is given and is no address.
abbrev pub IsBad : Option (List ℕ) → Type 0
IsBad none = ⊥
IsBad (some text) = ether_addr_pton text ≡ none

set_addr_lem :
    (addr : Option (List ℕ)) (dev : Device)
    → dev.address ≡ zero_device.address
    → (IsBad addr × (set_addr addr dev ≡ none))
      ⊎ ((address : List ℕ) × Gives addr address
          × (set_addr addr dev ≡ some (record dev { address = address })))
unfolding set_addr
set_addr_lem none dev e = inr (dev.address, e, refl)
set_addr_lem (some text) dev e = elim (Option-cases (ether_addr_pton text)) [
  | inl n ↦ inl (n, rw (n, set_addr) refl)
  | inr (bytes, p) ↦ inr (
    copy_into dev.address bytes ether_addr_len,
    (bytes, p, ap (λ a. copy_into a bytes ether_addr_len) e),
    rw (p, set_addr) refl,
  )
]

module _ {H : Type 0} where
  Outcome :
      Room → H → ℕ → Option (List ℕ) → Devices → Irqs H → Option Device × Devices × Irqs H → Type 0
  Outcome room isr irq addr devices irqs (result, devices', irqs') =
      IsSound irqs'
      × ((((room.device ≡ false) ⊎ (IsBad addr ⊎ (room.priv ≡ false)))
            × (result ≡ none)
            × (devices' ≡ devices)
            × (irqs' ≡ irqs))
          ⊎ ((room.device ≡ true)
              × (room.priv ≡ true)
              × (address : List ℕ) × Gives addr address
              × (result ≡ some (ethernet_with devices.next_index address))
              × (devices' ≡ record {
                devices = ethernet_with devices.next_index address ∷ devices.devices;
                next_index = (devices.next_index + 1) % 2 ^ 32;
              })
              × (irqs'
                  ≡ (intr_request_irq room.irq irq isr network_irq_shared devices.next_index
                      irqs).1)))

  refused :
      (room : Room) (isr : H) (irq : ℕ) (addr : Option (List ℕ)) (devices : Devices) (irqs : Irqs H)
      → (room.device ≡ false) ⊎ (IsBad addr ⊎ (room.priv ≡ false))
      → IsSound irqs
      → Outcome room isr irq addr devices irqs (none, devices, irqs)
  unfolding Outcome
  refused room isr irq addr devices irqs why v = (v, inl (why, refl, refl, refl))

  no_device :
      (room : Room) (isr : H) (irq : ℕ) (addr : Option (List ℕ)) (devices : Devices) (irqs : Irqs H)
      → room.device ≡ false
      → ether_init room isr irq addr (devices, irqs) ≡ (none, devices, irqs)
  unfolding ether_init network_device_allocate
  no_device room isr irq addr devices irqs full = rw (full, ether_init)

  no_address :
      (room : Room) (isr : H) (irq : ℕ) (addr : Option (List ℕ)) (devices : Devices) (irqs : Irqs H)
      → room.device ≡ true
      → set_addr addr (ether_setup_helper zero_device) ≡ none
      → ether_init room isr irq addr (devices, irqs) ≡ (none, devices, irqs)
  unfolding ether_init network_device_allocate
  no_address room isr irq addr devices irqs there e = rw (there, e, ether_init)

  no_priv :
      (room : Room) (isr : H) (irq : ℕ) (addr : Option (List ℕ)) (devices : Devices) (irqs : Irqs H)
      (dev : Device)
      → room.device ≡ true
      → set_addr addr (ether_setup_helper zero_device) ≡ some dev
      → room.priv ≡ false
      → ether_init room isr irq addr (devices, irqs) ≡ (none, devices, irqs)
  unfolding ether_init network_device_allocate
  no_priv room isr irq addr devices irqs dev there e full = rw (there, e, full, ether_init)

  installed :
      (room : Room) (isr : H) (irq : ℕ) (addr : Option (List ℕ)) (devices : Devices) (irqs : Irqs H)
      (address : List ℕ)
      → room.device ≡ true
      → set_addr addr (ether_setup_helper zero_device) ≡ some (ethernet_with 0 address)
      → room.priv ≡ true
      → let dev = ethernet_with devices.next_index address in
        ether_init room isr irq addr (devices, irqs) ≡ (
          some dev,
          record {
            devices = dev ∷ devices.devices;
            next_index = (devices.next_index + 1) % 2 ^ 32;
          },
          (intr_request_irq room.irq irq isr network_irq_shared devices.next_index irqs).1,
        )
  unfolding ether_init install network_device_allocate network_device_register ether_setup_helper
  installed room isr irq addr devices irqs address there e priv = rw (there, e, priv, ether_init)

  -- With a table of handlers that is sound: where there is no memory for the device or for `priv`, or the text
  -- is no address, nothing changes and NULL is returned. Otherwise the device is new at the head of the list,
  -- with the next index, which is counted up, modulo 2 ^ 32, the settings of an Ethernet, down, and the address
  -- that the text gives; and its handler was then requested for the signal. What that returned is not looked
  -- at, so a device whose handler was refused is returned all the same. The table of handlers stays sound.
  pub ether_init_lem :
      (room : Room) (isr : H) (irq : ℕ) (addr : Option (List ℕ)) (devices : Devices) (irqs : Irqs H)
      → IsSound irqs
      → let (result, devices', irqs') = ether_init room isr irq addr (devices, irqs) in
        IsSound irqs'
        × ((((room.device ≡ false) ⊎ (IsBad addr ⊎ (room.priv ≡ false)))
              × (result ≡ none)
              × (devices' ≡ devices)
              × (irqs' ≡ irqs))
            ⊎ ((room.device ≡ true)
                × (room.priv ≡ true)
                × (address : List ℕ) × Gives addr address
                × (result ≡ some (ethernet_with devices.next_index address))
                × (devices' ≡ record {
                  devices = ethernet_with devices.next_index address ∷ devices.devices;
                  next_index = (devices.next_index + 1) % 2 ^ 32;
                })
                × (irqs'
                    ≡ (intr_request_irq room.irq irq isr network_irq_shared devices.next_index
                        irqs).1)))
  unfolding ether_setup_helper Outcome
  ether_init_lem room isr irq addr devices irqs v = elim (Bool-cases room.device) [
    | inr full ↦
        rw (no_device room isr irq addr devices irqs full)
          (refused room isr irq addr devices irqs (inl full) v)
    | inl there ↦ elim (set_addr_lem addr (ether_setup_helper zero_device) refl) [
      | inl (bad, e) ↦
          rw (no_address room isr irq addr devices irqs there e)
            (refused room isr irq addr devices irqs (inr (inl bad)) v)
      | inr (address, gives, e) ↦ elim (Bool-cases room.priv) [
        | inr full ↦
            rw (no_priv room isr irq addr devices irqs _ there e full)
              (refused room isr irq addr devices irqs (inr (inr full)) v)
        | inl room_for ↦ rw (installed room isr irq addr devices irqs address there e room_for) (
          (intr_request_irq_lem room.irq irq isr network_irq_shared devices.next_index irqs v).0,
          inr (there, room_for, address, gives, refl, refl, refl),
        )
      ]
    ]
  ]
