-- ===== src/Driver.antt =====
-- The drivers handler/tap.c and handler/pcap.c. The system's calls are parameters: what each returns is an
-- argument, and the state that they change is the list of the file descriptors that are open.
pub mod Tap
pub mod Pcap
pub mod Descriptors
pub mod Init
pub mod Input
use llnstack.Base.{
  ℕ, ◌+◌, Bool, true, false, not, Option, none, some, List, [], ◌∷◌, take, replicate, ◌==◌,
  if◌then◌else◌,
}
use llnstack.Util.Endian.{Host}
use llnstack.Util.Packed.{copy_into}
use llnstack.Net.{
  Status, ok, fail, Device, Devices, network_device_allocate, network_device_register,
}
use llnstack.Net.Protocol.{Protocol}
use llnstack.Arp.Cache.{ether_addr_len}
use llnstack.Ether.{same_bytes, ether_poll_helper, ether_setup_helper}
use llnstack.Ether.Address.{ether_addr_pton}
use llnstack.Intr.{Irqs, network_irq_shared, intr_request_irq}

abbrev pub Fds : Type 0
Fds = List ℕ

-- close(fd)
unfoldable pub close : ℕ → Fds → Fds
close fd [] = []
close fd (x ∷ rest) = if x == fd then rest else x ∷ close fd rest

-- A device with the `fd` of its `struct ether_tap` or `struct ether_pcap`; `none` is -1.
pub record Driven : Type 0 where
  pub device : Device
  pub fd : Option ℕ

abbrev pub ether_addr_any : List ℕ
ether_addr_any = replicate ether_addr_len 0

-- Whether the device has no hardware address yet.
abbrev pub is_unset : Device → Bool
is_unset dev = same_bytes (take ether_addr_len dev.address) ether_addr_any

-- `ether_tap_addr` and `ether_pcap_addr`: what `socket` returns, and what SIOCGIFHWADDR gives.
unfoldable pub read_addr : Option ℕ → Option (List ℕ) → Device → Fds → Status × Device × Fds
read_addr none hwaddr dev fds = (fail, dev, fds)
read_addr (some soc) none dev fds = (fail, dev, close soc (soc ∷ fds))
read_addr (some soc) (some sa) dev fds =
    (ok, record dev { address = copy_into dev.address sa ether_addr_len }, close soc (soc ∷ fds))

-- A call on the descriptor after which a failure closes it and returns -1.
abbrev pub or_close : Bool → Driven → ℕ → Fds → Status × Driven × Fds → Status × Driven × Fds
or_close true dv fd fds rest = rest
or_close false dv fd fds rest = (fail, dv, close fd fds)

-- The end of both functions that open: the address, where it is not set.
unfoldable pub open_addr : Option ℕ → Option (List ℕ) → Driven → ℕ → Fds → Status × Driven × Fds
open_addr soc hwaddr dv fd fds =
    if is_unset dv.device
    then (let (status, dev, fds') = read_addr soc hwaddr dv.device fds in
        elim status [
          | ok ↦ (ok, record dv { device = dev }, fds')
          | fail ↦ (fail, dv, close fd fds')
        ])
    else (ok, dv, fds)

-- `ether_tap_close` and `ether_pcap_close`.
unfoldable pub ether_close : Driven → Fds → Status × Fds
ether_close dv fds = elim dv.fd [ none ↦ (ok, fds) | some fd ↦ (ok, close fd fds) ]

-- What `poll` reports, and what `read` gives where it reports data: the bytes, or `none` for an error.
pub data Poll : Type 0 where
  interrupted failed idle : Poll
  ready : Option (List ℕ) → Poll

-- `ether_tap_read` and `ether_pcap_read`.
unfoldable pub ether_read : Option (List ℕ) → Option (List ℕ)
ether_read none = none
ether_read (some []) = none
ether_read (some (b ∷ bs)) = some (b ∷ bs)

module _ {H : Type 0} where
  -- `ether_tap_isr` and `ether_pcap_isr` along what `poll` reports, call by call; `none` while the loop
  -- goes on.
  unfoldable pub ether_isr :
      Host
      → Bool
      → Bool
      → Device
      → List Poll
      → List (Protocol H) × Bool
      → Option Status × List (Protocol H) × Bool
  ether_isr h alloc alloc_link dev [] (protocols, raised) = (none, protocols, raised)
  ether_isr h alloc alloc_link dev (interrupted ∷ polls) c =
      ether_isr h alloc alloc_link dev polls c
  ether_isr h alloc alloc_link dev (failed ∷ polls) (protocols, raised) =
      (some fail, protocols, raised)
  ether_isr h alloc alloc_link dev (idle ∷ polls) (protocols, raised) = (some ok, protocols, raised)
  ether_isr h alloc alloc_link dev (ready bytes ∷ polls) (protocols, raised) =
      let (status, protocols', again) =
        ether_poll_helper h alloc alloc_link dev (ether_read bytes) protocols in
      ether_isr h alloc alloc_link dev polls (protocols', if again then true else raised)

-- The text of the address, if one is given, into the device's array.
unfoldable pub set_addr : Option (List ℕ) → Device → Option Device
set_addr none dev = some dev
set_addr (some text) dev = elim (ether_addr_pton text) [
  | none ↦ none
  | some bytes ↦ some (record dev { address = copy_into dev.address bytes ether_addr_len })
]

-- What `memory_alloc` says to the three that ask: for the device, for `priv`, and for the entry of the
-- interrupt.
pub record Room : Type 0 where
  pub device : Bool
  pub priv : Bool
  pub irq : Bool

module _ {H : Type 0} where
  -- The end of both functions: `isr` is the driver's handler and `irq` its signal. The result of
  -- `intr_request_irq` is not looked at.
  unfoldable pub install :
      Bool → H → ℕ → Device → Devices × Irqs H → Option Device × Devices × Irqs H
  install alloc isr irq dev (devices, irqs) =
      let (status, devices') = network_device_register dev devices in
      elim status [
        | fail ↦ (none, devices', irqs)
        | ok ↦
            let dev' = record dev { index = devices.next_index } in
            (
              some dev',
              devices',
              (intr_request_irq alloc irq isr network_irq_shared dev'.index irqs).1,
            )
      ]

  -- `ether_tap_init` and `ether_pcap_init`, but for the signal and the handler; `none` is NULL.
  unfoldable pub ether_init :
      Room → H → ℕ → Option (List ℕ) → Devices × Irqs H → Option Device × Devices × Irqs H
  ether_init room isr irq addr (devices, irqs) =
      elim (network_device_allocate room.device (some ether_setup_helper)) [
        | none ↦ (none, devices, irqs)
        | some dev ↦ elim (set_addr addr dev) [
          | none ↦ (none, devices, irqs)
          | some dev' ↦
              if room.priv
              then install room.irq isr irq dev' (devices, irqs)
              else (none, devices, irqs)
        ]
      ]
