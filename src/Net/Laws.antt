-- ===== src/Net/Laws.antt =====
-- Devices: opening and closing, interfaces, and the guards of the output.
use llnstack.Base.{
  ℕ, ◌/◌, ◌≤◌, ◌<◌, ◌≡◌, ◌⊎◌, true, false, Option, none, some, List, [], ◌∷◌, length, ◌==◌,
  if◌then◌else◌, arith,
}
use llnstack.Net.{
  Status, ok, fail, Interface, Device, is_up, need_arp, op_fails, network_device_open,
  network_device_close, find_family, network_device_get_interface, network_device_add_interface,
  Transmit, network_device_output,
}

-- Opening a device succeeds exactly when it is down and the driver does not fail; it is then up, and
-- keeps its other flags. A refused call leaves the device as it was.
pub network_device_open_lem :
    (op : Option Status) (dev : Device)
    → let (status, dev') = network_device_open op dev in
      ((status ≡ ok)
        × (is_up dev ≡ false)
        × (op_fails op ≡ false)
        × (is_up dev' ≡ true)
        × (need_arp dev' ≡ need_arp dev)
        × (dev'.flags / 2 ≡ dev.flags / 2))
      ⊎ ((status ≡ fail) × ((is_up dev ≡ true) ⊎ (op_fails op ≡ true)) × (dev' ≡ dev))
unfolding network_device_open
network_device_open_lem op dev = ground arith

-- Opening a device that is down and closing it again gives the device back, if the driver fails at
-- neither.
pub close-open :
    (open_op close_op : Option Status) (dev : Device)
    → is_up dev ≡ false
    → op_fails open_op ≡ false
    → op_fails close_op ≡ false
    → network_device_close close_op (network_device_open open_op dev).1 ≡ (ok, dev)
unfolding network_device_open network_device_close
close-open open_op close_op dev d o c = ground arith

-- The families of a device's interfaces are distinct.
abbrev pub DistinctFamilies : List Interface → Type 0
DistinctFamilies [] = Unit {0}
DistinctFamilies (i ∷ rest) = (find_family i.family rest ≡ none) × DistinctFamilies rest

-- A device has at most one interface of a family, and `network_device_add_interface` keeps that so;
-- where it succeeds, `network_device_get_interface` finds the new interface under its family, bound to
-- the device, and every other family as before.
pub add_interface_lem :
    (dev : Device) (iface : Interface)
    → DistinctFamilies dev.interfaces
    → let (status, dev', iface') = network_device_add_interface dev iface in
      DistinctFamilies dev'.interfaces
      × ((status ≡ ok)
          → (iface'.dev ≡ dev.index)
            × ((f : ℕ)
                → network_device_get_interface dev' f ≡ (
                    if iface.family == f then some iface' else network_device_get_interface dev f)))
unfolding network_device_add_interface network_device_get_interface find_family
add_interface_lem dev iface d = ground arith

-- The driver is called exactly when the device is up and the data fits its MTU, and then with the
-- data as it is; otherwise nothing is sent.
pub network_device_output_lem :
    {S : Type 0} (transmit : Transmit S) (dev : Device) (type : ℕ) (buf dst : List ℕ) (s : S)
    → ((is_up dev ≡ true)
        × (length buf ≤ dev.mtu)
        × (network_device_output transmit dev type buf dst s ≡ transmit dev type buf dst s))
      ⊎ (((is_up dev ≡ false) ⊎ (dev.mtu < length buf))
          × (network_device_output transmit dev type buf dst s ≡ (fail, s)))
unfolding network_device_output
network_device_output_lem transmit dev type buf dst s = ground arith
