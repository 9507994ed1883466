-- ===== src/Stack/Start/UpDown.antt =====
-- All devices opened and closed.
use llnstack.Base.{◌≡◌, refl, ap, true, false, Option, List, [], ◌∷◌, map, All, arith}
use mathlib.Core.Path.{ap₂}
use llnstack.Net.{Status, ok, Device, is_up, op_fails, network_device_open, network_device_close}
use llnstack.Net.Laws.{close-open}
use llnstack.Intr.{intr_run}
use llnstack.Stack.{Stack}
use llnstack.Stack.Start.{
  Opens, open_device, open_all, close_all, with_devices, network_run, network_shutdown,
}

-- A driver that opens the device, and changes nothing of it but its address.
pub record IsWorking (drive : Opens) (dev : Device) : Type 0 where
  pub result : op_fails (drive dev).0 ≡ false
  pub flags : (drive dev).1.flags ≡ dev.flags

opened :
    (drive : Opens) (dev : Device)
    → is_up dev ≡ false
    → open_device drive dev ≡ (network_device_open (drive dev).0 (drive dev).1).1
unfolding open_device
opened drive dev d = rw (d, open_device) refl

opened_up :
    (drive : Opens) (dev : Device)
    → is_up dev ≡ false
    → IsWorking drive dev
    → is_up (open_device drive dev) ≡ true
unfolding network_device_open
opened_up drive dev d w = rw (opened drive dev d) (ground (arith, w.result, w.flags))

opened_closed :
    (drive : Opens) (result : Device → Option Status) (dev : Device)
    → is_up dev ≡ false
    → IsWorking drive dev
    → ((dev : Device) → op_fails (result dev) ≡ false)
    → (network_device_close (result (open_device drive dev)) (open_device drive dev)).1
      ≡ (drive dev).1
opened_closed drive result dev d w c = rw (opened drive dev d) (
    ap (λ r. r.1)
      (close-open (drive dev).0 (result (network_device_open (drive dev).0 (drive dev).1).1)
        (drive dev).1 (ground (arith, d, w.flags)) w.result
        (c (network_device_open (drive dev).0 (drive dev).1).1)))

opened_each :
    (drive : Opens) (devices : List Device)
    → All (λ dev. is_up dev ≡ false) devices
    → All (IsWorking drive) devices
    → All (λ dev. is_up dev ≡ true) (open_all drive devices)
unfolding open_all
opened_each drive [] d w = tt
opened_each drive (dev ∷ rest) d w = (opened_up drive dev d.0 w.0, opened_each drive rest d.1 w.1)

closed_each :
    (drive : Opens) (result : Device → Option Status) (devices : List Device)
    → All (λ dev. is_up dev ≡ false) devices
    → All (IsWorking drive) devices
    → ((dev : Device) → op_fails (result dev) ≡ false)
    → close_all result (open_all drive devices) ≡ map (λ dev. (drive dev).1) devices
unfolding open_all close_all
closed_each drive result [] d w c = refl
closed_each drive result (dev ∷ rest) d w c =
    ap₂ (λ x y. x ∷ y) (opened_closed drive result dev d.0 w.0 c)
      (closed_each drive result rest d.1 w.1 c)

-- Where every device is down, the threads library's calls succeed, the drivers open every device and leave its
-- flags alone, and none fails to close: `network_run` returns 0 and brings every device up, and
-- `network_shutdown` then takes them all down and leaves the state as it was before but for what the drivers
-- set when they opened their devices.
pub shutdown-run :
    {O : Type 0} (drive : Opens) (result : Device → Option Status) (s : Stack O)
    → All (λ dev. is_up dev ≡ false) s.devices.devices
    → All (IsWorking drive) s.devices.devices
    → ((dev : Device) → op_fails (result dev) ≡ false)
    → let (status, s') = network_run 0 0 drive s in
      (status ≡ ok)
      × All (λ dev. is_up dev ≡ true) s'.devices.devices
      × (network_shutdown result s' ≡ with_devices (map (λ dev. (drive dev).1)) s)
unfolding network_run intr_run network_shutdown
shutdown-run drive result s d w c = (
  refl,
  opened_each drive s.devices.devices d w,
  ap (λ l. with_devices (λ x. l) s) (closed_each drive result s.devices.devices d w c),
)
