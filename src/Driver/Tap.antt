-- ===== src/Driver/Tap.antt =====
-- handler/tap.c: opening the TAP device, and what else the driver calls.
use llnstack.Base.{ℕ, ◌+◌, Bool, Option, none, some, List, ◌∷◌}
use llnstack.Net.{Status, fail, Device, Devices}
use llnstack.Driver.{
  Poll, ether_close, ether_isr, Fds, Driven, or_close, open_addr, Room, ether_init,
}
use llnstack.Util.Endian.{Host}
use llnstack.Net.Protocol.{Protocol}
use llnstack.Intr.{Irqs}

-- What the calls of `ether_tap_open` return: a descriptor, or whether they succeed; and for
-- `ether_tap_addr` the socket and the address.
pub record TapCalls : Type 0 where
  pub open_clone : Option ℕ
  pub set_iff : Bool
  pub set_own : Bool
  pub set_async : Bool
  pub set_sig : Bool
  pub socket : Option ℕ
  pub hwaddr : Option (List ℕ)

unfoldable pub ether_tap_open : TapCalls → Driven → Fds → Status × Driven × Fds
ether_tap_open calls dv fds = elim calls.open_clone [
  | none ↦ (fail, record dv { fd = none }, fds)
  | some fd ↦
      let dv' = record dv { fd = some fd } in
      let held = fd ∷ fds in
      or_close calls.set_iff dv' fd held (
        or_close calls.set_own dv' fd held (
          or_close calls.set_async dv' fd held
            (or_close calls.set_sig dv' fd held (open_addr calls.socket calls.hwaddr dv' fd held))))
]

-- ETHER_TAP_IRQ, with the system's SIGRTMIN.
abbrev pub ether_tap_irq : ℕ → ℕ
ether_tap_irq sigrtmin = sigrtmin + 2

unfoldable pub ether_tap_init :
    {H : Type 0}
    → Room
    → H
    → ℕ
    → Option (List ℕ)
    → Devices × Irqs H
    → Option Device × Devices × Irqs H
ether_tap_init room isr sigrtmin addr = ether_init room isr (ether_tap_irq sigrtmin) addr

unfoldable pub ether_tap_close : Driven → Fds → Status × Fds
ether_tap_close dv fds = ether_close dv fds

unfoldable pub ether_tap_isr :
    {H : Type 0}
    → Host
    → Bool
    → Bool
    → Device
    → List Poll
    → List (Protocol H) × Bool
    → Option Status × List (Protocol H) × Bool
ether_tap_isr h alloc alloc_link dev polls c = ether_isr h alloc alloc_link dev polls c
