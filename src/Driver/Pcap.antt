-- ===== src/Driver/Pcap.antt =====
-- handler/pcap.c: opening a packet socket, and what else the driver calls.
use llnstack.Base.{ℕ, ◌+◌, Bool, Option, none, some, List, ◌∷◌}
use llnstack.Net.{Status, fail, Device, Devices}
use llnstack.Driver.{
  Poll, ether_close, ether_isr, Fds, Driven, or_close, open_addr, Room, ether_init,
}
use llnstack.Util.Endian.{Host}
use llnstack.Net.Protocol.{Protocol}
use llnstack.Intr.{Irqs}

-- What the calls of `ether_pcap_open` return, and for `ether_pcap_addr` the socket and the address.
pub record PcapCalls : Type 0 where
  pub open_packet : Option ℕ
  pub get_index : Bool
  pub bind : Bool
  pub get_flags : Bool
  pub set_flags : Bool
  pub set_own : Bool
  pub set_async : Bool
  pub set_sig : Bool
  pub socket : Option ℕ
  pub hwaddr : Option (List ℕ)

unfoldable pub ether_pcap_open : PcapCalls → Driven → Fds → Status × Driven × Fds
ether_pcap_open calls dv fds = elim calls.open_packet [
  | none ↦ (fail, record dv { fd = none }, fds)
  | some fd ↦
      let dv' = record dv { fd = some fd } in
      let held = fd ∷ fds in
      or_close calls.get_index dv' fd held (
        or_close calls.bind dv' fd held (
          or_close calls.get_flags dv' fd held (
            or_close calls.set_flags dv' fd held (
              or_close calls.set_own dv' fd held (
                or_close calls.set_async dv' fd held (
                  or_close calls.set_sig dv' fd held
                    (open_addr calls.socket calls.hwaddr dv' fd held)))))))
]

-- ETHER_PCAP_IRQ, with the system's SIGRTMIN.
abbrev pub ether_pcap_irq : ℕ → ℕ
ether_pcap_irq sigrtmin = sigrtmin + 3

unfoldable pub ether_pcap_init :
    {H : Type 0}
    → Room
    → H
    → ℕ
    → Option (List ℕ)
    → Devices × Irqs H
    → Option Device × Devices × Irqs H
ether_pcap_init room isr sigrtmin addr = ether_init room isr (ether_pcap_irq sigrtmin) addr

unfoldable pub ether_pcap_close : Driven → Fds → Status × Fds
ether_pcap_close dv fds = ether_close dv fds

unfoldable pub ether_pcap_isr :
    {H : Type 0}
    → Host
    → Bool
    → Bool
    → Device
    → List Poll
    → List (Protocol H) × Bool
    → Option Status × List (Protocol H) × Bool
ether_pcap_isr h alloc alloc_link dev polls c = ether_isr h alloc alloc_link dev polls c
