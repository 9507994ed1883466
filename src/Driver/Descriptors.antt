-- ===== src/Driver/Descriptors.antt =====
-- The file descriptors of handler/tap.c and handler/pcap.c.
use llnstack.Base.{
  ℕ, ◌≡◌, refl, ap, ◌∙◌, ◌⊎◌, inl, inr, Bool, true, false, Option, none, some, List, ◌∷◌,
  Bool-cases, Option-cases, arith,
}
use llnstack.Net.{Status, ok, fail}
use llnstack.Driver.{Fds, close, Driven, is_unset, read_addr, or_close, open_addr, ether_close}
use llnstack.Driver.Tap.{TapCalls, ether_tap_open, ether_tap_close}
use llnstack.Driver.Pcap.{PcapCalls, ether_pcap_open, ether_pcap_close}

close_head : (fd : ℕ) (fds : Fds) → close fd (fd ∷ fds) ≡ fds
unfolding close
close_head fd fds = ground arith

-- An open that holds one more descriptor, or has failed and holds none.
abbrev pub Held : Fds → Status × Driven × Fds → Type 0
Held fds (status, dv, fds') =
    ((status ≡ ok) × (fd : ℕ) × (dv.fd ≡ some fd) × (fds' ≡ fd ∷ fds))
    ⊎ ((status ≡ fail) × (fds' ≡ fds))

or_close-Held :
    (call : Bool) (dv : Driven) (fd : ℕ) (fds : Fds) (rest : Status × Driven × Fds)
    → Held fds rest
    → Held fds (or_close call dv fd (fd ∷ fds) rest)
or_close-Held true dv fd fds rest h = h
or_close-Held false dv fd fds rest h = inr (refl, close_head fd fds)

open_addr-Held :
    (soc : Option ℕ) (hwaddr : Option (List ℕ)) (dv : Driven) (fd : ℕ) (fds : Fds)
    → dv.fd ≡ some fd
    → Held fds (open_addr soc hwaddr dv fd (fd ∷ fds))
unfolding open_addr read_addr
open_addr-Held none hwaddr dv fd fds e = elim (Bool-cases (is_unset dv.device)) [
  | inr set ↦ rw (set, open_addr) (inl (refl, fd, e, refl))
  | inl unset ↦ rw (unset, open_addr) (inr (refl, close_head fd fds))
]
open_addr-Held (some soc) none dv fd fds e = elim (Bool-cases (is_unset dv.device)) [
  | inr set ↦ rw (set, open_addr) (inl (refl, fd, e, refl))
  | inl unset ↦
      rw (unset, open_addr)
        (inr (refl, ap (close fd) (close_head soc (fd ∷ fds)) ∙ close_head fd fds))
]
open_addr-Held (some soc) (some sa) dv fd fds e = elim (Bool-cases (is_unset dv.device)) [
  | inr set ↦ rw (set, open_addr) (inl (refl, fd, e, refl))
  | inl unset ↦ rw (unset, open_addr) (inl (refl, fd, e, close_head soc (fd ∷ fds)))
]

tap-Held : (calls : TapCalls) (dv : Driven) (fds : Fds) → Held fds (ether_tap_open calls dv fds)
unfolding ether_tap_open
tap-Held calls dv fds = elim (Option-cases calls.open_clone) [
  | inl n ↦ rw (n, ether_tap_open) (inr (refl, refl))
  | inr (fd, o) ↦
      let dv' = record dv { fd = some fd } in
      rw (o, ether_tap_open)
        (or_close-Held calls.set_iff dv' fd fds _ (
          or_close-Held calls.set_own dv' fd fds _ (
            or_close-Held calls.set_async dv' fd fds _ (
              or_close-Held calls.set_sig dv' fd fds _
                (open_addr-Held calls.socket calls.hwaddr dv' fd fds refl)))))
]

pcap-Held : (calls : PcapCalls) (dv : Driven) (fds : Fds) → Held fds (ether_pcap_open calls dv fds)
unfolding ether_pcap_open
pcap-Held calls dv fds = elim (Option-cases calls.open_packet) [
  | inl n ↦ rw (n, ether_pcap_open) (inr (refl, refl))
  | inr (fd, o) ↦
      let dv' = record dv { fd = some fd } in
      rw (o, ether_pcap_open)
        (or_close-Held calls.get_index dv' fd fds _ (
          or_close-Held calls.bind dv' fd fds _ (
            or_close-Held calls.get_flags dv' fd fds _ (
              or_close-Held calls.set_flags dv' fd fds _ (
                or_close-Held calls.set_own dv' fd fds _ (
                  or_close-Held calls.set_async dv' fd fds _ (
                    or_close-Held calls.set_sig dv' fd fds _
                      (open_addr-Held calls.socket calls.hwaddr dv' fd fds refl))))))))
]

close-Held :
    (fds : Fds) (r : Status × Driven × Fds) → Held fds r → r.0 ≡ ok → (ether_close r.1 r.2).1 ≡ fds
unfolding ether_close
close-Held fds (status, dv, fds') (inl (s, fd, e, f)) good =
    rw (e, f, ether_close) (close_head fd fds)
close-Held fds (status, dv, fds') (inr (s, f)) good = absurd (cc)

-- Whatever the system's calls return, `ether_tap_open` and `ether_pcap_open` leak no descriptor: one that
-- fails leaves open what was open before, and one that succeeds holds one descriptor more, its device's,
-- which the driver's close gives back.
pub open_leaks_none :
    (tap : TapCalls) (pcap : PcapCalls) (dv : Driven) (fds : Fds)
    → Held fds (ether_tap_open tap dv fds)
      × Held fds (ether_pcap_open pcap dv fds)
      × (let (status, dv', fds') = ether_tap_open tap dv fds in
          (status ≡ ok) → (ether_tap_close dv' fds').1 ≡ fds)
      × (let (status, dv', fds') = ether_pcap_open pcap dv fds in
          (status ≡ ok) → (ether_pcap_close dv' fds').1 ≡ fds)
unfolding ether_tap_close ether_pcap_close
open_leaks_none tap pcap dv fds = (
  tap-Held tap dv fds,
  pcap-Held pcap dv fds,
  close-Held fds (ether_tap_open tap dv fds) (tap-Held tap dv fds),
  close-Held fds (ether_pcap_open pcap dv fds) (pcap-Held pcap dv fds),
)
