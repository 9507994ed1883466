-- ===== src/Udp/Pcb/Select.antt =====
-- `udp_pcb_select` finds the first open block that accepts an address and a port.
use llnstack.Base.{
  ℕ, zero, suc, ◌+◌, ◌≡◌, refl, ◌⊎◌, inl, inr, true, false, Option, none, some, List, [], ◌∷◌, All,
  get_elem?, Bool-cases, arith,
}
use llnstack.Udp.Pcb.{UdpPcb, accepts, select_from, udp_pcb_select}

abbrev pub NoneAccepts : ℕ → ℕ → List UdpPcb → Type 0
NoneAccepts addr port = All (λ x. accepts addr port x ≡ false)

-- No block before the place accepts.
abbrev pub FirstAt : ℕ → ℕ → List UdpPcb → ℕ → Type 0
FirstAt addr port [] i = Unit {0}
FirstAt addr port (x ∷ rest) zero = Unit {0}
FirstAt addr port (x ∷ rest) (suc i) = (accepts addr port x ≡ false) × FirstAt addr port rest i

abbrev pub Selected : ℕ → ℕ → ℕ → List UdpPcb → Option (ℕ × UdpPcb) → Type 0
Selected i addr port pcbs r =
    ((r ≡ none) × NoneAccepts addr port pcbs)
    ⊎ ((j : ℕ) × (x : UdpPcb) × (r ≡ some (i + j, x))
        × (get_elem? pcbs j ≡ some x)
        × (accepts addr port x ≡ true)
        × FirstAt addr port pcbs j)

select_from-Selected :
    (i addr port : ℕ) (pcbs : List UdpPcb)
    → Selected i addr port pcbs (select_from i addr port pcbs)
unfolding select_from
select_from-Selected i addr port [] = inl (refl, tt)
select_from-Selected i addr port (x ∷ rest) = elim (Bool-cases (accepts addr port x)) [
  | inl a ↦ inr (0, x, rw a (ground arith), refl, a, tt)
  | inr n ↦ elim (select_from-Selected (suc i) addr port rest) [
    | inl (e, all) ↦ inl (rw n e, (n, all))
    | inr (j, y, e, at, a, f) ↦ inr (suc j, y, rw n (ground (arith, e)), at, a, (n, f))
  ]
]

-- It returns the place and the content of the first block that is open and bound to the port and to
-- the address or to any address, and NULL exactly when there is no such block.
pub udp_pcb_select_lem :
    (addr port : ℕ) (pcbs : List UdpPcb)
    → ((udp_pcb_select addr port pcbs ≡ none) × NoneAccepts addr port pcbs)
      ⊎ ((j : ℕ) × (x : UdpPcb) × (udp_pcb_select addr port pcbs ≡ some (j, x))
          × (get_elem? pcbs j ≡ some x)
          × (accepts addr port x ≡ true)
          × FirstAt addr port pcbs j)
unfolding udp_pcb_select
udp_pcb_select_lem addr port pcbs = elim (select_from-Selected 0 addr port pcbs) [
  | inl h ↦ inl h
  | inr (j, x, e, at, a, f) ↦ inr (j, x, ground (arith, e), at, a, f)
]

pub none-NoneAccepts :
    (addr port : ℕ) (pcbs : List UdpPcb)
    → udp_pcb_select addr port pcbs ≡ none
    → NoneAccepts addr port pcbs
none-NoneAccepts addr port pcbs n = elim (udp_pcb_select_lem addr port pcbs) [
  | inl (e, all) ↦ all
  | inr (j, x, e, at, a, f) ↦ absurd (cc)
]
