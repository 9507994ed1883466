-- ===== src/Arp/Cache/Select.antt =====
-- `arp_cache_select` finds the entry of an address, and an address has at most one entry.
use llnstack.Base.{
  ℕ, zero, suc, ◌+◌, ◌≡◌, refl, ◌⊎◌, inl, inr, true, false, Option, none, some, List, [], ◌∷◌, All,
  get_elem?, Bool-cases, arith,
}
use llnstack.Arp.Cache.{ArpCache, is_free, holds_pa, select_from, arp_cache_select}

-- No entry of the table holds the address.
abbrev pub Absent : ℕ → List ArpCache → Type 0
Absent pa = All (λ e. holds_pa pa e ≡ false)

-- No entry but the one at the place holds the address.
abbrev pub Others : ℕ → List ArpCache → ℕ → Type 0
Others pa [] i = Unit {0}
Others pa (x ∷ rest) zero = Absent pa rest
Others pa (x ∷ rest) (suc i) = (holds_pa pa x ≡ false) × Others pa rest i

-- No two entries in use hold the same address.
abbrev pub Distinct : List ArpCache → Type 0
Distinct [] = Unit {0}
Distinct (x ∷ rest) = ((is_free x.state ≡ true) ⊎ Absent x.pa rest) × Distinct rest

-- What a search that began at the place `i` found.
abbrev pub Selected : ℕ → ℕ → List ArpCache → Option (ℕ × ArpCache) → Type 0
Selected i pa caches r =
    ((r ≡ none) × Absent pa caches)
    ⊎ ((j : ℕ) × (e : ArpCache) × (r ≡ some (i + j, e))
        × (get_elem? caches j ≡ some e)
        × (holds_pa pa e ≡ true)
        × (Distinct caches → Others pa caches j))

Absent-holds :
    (pa : ℕ) (x : ArpCache) (rest : List ArpCache)
    → holds_pa pa x ≡ true
    → (is_free x.state ≡ true) ⊎ Absent x.pa rest
    → Absent pa rest
Absent-holds pa x [] h d = tt
Absent-holds pa x (y ∷ rest) h (inl f) = ground arith
Absent-holds pa x (y ∷ rest) h (inr a) = (ground (arith, a.0), Absent-holds pa x rest h (inr a.1))

select_from-Selected :
    (i pa : ℕ) (caches : List ArpCache) → Selected i pa caches (select_from i pa caches)
unfolding select_from
select_from-Selected i pa [] = inl (refl, tt)
select_from-Selected i pa (x ∷ rest) = elim (Bool-cases (holds_pa pa x)) [
  | inl h ↦ inr (0, x, rw h (ground arith), refl, h, λ d. Absent-holds pa x rest h d.0)
  | inr n ↦ elim (select_from-Selected (suc i) pa rest) [
    | inl (e, a) ↦ inl (rw n e, (n, a))
    | inr (j, e, found, at, h, d) ↦
        inr (suc j, e, rw n (ground (arith, found)), at, h, λ all. (n, d all.1))
  ]
]

-- What a search of the whole table found.
abbrev pub Chosen : ℕ → List ArpCache → Option (ℕ × ArpCache) → Type 0
Chosen pa caches r =
    ((r ≡ none) × Absent pa caches)
    ⊎ ((j : ℕ) × (e : ArpCache) × (r ≡ some (j, e))
        × (get_elem? caches j ≡ some e)
        × (is_free e.state ≡ false)
        × (e.pa ≡ pa)
        × (Distinct caches → Others pa caches j))

-- `arp_cache_select` returns an entry of the table that is in use and holds the address, or there is
-- no such entry; in a table without duplicates it is the only one.
pub arp_cache_select_lem :
    (pa : ℕ) (caches : List ArpCache) → Chosen pa caches (arp_cache_select pa caches)
unfolding arp_cache_select
arp_cache_select_lem pa caches = elim (select_from-Selected 0 pa caches) [
  | inl h ↦ inl h
  | inr (j, e, found, at, h, d) ↦
      inr (j, e, ground (arith, found), at, ground (arith, h), ground (arith, h), d)
]
