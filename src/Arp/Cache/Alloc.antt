-- ===== src/Arp/Cache/Alloc.antt =====
-- `arp_cache_alloc` always finds an entry: a free one if there is one, else the oldest.
use llnstack.Base.{
  ℕ, suc, ◌+◌, ◌≡◌, refl, ◌⊎◌, inl, inr, true, false, Option, none, some, List, [], ◌∷◌, All,
  get_elem?, Bool-cases, arith,
}
use llnstack.Net.Timer.{Timeval, time_gt}
use llnstack.Arp.Cache.{ArpCache, is_free, alloc_from, arp_cache_alloc}

-- Every entry is in use, and none was stamped before `e`.
abbrev pub Oldest : ArpCache → List ArpCache → Type 0
Oldest e = All (λ x. (is_free x.state ≡ false) × (time_gt e.timestamp x.timestamp ≡ false))

abbrev pub At : ℕ → List ArpCache → ℕ → ArpCache → Type 0
At i caches k e = (m : ℕ) × (k ≡ i + m) × (get_elem? caches m ≡ some e)

time_gt_trans : (a b c : Timeval) → time_gt a b ≡ false → time_gt b c ≡ false → time_gt a c ≡ false
time_gt_trans a b c p q = ground arith

time_gt_swap : (a b : Timeval) → time_gt a b ≡ true → time_gt b a ≡ false
time_gt_swap a b p = ground arith

time_gt_refl : (a : Timeval) → time_gt a a ≡ false
time_gt_refl a = ground arith

-- What the loop returns with the candidate `old` from the place `j`.
abbrev pub Allocated : ℕ → ℕ → ArpCache → List ArpCache → Option (ℕ × ArpCache) → Type 0
Allocated i j old caches r =
    (k : ℕ) × (e : ArpCache) × (r ≡ some (k, e))
    × (((is_free e.state ≡ true) × At i caches k e)
        ⊎ ((((k ≡ j) × (e ≡ old)) ⊎ At i caches k e)
            × (time_gt e.timestamp old.timestamp ≡ false)
            × Oldest e caches))

At-suc :
    (i : ℕ) (x : ArpCache) (rest : List ArpCache) (k : ℕ) (e : ArpCache)
    → At (suc i) rest k e
    → At i (x ∷ rest) k e
At-suc i x rest k e (m, p, q) = (suc m, omega (arith, p), q)

alloc_from-Allocated :
    (i j : ℕ) (old : ArpCache) (caches : List ArpCache)
    → Allocated i j old caches (alloc_from i (some (j, old)) caches)
unfolding alloc_from
alloc_from-Allocated i j old [] =
    (j, old, refl, inr (inl (refl, refl), time_gt_refl old.timestamp, tt))
alloc_from-Allocated i j old (x ∷ rest) = elim (Bool-cases (is_free x.state)) [
  | inl f ↦ (i, x, rw f refl, inl (f, (0, omega arith, refl)))
  | inr u ↦ elim (Bool-cases (time_gt old.timestamp x.timestamp)) [
    | inl g ↦ newer u g (alloc_from-Allocated (suc i) i x rest)
    | inr n ↦ same u n (alloc_from-Allocated (suc i) j old rest)
  ]
]
  where
    newer :
        is_free x.state ≡ false
        → time_gt old.timestamp x.timestamp ≡ true
        → Allocated (suc i) i x rest (alloc_from (suc i) (some (i, x)) rest)
        → Allocated i j old (x ∷ rest) (alloc_from i (some (j, old)) (x ∷ rest))
    newer u g (k, e, r, inl (f, at)) = (k, e, rw (u, g) r, inl (f, At-suc i x rest k e at))
    newer u g (k, e, r, inr (inl (p, q), t, o)) = (
      k,
      e,
      rw (u, g) r,
      inr (
        inr (0, omega (arith, p), ground (arith, q)),
        time_gt_trans e.timestamp x.timestamp old.timestamp t
            (time_gt_swap old.timestamp x.timestamp g),
        ((u, t), o),
      ),
    )
    newer u g (k, e, r, inr (inr at, t, o)) = (
      k,
      e,
      rw (u, g) r,
      inr (
        inr (At-suc i x rest k e at),
        time_gt_trans e.timestamp x.timestamp old.timestamp t
            (time_gt_swap old.timestamp x.timestamp g),
        ((u, t), o),
      ),
    )

    same :
        is_free x.state ≡ false
        → time_gt old.timestamp x.timestamp ≡ false
        → Allocated (suc i) j old rest (alloc_from (suc i) (some (j, old)) rest)
        → Allocated i j old (x ∷ rest) (alloc_from i (some (j, old)) (x ∷ rest))
    same u n (k, e, r, inl (f, at)) = (k, e, rw (u, n) r, inl (f, At-suc i x rest k e at))
    same u n (k, e, r, inr (inl p, t, o)) = (
      k,
      e,
      rw (u, n) r,
      inr (inl p, t, ((u, time_gt_trans e.timestamp old.timestamp x.timestamp t n), o)),
    )
    same u n (k, e, r, inr (inr at, t, o)) = (
      k,
      e,
      rw (u, n) r,
      inr (
        inr (At-suc i x rest k e at),
        t,
        ((u, time_gt_trans e.timestamp old.timestamp x.timestamp t n), o),
      ),
    )

-- On a table that is not empty `arp_cache_alloc` returns an entry of the table, which is free, or
-- which no other entry is older than while none is free.
pub arp_cache_alloc_lem :
    (x : ArpCache) (rest : List ArpCache)
    → (k : ℕ) × (e : ArpCache) × (arp_cache_alloc (x ∷ rest) ≡ some (k, e))
      × (get_elem? (x ∷ rest) k ≡ some e)
      × ((is_free e.state ≡ true) ⊎ Oldest e (x ∷ rest))
unfolding arp_cache_alloc alloc_from
arp_cache_alloc_lem x rest = elim (Bool-cases (is_free x.state)) [
  | inl f ↦ (0, x, rw f refl, refl, inl f)
  | inr u ↦ first u (alloc_from-Allocated 1 0 x rest)
]
  where
    first :
        is_free x.state ≡ false
        → Allocated 1 0 x rest (alloc_from 1 (some (0, x)) rest)
        → (k : ℕ) × (e : ArpCache) × (alloc_from 0 none (x ∷ rest) ≡ some (k, e))
          × (get_elem? (x ∷ rest) k ≡ some e)
          × ((is_free e.state ≡ true) ⊎ Oldest e (x ∷ rest))
    first u (k, e, r, inl (f, (m, p, q))) = (suc m, e, rw u (ground (arith, r, p)), q, inl f)
    first u (k, e, r, inr (inl (p, q), t, o)) =
        (0, e, rw u (ground (arith, r, p)), ground (arith, q), inr ((u, t), o))
    first u (k, e, r, inr (inr (m, p, q), t, o)) =
        (suc m, e, rw u (ground (arith, r, p)), q, inr ((u, t), o))
