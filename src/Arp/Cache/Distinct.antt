-- ===== src/Arp/Cache/Distinct.antt =====
-- The operations of the ARP cache keep at most one entry for an address.
use llnstack.Base.{
  ℕ, zero, suc, ◌≡◌, refl, ◌⊎◌, inl, inr, true, false, List, [], ◌∷◌, All, replicate, set, length,
  Bool-cases, Option-cases, arith,
}
use mathlib.Core.Path.{subst, sym, ap, ap₂}
use llnstack.Net.Timer.{Timeval, diff_sec_gt}
use llnstack.Arp.Cache.{
  ArpCache, resolved, is_free, is_static, holds_pa, blank, arp_cache_timeout, arp_cache_alloc,
  arp_cache_update, arp_cache_insert, arp_cache_delete, expire, arp_timer,
}
use llnstack.Arp.Cache.Select.{Absent, Others, Distinct, arp_cache_select_lem}

Absent-set :
    (pa : ℕ) (caches : List ArpCache) (i : ℕ) (e : ArpCache)
    → holds_pa pa e ≡ false
    → Absent pa caches
    → Absent pa (set caches i e)
Absent-set pa [] i e h a = tt
Absent-set pa (x ∷ rest) zero e h a = (h, a.1)
Absent-set pa (x ∷ rest) (suc i) e h a = (a.0, Absent-set pa rest i e h a.1)

pub Absent-Others :
    (pa : ℕ) (caches : List ArpCache) (i : ℕ) → Absent pa caches → Others pa caches i
Absent-Others pa [] i a = tt
Absent-Others pa (x ∷ rest) zero a = a.1
Absent-Others pa (x ∷ rest) (suc i) a = (a.0, Absent-Others pa rest i a.1)

-- An entry may be replaced by one whose address no other entry holds.
pub Distinct-set :
    (caches : List ArpCache) (i : ℕ) (e : ArpCache)
    → Others e.pa caches i
    → Distinct caches
    → Distinct (set caches i e)
Distinct-set [] i e o d = tt
Distinct-set (x ∷ rest) zero e o d = (inr o, d.1)
Distinct-set (x ∷ rest) (suc i) e o (inl f, d) = (inl f, Distinct-set rest i e o.1 d)
Distinct-set (x ∷ rest) (suc i) e o (inr a, d) = elim (Bool-cases (is_free x.state)) [
  | inl f ↦ (inl f, Distinct-set rest i e o.1 d)
  | inr u ↦ (inr (Absent-set x.pa rest i e (ground (arith, o.0, u)) a), Distinct-set rest i e o.1 d)
]

pub arp_cache_update-Distinct :
    (pa : ℕ) (ha : List ℕ) (now : Timeval) (caches : List ArpCache)
    → Distinct caches
    → Distinct (arp_cache_update pa ha now caches).1
unfolding arp_cache_update
arp_cache_update-Distinct pa ha now caches d = elim (arp_cache_select_lem pa caches) [
  | inl (e, a) ↦ rw (e, arp_cache_update) d
  | inr (j, e, found, at, u, p, others) ↦
      rw (found, arp_cache_update)
        (Distinct-set caches j (record e { state = resolved; ha = ha; timestamp = now })
          (subst (λ a. Others a caches j) (sym p) (others d)) d)
]

-- Inserting an address that the table does not hold.
pub arp_cache_insert-Distinct :
    (pa : ℕ) (ha : List ℕ) (now : Timeval) (caches : List ArpCache)
    → Absent pa caches
    → Distinct caches
    → Distinct (arp_cache_insert pa ha now caches).1
unfolding arp_cache_insert
arp_cache_insert-Distinct pa ha now caches a d = elim (Option-cases (arp_cache_alloc caches)) [
  | inl e ↦ rw (e, arp_cache_insert) d
  | inr ((i, x), e) ↦
      rw (e, arp_cache_insert) (Distinct-set caches i _ (Absent-Others pa caches i a) d)
]

pub expire-holds :
    (now : Timeval) (pa : ℕ) (x : ArpCache)
    → holds_pa pa x ≡ false
    → holds_pa pa (expire now x) ≡ false
unfolding expire arp_cache_delete
expire-holds now pa x h = ground arith

Absent-timer :
    (now : Timeval) (pa : ℕ) (caches : List ArpCache)
    → Absent pa caches
    → Absent pa (arp_timer now caches)
unfolding arp_timer
Absent-timer now pa [] a = tt
Absent-timer now pa (x ∷ rest) a = (expire-holds now pa x a.0, Absent-timer now pa rest a.1)

expire-free :
    (now : Timeval) (x : ArpCache) → (is_free (expire now x).state ≡ true) ⊎ ((expire now x) ≡ x)
unfolding expire arp_cache_delete
expire-free now x = ground arith

pub arp_timer-Distinct :
    (now : Timeval) (caches : List ArpCache) → Distinct caches → Distinct (arp_timer now caches)
unfolding arp_timer
arp_timer-Distinct now [] d = tt
arp_timer-Distinct now (x ∷ rest) d =
    (first (expire-free now x) d.0, arp_timer-Distinct now rest d.1)
  where
    first :
        (is_free (expire now x).state ≡ true) ⊎ (expire now x ≡ x)
        → (is_free x.state ≡ true) ⊎ Absent x.pa rest
        → (is_free (expire now x).state ≡ true) ⊎ Absent (expire now x).pa (arp_timer now rest)
    first (inl f) h = inl f
    first (inr e) (inl f) = inl (rw e f)
    first (inr e) (inr a) = inr (rw e (Absent-timer now x.pa rest a))

-- The empty table has no duplicates.
pub replicate-Distinct : (n : ℕ) → Distinct (replicate n blank)
replicate-Distinct zero = tt
replicate-Distinct (suc n) = (inl refl, replicate-Distinct n)

-- No entry in use but a static one is older than ARP_CACHE_TIMEOUT (whole) seconds.
abbrev pub Fresh : Timeval → List ArpCache → Type 0
Fresh now = All λ e.
    (is_free e.state ≡ true)
    ⊎ ((is_static e.state ≡ true) ⊎ (diff_sec_gt now e.timestamp arp_cache_timeout ≡ false))

expire-Fresh : (now : Timeval) (x : ArpCache) → Fresh now (expire now x ∷ [])
unfolding expire arp_cache_delete
expire-Fresh now x = (ground arith, tt)

expire_kept :
    (now : Timeval) (x : ArpCache)
    → (is_free x.state ≡ true)
      ⊎ ((is_static x.state ≡ true) ⊎ (diff_sec_gt now x.timestamp arp_cache_timeout ≡ false))
    → expire now x ≡ x
unfolding expire
expire_kept now x h = ground arith

-- After `arp_timer` no entry in use is past its time, and the table keeps its size; a table with
-- nothing past its time is left as it is.
pub arp_timer_lem :
    (now : Timeval) (caches : List ArpCache)
    → Fresh now (arp_timer now caches)
      × (length (arp_timer now caches) ≡ length caches)
      × (Fresh now caches → arp_timer now caches ≡ caches)
unfolding arp_timer
arp_timer_lem now [] = (tt, refl, λ f. refl)
arp_timer_lem now (x ∷ rest) =
    let (f, n, k) = arp_timer_lem now rest in
    (((expire-Fresh now x).0, f), ap suc n, λ h. ap₂ ◌∷◌ (expire_kept now x h.0) (k h.1))
