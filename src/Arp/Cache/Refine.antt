-- ===== src/Arp/Cache/Refine.antt =====
-- The operations of the ARP cache refine those of a map from addresses to entries.
use mathlib.Core.Path.{subst}
use llnstack.Base.{
  ℕ, ◌≡◌, refl, sym, ap, ◌∙◌, ◌⊎◌, inl, inr, Bool, true, false, not, ◌&&◌, Option, none, some, List,
  [], ◌∷◌, get_elem?, set, Bool-cases, ◌==◌, if◌then◌else◌, arith,
}
use llnstack.Net.Timer.{Timeval, diff_sec_gt}
use llnstack.Arp.Cache.{
  ArpCache, resolved, is_free, is_static, holds_pa, blank, arp_cache_timeout, arp_cache_alloc,
  arp_cache_update, arp_cache_insert, arp_cache_delete, expire, arp_timer,
}
use llnstack.Arp.Cache.Select.{Absent, Others, Distinct, arp_cache_select_lem}
use llnstack.Arp.Cache.Distinct.{Absent-Others, expire-holds}
use llnstack.Arp.Cache.Alloc.{Oldest, arp_cache_alloc_lem}
use llnstack.Arp.Cache.Book.{
  Book, book, seen, entry_of, book-entry_of, Absent-none, put, alone, book-set,
}

-- `arp_cache_update` on the map.
abbrev pub update : ℕ → List ℕ → Timeval → Book → Book
update pa ha now b q =
    if pa == q
    then elim (b q) [
      | none ↦ none
      | some e ↦ some (record e { state = resolved; ha = ha; timestamp = now })
    ]
    else b q

-- `arp_cache_insert` on the map, where the entry `old` gives its place.
abbrev pub insert : ℕ → List ℕ → Timeval → ArpCache → Book → Book
insert pa ha now old b q =
    if pa == q
    then some (record { state = resolved; pa = pa; ha = ha; timestamp = now })
    else if holds_pa q old
    then none
    else b q

abbrev pub is_past : Timeval → ArpCache → Bool
is_past now e = not (is_static e.state) && diff_sec_gt now e.timestamp arp_cache_timeout

-- `arp_timer` on the map.
abbrev pub expired : Timeval → Book → Book
expired now b q = elim (b q) [ none ↦ none | some e ↦ if is_past now e then none else some e ]

abbrev pub is_in : {A : Type 0} → Option A → Bool
is_in none = false
is_in (some x) = true

same_address : (pa q : ℕ) → (pa == q) ≡ true → pa ≡ q
same_address pa q e = ground arith

in_use : (q pa : ℕ) (e : ArpCache) → is_free e.state ≡ false → e.pa ≡ pa → holds_pa q e ≡ (pa == q)
in_use q pa e u p = rw (u, p) refl

-- Where the table holds the address.
updated :
    (pa : ℕ) (e new : ArpCache) (b : Book) (q : ℕ)
    → holds_pa q e ≡ (pa == q)
    → holds_pa q new ≡ (pa == q)
    → b pa ≡ some e
    → new ≡ record e { state = resolved; ha = new.ha; timestamp = new.timestamp }
    → put new e b q ≡ update pa new.ha new.timestamp b q
updated pa e new b q old_holds holds found is = elim (Bool-cases (pa == q)) [
  | inl y ↦
      let here : b q ≡ some e = subst (λ p. b p ≡ some e) (same_address pa q y) found in
      rw (holds, y, here) (ap some is)
  | inr n ↦ rw (holds, old_holds, n) refl
]

untouched :
    (pa : ℕ) (ha : List ℕ) (now : Timeval) (b : Book) (q : ℕ)
    → b pa ≡ none
    → b q ≡ update pa ha now b q
untouched pa ha now b q z = elim (Bool-cases (pa == q)) [
  | inl y ↦
      let here : b q ≡ none = subst (λ p. b p ≡ none) (same_address pa q y) z in rw (y, here) refl
  | inr n ↦ rw n refl
]

update_lem :
    (pa : ℕ) (ha : List ℕ) (now : Timeval) (caches : List ArpCache) (q : ℕ)
    → Distinct caches
    → book (arp_cache_update pa ha now caches).1 q ≡ update pa ha now (book caches) q
unfolding arp_cache_update
update_lem pa ha now caches q d = elim (arp_cache_select_lem pa caches) [
  | inl (z, a) ↦ rw (z, arp_cache_update) (untouched pa ha now (book caches) q (seen pa caches z))
  | inr (j, e, found, at, u, p, others) ↦
      let new : ArpCache = record e { state = resolved; ha = ha; timestamp = now } in
      rw (found, arp_cache_update)
        (book-set q caches j e new d at (subst (λ a. Others a caches j) (sym p) (others d))
          ∙ updated pa e new (book caches) q (in_use q pa e u p) (in_use q pa new refl p)
              (seen pa caches found) refl)
]

insert_lem :
    (pa : ℕ) (ha : List ℕ) (now : Timeval) (caches : List ArpCache) (q i : ℕ) (old : ArpCache)
    → Distinct caches
    → Absent pa caches
    → arp_cache_alloc caches ≡ some (i, old)
    → get_elem? caches i ≡ some old
    → book (arp_cache_insert pa ha now caches).1 q ≡ insert pa ha now old (book caches) q
unfolding arp_cache_insert
insert_lem pa ha now caches q i old d a alloc at =
    let e : ArpCache = record { state = resolved; pa = pa; ha = ha; timestamp = now } in
    rw (alloc, arp_cache_insert) (book-set q caches i old e d at (Absent-Others pa caches i a))

-- What `arp_timer` leaves of an entry that is found.
abbrev keep : Timeval → Option ArpCache → Option ArpCache
keep now none = none
keep now (some e) = if is_past now e then none else some e

expire_lem :
    (now : Timeval) (q : ℕ) (x : ArpCache)
    → holds_pa q x ≡ true
    → expire now x ≡ (if is_past now x then blank else x)
unfolding expire arp_cache_delete
expire_lem now q x h = ground arith

entry_of-timer :
    (now : Timeval) (caches : List ArpCache) (q : ℕ)
    → Distinct caches
    → entry_of (arp_timer now caches) q ≡ keep now (entry_of caches q)
unfolding arp_timer
entry_of-timer now [] q d = refl
entry_of-timer now (x ∷ rest) q d = elim (Bool-cases (holds_pa q x)) [
  | inl h ↦ elim (Bool-cases (is_past now x)) [
    | inl y ↦
        let gone : expire now x ≡ blank = expire_lem now q x h ∙ rw y refl in
        rw (gone, h, y)
          (entry_of-timer now rest q d.1
            ∙ ap (keep now) (Absent-none q rest (alone q x rest d.0 h)))
    | inr n ↦ let kept : expire now x ≡ x = expire_lem now q x h ∙ rw n refl in rw (kept, h, n) refl
  ]
  | inr n ↦ rw (expire-holds now q x n, n) (entry_of-timer now rest q d.1)
]

timer_lem :
    (now : Timeval) (caches : List ArpCache) (q : ℕ)
    → Distinct caches
    → book (arp_timer now caches) q ≡ expired now (book caches) q
timer_lem now caches q d =
    book-entry_of (arp_timer now caches) q
    ∙ entry_of-timer now caches q d
    ∙ ap (keep now) (sym (book-entry_of caches q))

is_told :
    (pa : ℕ) (ha : List ℕ) (now : Timeval) (caches : List ArpCache)
    → (arp_cache_update pa ha now caches).0 ≡ is_in (book caches pa)
unfolding arp_cache_update
is_told pa ha now caches = elim (arp_cache_select_lem pa caches) [
  | inl (z, a) ↦ rw (z, arp_cache_update) (sym (ap is_in (seen pa caches z)))
  | inr (j, e, found, _, _, _, _) ↦
      rw (found, arp_cache_update) (sym (ap is_in (seen pa caches found)))
]

-- On a table in which no two entries in use hold the same address, seen as the map from addresses to the
-- entries that `arp_cache_select` finds: `arp_cache_update` tells whether the map has the address and makes
-- its entry resolved, with the new hardware address and time, and `arp_timer` takes out the entries that are
-- not static and past their time; neither changes the map at any other address.
pub book_changes :
    (caches : List ArpCache)
    → Distinct caches
    → ((pa : ℕ) (ha : List ℕ) (now : Timeval)
        → ((arp_cache_update pa ha now caches).0 ≡ is_in (book caches pa))
          × ((q : ℕ)
              → book (arp_cache_update pa ha now caches).1 q ≡ update pa ha now (book caches) q))
      × ((now : Timeval) (q : ℕ) → book (arp_timer now caches) q ≡ expired now (book caches) q)
book_changes caches d = (
  λ pa ha now. (is_told pa ha now caches, λ q. update_lem pa ha now caches q d),
  λ now q. timer_lem now caches q d,
)

none-Absent : (pa : ℕ) (caches : List ArpCache) → book caches pa ≡ none → Absent pa caches
none-Absent pa caches z = elim (arp_cache_select_lem pa caches) [
  | inl (e, a) ↦ a
  | inr (j, e, found, _, _, _, _) ↦ absurd (cc (z, seen pa caches found))
]

-- `arp_cache_insert` of an address that the map does not have, into a table that is not empty and in which no
-- two entries in use hold the same address: it succeeds, the map has the new entry there, and at any other
-- address it is as it was, but for the address of the one entry that gave its place, which was free, or which
-- no other entry was older than while none was free; that entry is of the table, and the new one stands in its
-- place.
pub arp_cache_insert-book :
    (pa : ℕ) (ha : List ℕ) (now : Timeval) (x : ArpCache) (rest : List ArpCache)
    → Distinct (x ∷ rest)
    → book (x ∷ rest) pa ≡ none
    → (i : ℕ) × (old : ArpCache) × (get_elem? (x ∷ rest) i ≡ some old)
      × ((is_free old.state ≡ true) ⊎ Oldest old (x ∷ rest))
      × (arp_cache_insert pa ha now (x ∷ rest) ≡ (
        true,
        set (x ∷ rest) i (record { state = resolved; pa = pa; ha = ha; timestamp = now }),
      ))
      × ((q : ℕ)
          → book (arp_cache_insert pa ha now (x ∷ rest)).1 q
            ≡ insert pa ha now old (book (x ∷ rest)) q)
unfolding arp_cache_insert
arp_cache_insert-book pa ha now x rest d z =
    let (i, old, alloc, at, why) = arp_cache_alloc_lem x rest in
    let a = none-Absent pa (x ∷ rest) z in
    (
      i,
      old,
      at,
      why,
      rw (alloc, arp_cache_insert) refl,
      λ q. insert_lem pa ha now (x ∷ rest) q i old d a alloc at,
    )
