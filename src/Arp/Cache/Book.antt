-- ===== src/Arp/Cache/Book.antt =====
-- The ARP cache as a map from addresses to entries, which forgets the places.
use mathlib.Core.Path.{subst}
use llnstack.Base.{
  ℕ, zero, suc, ◌≡◌, refl, sym, ap, ◌∙◌, ◌⊎◌, inl, inr, true, false, Option, none, some, List, [],
  ◌∷◌, set, get_elem?, Bool-cases, if◌then◌else◌, arith,
}
use llnstack.Arp.Cache.{ArpCache, is_free, holds_pa, select_from, arp_cache_select}
use llnstack.Arp.Cache.Select.{Absent, Others, Distinct}

abbrev pub Book : Type 0
Book = ℕ → Option ArpCache

-- What `arp_cache_select` finds.
abbrev pub book : List ArpCache → Book
book caches pa = elim (arp_cache_select pa caches) [ none ↦ none | some (i, e) ↦ some e ]

-- What the map says of a search whose result is known.
pub seen :
    (pa : ℕ) (caches : List ArpCache) {r : Option (ℕ × ArpCache)}
    → arp_cache_select pa caches ≡ r
    → book caches pa ≡ elim r [ none ↦ none | some (i, e) ↦ some e ]
seen pa caches e = ap (λ o. elim o [ none ↦ none | some (i, e) ↦ some e ]) e

-- The same by the entries alone.
abbrev pub entry_of : List ArpCache → Book
entry_of [] pa = none
entry_of (e ∷ rest) pa = if holds_pa pa e then some e else entry_of rest pa

select_from-entry_of :
    (i pa : ℕ) (caches : List ArpCache)
    → elim (select_from i pa caches) [ none ↦ none | some (j, e) ↦ some e ] ≡ entry_of caches pa
unfolding select_from
select_from-entry_of i pa [] = refl
select_from-entry_of i pa (e ∷ rest) = ground (arith, select_from-entry_of (suc i) pa rest)

pub book-entry_of : (caches : List ArpCache) (pa : ℕ) → book caches pa ≡ entry_of caches pa
unfolding arp_cache_select
book-entry_of caches pa = select_from-entry_of 0 pa caches

pub Absent-none : (pa : ℕ) (caches : List ArpCache) → Absent pa caches → entry_of caches pa ≡ none
Absent-none pa [] a = refl
Absent-none pa (e ∷ rest) a = rw a.0 (Absent-none pa rest a.1)

not_there :
    (pa : ℕ) (caches : List ArpCache) (j : ℕ) (x : ArpCache)
    → Absent pa caches
    → get_elem? caches j ≡ some x
    → holds_pa pa x ≡ false
not_there pa [] j x a e = absurd (cc)
not_there pa (y ∷ rest) zero x a e = ground (arith, a.0)
not_there pa (y ∷ rest) (suc j) x a e = not_there pa rest j x a.1 e

-- The address of an entry in use is the one it holds.
holds_only : (q : ℕ) (x : ArpCache) → holds_pa q x ≡ true → (is_free x.state ≡ false) × (x.pa ≡ q)
holds_only q x h = ground arith

-- An entry put in the place of another, where nobody else holds its address.
abbrev pub put : ArpCache → ArpCache → Book → Book
put e old b pa = if holds_pa pa e then some e else if holds_pa pa old then none else b pa

-- In a table without duplicates an entry that holds the address is alone with it.
pub alone :
    (q : ℕ) (x : ArpCache) (rest : List ArpCache)
    → (is_free x.state ≡ true) ⊎ Absent x.pa rest
    → holds_pa q x ≡ true
    → Absent q rest
alone q x rest (inl f) h = absurd (cc (f, (holds_only q x h).0))
alone q x rest (inr a) h = subst (λ p. Absent p rest) (holds_only q x h).1 a

entry_of-set :
    (q : ℕ) (caches : List ArpCache) (j : ℕ) (x e : ArpCache)
    → Distinct caches
    → get_elem? caches j ≡ some x
    → Others e.pa caches j
    → entry_of (set caches j e) q ≡ put e x (entry_of caches) q
entry_of-set q [] j x e d at o = absurd (cc)
entry_of-set q (y ∷ rest) zero x e d at o = elim (Bool-cases (holds_pa q y)) [
  | inl h ↦ ground (arith, at, h, Absent-none q rest (alone q y rest d.0 h))
  | inr n ↦ ground (arith, at, n)
]
entry_of-set q (y ∷ rest) (suc j) x e d at o = elim (Bool-cases (holds_pa q y)) [
  | inl h ↦
      let out = not_there q rest j x (alone q y rest d.0 h) at in
      let new : holds_pa q e ≡ false = ground (arith, o.0, h) in rw (h, new, out) refl
  | inr n ↦ rw n (entry_of-set q rest j x e d.1 at o.1)
]

pub book-set :
    (q : ℕ) (caches : List ArpCache) (j : ℕ) (x e : ArpCache)
    → Distinct caches
    → get_elem? caches j ≡ some x
    → Others e.pa caches j
    → book (set caches j e) q ≡ put e x (book caches) q
book-set q caches j x e d at o =
    book-entry_of (set caches j e) q
    ∙ entry_of-set q caches j x e d at o
    ∙ ap (λ r. if holds_pa q e then some e else if holds_pa q x then none else r)
        (sym (book-entry_of caches q))
