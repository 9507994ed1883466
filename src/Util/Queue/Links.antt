-- ===== src/Util/Queue/Links.antt =====
-- The entries of a linked queue on the heap, as a list of addresses with their items.
use llnstack.Base.{
  ℕ, ◌≡◌, ◌≢◌, refl, sym, ◌∙◌, List, [], ◌∷◌, ◌++◌, Option, none, some, All, map, arith,
}
use llnstack.Util.Queue.{Entry, update, link_tail, set_head}

-- The address and the item of each entry, from the head on.
abbrev pub Chain : Type 0 → Type 0
Chain A = List (ℕ × A)

module _ {A : Type 0} where
  abbrev pub items : Chain A → List A
  items = map (λ e. e.1)

  abbrev pub head_of : Chain A → Option ℕ
  head_of [] = none
  head_of (e ∷ r) = some e.0

  abbrev pub last_of : Chain A → Option ℕ
  last_of [] = none
  last_of (e ∷ []) = some e.0
  last_of (e ∷ f ∷ r) = last_of (f ∷ r)

  -- No entry of the chain lies at `p`.
  abbrev pub Avoids : ℕ → Chain A → Type 0
  Avoids p = All (λ e. e.0 ≢ p)

  -- Each entry is on the heap, points to the one after it, and lies apart from those.
  abbrev pub Linked : (ℕ → Option (Entry A)) → Chain A → Type 0
  Linked cell [] = Unit {0}
  Linked cell (e ∷ r) =
      (cell e.0 ≡ some (record { next = head_of r; item = e.1 })) × Avoids e.0 r × Linked cell r

  -- A cell that is not in use lies apart from the chain.
  pub Linked-Avoids :
      (cell : ℕ → Option (Entry A)) (es : Chain A) (p : ℕ)
      → cell p ≡ none
      → Linked cell es
      → Avoids p es
  Linked-Avoids cell [] p free l = tt
  Linked-Avoids cell (e ∷ r) p free l =
      ((λ q. ground (arith, l.0, free, q)), Linked-Avoids cell r p free l.2)

  -- A write beside the chain leaves it.
  pub Linked-update :
      (cell : ℕ → Option (Entry A)) (es : Chain A) (p : ℕ) (v : Option (Entry A))
      → Avoids p es
      → Linked cell es
      → Linked (update cell p v) es
  Linked-update cell [] p v a l = tt
  Linked-update cell (e ∷ r) p v a l =
      (ground (arith, l.0, a.0), l.1, Linked-update cell r p v a.1 l.2)

  Avoids-append :
      (p : ℕ) (es : Chain A) (e : ℕ × A) → Avoids p es → e.0 ≢ p → Avoids p (es ++ e ∷ [])
  Avoids-append p [] e a n = (n, tt)
  Avoids-append p (f ∷ es) e a n = (a.0, Avoids-append p es e a.1 n)

  pub head_of-append :
      (es : Chain A) (e : ℕ × A) → head_of (es ++ e ∷ []) ≡ set_head (head_of es) e.0
  unfolding set_head
  head_of-append [] e = refl
  head_of-append (f ∷ es) e = refl

  pub last_of-append : (es : Chain A) (e : ℕ × A) → last_of (es ++ e ∷ []) ≡ some e.0
  last_of-append [] e = refl
  last_of-append (f ∷ []) e = refl
  last_of-append (f ∷ g ∷ es) e = last_of-append (g ∷ es) e

  -- Linking an entry behind the last one of a chain makes the longer chain, and writes to no
  -- other cell.
  pub link_tail-Linked :
      (cell : ℕ → Option (Entry A)) (es : Chain A) (a : ℕ) (x : A)
      → Linked cell es
      → cell a ≡ some (record { next = none; item = x })
      → Avoids a es
      → (cell' : ℕ → Option (Entry A)) × (link_tail (last_of es) a cell ≡ some cell')
        × Linked cell' (es ++ (a, x) ∷ [])
        × ((p : ℕ) → Avoids p es → cell' p ≡ cell p)
  unfolding link_tail
  link_tail-Linked cell [] a x l c v = (cell, refl, (c, tt, tt), λ p h. refl)
  link_tail-Linked cell (e ∷ []) a x l c v = (
    update cell e.0 (some (record { next = some a; item = e.1 })),
    rw (l.0, link_tail),
    (ground arith, ((λ q. v.0 (sym q)), tt), (ground (arith, c, v.0), tt, tt)),
    λ p h. ground (arith, h.0),
  )
  link_tail-Linked cell (e ∷ f ∷ r) a x l c v =
      let (cell', done, linked, same) = link_tail-Linked cell (f ∷ r) a x l.2 c v.1 in
      (
        cell',
        done,
        (same e.0 l.1 ∙ l.0, Avoids-append e.0 (f ∷ r) (a, x) l.1 (λ q. v.0 (sym q)), linked),
        λ p h. same p h.1,
      )
