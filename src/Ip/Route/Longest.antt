-- ===== src/Ip/Route/Longest.antt =====
-- The route lookup is a longest prefix match.
use llnstack.Base.{
  ℕ, ◌≤◌, ◌<◌, ◌≡◌, refl, ap, ◌∙◌, ◌⊎◌, inl, inr, Bool, true, false, Option, none, some, List, [],
  ◌∷◌, ◌++◌, All, Bool-cases, if◌then◌else◌, arith,
}
use llnstack.Util.Endian.{Host, ntoh32}
use llnstack.Ip.Route.{Route, route_matches, is_better, lookup_from, ip_route_lookup}

module _ (h : Host) (dst : ℕ) where
  abbrev pub mask_of : Route → ℕ
  mask_of r = ntoh32 h r.netmask

  abbrev pub NoMatch : Route → Type 0
  NoMatch x = route_matches dst x ≡ false

  -- Where the route matches, its mask is at most (below) the bound.
  abbrev pub AtMost : ℕ → Route → Type 0
  AtMost m x = (route_matches dst x ≡ false) ⊎ (mask_of x ≤ m)

  abbrev pub Under : ℕ → Route → Type 0
  Under m x = (route_matches dst x ≡ false) ⊎ (mask_of x < m)

  -- `r` is a matching route of the table with the greatest mask, the first of those.
  abbrev pub Best : List Route → Route → Type 0
  Best routes r =
      (before : List Route) × (after : List Route) × (routes ≡ before ++ r ∷ after)
      × (route_matches dst r ≡ true)
      × All (Under (mask_of r)) before
      × All (AtMost (mask_of r)) after

  -- What the loop returns with the candidate `c`.
  Better : Route → List Route → Option Route → Type 0
  Better c routes res =
      ((res ≡ some c) × All (AtMost (mask_of c)) routes)
      ⊎ ((r : Route) × (res ≡ some r) × (mask_of c < mask_of r) × Best routes r)

  Best-cons :
      (x r : Route) (rest : List Route) → Under (mask_of r) x → Best rest r → Best (x ∷ rest) r
  Best-cons x r rest u (before, after, e, m, b, a) = (x ∷ before, after, ap (◌∷◌ x) e, m, (u, b), a)

  lookup_nil : (c : Option Route) → lookup_from h dst c [] ≡ c
  unfolding lookup_from
  lookup_nil c = refl

  step_no :
      (c : Option Route) (x : Route) (rest : List Route)
      → route_matches dst x ≡ false
      → lookup_from h dst c (x ∷ rest) ≡ lookup_from h dst c rest
  unfolding lookup_from
  step_no c x rest n =
      ap (λ b. lookup_from h dst (if b then (if is_better h c x then some x else c) else c) rest) n

  step_match :
      (c : Option Route) (x : Route) (rest : List Route) (b : Bool)
      → route_matches dst x ≡ true
      → is_better h c x ≡ b
      → lookup_from h dst c (x ∷ rest) ≡ lookup_from h dst (if b then some x else c) rest
  unfolding lookup_from
  step_match c x rest b m e =
      ap (λ t. lookup_from h dst (if t then (if is_better h c x then some x else c) else c) rest) m
      ∙ ap (λ t. lookup_from h dst (if t then some x else c) rest) e

  lookup_from-Better :
      (c : Route) (routes : List Route) → Better c routes (lookup_from h dst (some c) routes)
  unfolding Better
  lookup_from-Better c [] = inl (lookup_nil (some c), tt)
  lookup_from-Better c (x ∷ rest) = elim (Bool-cases (route_matches dst x)) [
    | inr n ↦ elim (lookup_from-Better c rest) [
      | inl (e, a) ↦ inl (step_no (some c) x rest n ∙ e, (inl n, a))
      | inr (r, e, lt, b) ↦ inr (r, step_no (some c) x rest n ∙ e, lt, Best-cons x r rest (inl n) b)
    ]
    | inl m ↦ elim (Bool-cases (is_better h (some c) x)) [
      | inr le ↦ elim (lookup_from-Better c rest) [
        | inl (e, a) ↦
            inl (step_match (some c) x rest false m le ∙ e, (inr (ground (arith, le)), a))
        | inr (r, e, lt, b) ↦ inr (
          r,
          step_match (some c) x rest false m le ∙ e,
          lt,
          Best-cons x r rest (inr (ground (arith, le, lt))) b,
        )
      ]
      | inl gt ↦ elim (lookup_from-Better x rest) [
        | inl (e, a) ↦ inr (
          x,
          step_match (some c) x rest true m gt ∙ e,
          ground (arith, gt),
          ([], rest, refl, m, tt, a),
        )
        | inr (r, e, lt, b) ↦ inr (
          r,
          step_match (some c) x rest true m gt ∙ e,
          ground (arith, gt, lt),
          Best-cons x r rest (inr lt) b,
        )
      ]
    ]
  ]

  -- `ip_route_lookup` returns a matching route with the greatest mask (compared in host byte order),
  -- the first of those in the table, and NULL exactly when no route matches.
  pub ip_route_lookup_lem :
      (routes : List Route)
      → ((ip_route_lookup h dst routes ≡ none) × All NoMatch routes)
        ⊎ ((r : Route) × (ip_route_lookup h dst routes ≡ some r) × Best routes r)
  unfolding ip_route_lookup Better
  ip_route_lookup_lem [] = inl (lookup_nil none, tt)
  ip_route_lookup_lem (x ∷ rest) = elim (Bool-cases (route_matches dst x)) [
    | inr n ↦ elim (ip_route_lookup_lem rest) [
      | inl (e, a) ↦ inl (step_no none x rest n ∙ e, (n, a))
      | inr (r, e, b) ↦ inr (r, step_no none x rest n ∙ e, Best-cons x r rest (inl n) b)
    ]
    | inl m ↦ elim (lookup_from-Better x rest) [
      | inl (e, a) ↦ inr (x, step_match none x rest true m refl ∙ e, ([], rest, refl, m, tt, a))
      | inr (r, e, lt, b) ↦
          inr (r, step_match none x rest true m refl ∙ e, Best-cons x r rest (inr lt) b)
    ]
  ]
