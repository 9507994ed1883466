-- ===== src/Intr/Table.antt =====
-- The table of handler/interrupt.c: which entries may stand together, and which of them a signal calls.
use llnstack.Base.{
  ℕ, ◌≡◌, refl, ◌⊎◌, inl, inr, Bool, true, false, ◌||◌, List, [], ◌∷◌, All, Bool-cases, ◌==◌, arith,
}
use llnstack.Net.{ok, fail}
use llnstack.Intr.{
  network_irq_shared, IrqEntry, Irqs, conflicts, intr_request_irq, sigusr1, sigusr2, sigalrm,
}

abbrev pub listed : ℕ → List ℕ → Bool
listed irq [] = false
listed irq (x ∷ rest) = (x == irq) || listed irq rest

module _ {H : Type 0} where
  -- Two entries of one signal are both shared, with no other flag.
  abbrev pub Agree : IrqEntry H → IrqEntry H → Type 0
  Agree x y = (x.irq ≡ y.irq) → (x.flags ≡ network_irq_shared) × (y.flags ≡ network_irq_shared)

  abbrev pub Compatible : List (IrqEntry H) → Type 0
  Compatible [] = Unit {0}
  Compatible (x ∷ rest) = All (Agree x) rest × Compatible rest

  conflicts-Agree :
      (x : IrqEntry H) (rest : List (IrqEntry H))
      → conflicts x.irq x.flags rest ≡ false
      → All (Agree x) rest
  unfolding conflicts
  conflicts-Agree x [] e = tt
  conflicts-Agree x (y ∷ rest) e = (λ same. ground arith, conflicts-Agree x rest (ground arith))

  conflicts-clash :
      (x : IrqEntry H) (rest : List (IrqEntry H))
      → conflicts x.irq x.flags rest ≡ true
      → ¬ All (Agree x) rest
  unfolding conflicts
  conflicts-clash x [] e a = absurd (cc)
  conflicts-clash x (y ∷ rest) e a = elim (Bool-cases (conflicts x.irq x.flags rest)) [
    | inl later ↦ conflicts-clash x rest later a.1
    | inr n ↦ ground (arith, a.0)
  ]

  -- Every handler's signal is in the mask that the thread waits with, and so are the three of its own.
  pub record IsSound (t : Irqs H) : Type 0 where
    pub compatible : Compatible t.irq_vec
    pub masked : All (λ e. listed e.irq t.sigmask ≡ true) t.irq_vec
    pub usr1 : listed sigusr1 t.sigmask ≡ true
    pub usr2 : listed sigusr2 t.sigmask ≡ true
    pub alrm : listed sigalrm t.sigmask ≡ true

  listed-cons :
      (irq : ℕ) (mask : List ℕ) (entries : List (IrqEntry H))
      → All (λ e. listed e.irq mask ≡ true) entries
      → All (λ e. listed e.irq (irq ∷ mask) ≡ true) entries
  listed-cons irq mask [] a = tt
  listed-cons irq mask (e ∷ rest) a = (ground (arith, a.0), listed-cons irq mask rest a.1)

  -- On a table in which entries of one signal have the shared flag alone, and every entry's signal, like the
  -- three of the thread itself, is in the mask: `intr_request_irq` succeeds exactly when memory is at hand and
  -- either no entry is of the same signal, whatever the flags, or all of these and the new one have the shared
  -- flag alone; the new entry is then the first. Otherwise nothing changes. Either way the table stays as
  -- described.
  pub intr_request_irq_lem :
      (alloc : Bool) (irq : ℕ) (handler : H) (flags dev : ℕ) (t : Irqs H)
      → IsSound t
      → let (status, t') = intr_request_irq alloc irq handler flags dev t in
        let x : IrqEntry H = record { irq = irq; handler = handler; flags = flags; dev = dev } in
        IsSound t'
        × (((status ≡ ok) × (alloc ≡ true) × All (Agree x) t.irq_vec × (t'.irq_vec ≡ x ∷ t.irq_vec))
            ⊎ ((status ≡ fail) × (t' ≡ t) × ((¬ All (Agree x) t.irq_vec) ⊎ (alloc ≡ false))))
  unfolding intr_request_irq
  intr_request_irq_lem false irq handler flags dev t v =
      elim (Bool-cases (conflicts irq flags t.irq_vec)) [
        | inl c ↦
            rw (c, intr_request_irq)
              (
                v,
                inr (
                  refl,
                  refl,
                  inl (
                      conflicts-clash
                        (record { irq = irq; handler = handler; flags = flags; dev = dev })
                        t.irq_vec c),
                ),
              )
        | inr n ↦ rw (n, intr_request_irq) (v, inr (refl, refl, inr refl))
      ]
  intr_request_irq_lem true irq handler flags dev t v =
      elim (Bool-cases (conflicts irq flags t.irq_vec)) [
        | inl c ↦
            rw (c, intr_request_irq)
              (
                v,
                inr (
                  refl,
                  refl,
                  inl (
                      conflicts-clash
                        (record { irq = irq; handler = handler; flags = flags; dev = dev })
                        t.irq_vec c),
                ),
              )
        | inr n ↦
            let x : IrqEntry H = record {
              irq = irq;
              handler = handler;
              flags = flags;
              dev = dev;
            } in
            let agree : All (Agree x) t.irq_vec = conflicts-Agree x t.irq_vec n in
            rw (n, intr_request_irq)
              (
                record {
                  compatible = (agree, v.compatible);
                  masked = (ground arith, listed-cons irq t.sigmask t.irq_vec v.masked);
                  usr1 = ground (arith, v.usr1);
                  usr2 = ground (arith, v.usr2);
                  alrm = ground (arith, v.alrm);
                },
                inl (refl, refl, agree, refl),
              )
      ]
