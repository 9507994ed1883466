-- ===== src/Intr.antt =====
-- handler/interrupt.c: the table of interrupt handlers, and what the interrupt thread does on a signal.
-- The signals are Linux's; the calls that block, create and wait for them are the system's.
pub mod Table
use llnstack.Base.{ℕ, Bool, true, false, ◌||◌, List, [], ◌∷◌, ◌==◌, ◌!=◌, if◌then◌else◌}
use llnstack.Net.{Status, ok, fail}

abbrev pub sigusr1 : ℕ
sigusr1 = 10

abbrev pub sigusr2 : ℕ
sigusr2 = 12

abbrev pub sigalrm : ℕ
sigalrm = 14

-- NETWORK_IRQ_SHARED
abbrev pub network_irq_shared : ℕ
network_irq_shared = 1

-- `struct irq_entry` without the name. `H` is the type of the handler's address, and the device is
-- known by its index.
pub record IrqEntry (H : Type 0) : Type 0 where
  pub irq : ℕ
  pub handler : H
  pub flags : ℕ
  pub dev : ℕ

-- The static variables `irq_vec` and `sigmask`, the latter as the signals added to it.
pub record Irqs (H : Type 0) : Type 0 where
  pub irq_vec : List (IrqEntry H)
  pub sigmask : List ℕ

module _ {H : Type 0} where
  -- What `intr_init` leaves; the table is empty until then.
  unfoldable pub intr_init : Irqs H → Status × Irqs H
  intr_init t = (ok, record t { sigmask = sigusr1 ∷ sigusr2 ∷ sigalrm ∷ [] })

  -- The loop of `intr_request_irq`; `x ^ NETWORK_IRQ_SHARED` is 0 exactly when `x` is that flag alone.
  unfoldable pub conflicts : ℕ → ℕ → List (IrqEntry H) → Bool
  conflicts irq flags [] = false
  conflicts irq flags (entry ∷ rest) =
      let later = conflicts irq flags rest in
      if entry.irq == irq
      then (if (entry.flags != network_irq_shared) || (flags != network_irq_shared)
          then true
          else later)
      else later

  -- The Boolean tells whether `memory_alloc` succeeds.
  unfoldable pub intr_request_irq : Bool → ℕ → H → ℕ → ℕ → Irqs H → Status × Irqs H
  intr_request_irq alloc irq handler flags dev t =
      if conflicts irq flags t.irq_vec
      then (fail, t)
      else (if alloc
          then (
            ok,
            record {
              irq_vec =
                  record { irq = irq; handler = handler; flags = flags; dev = dev } ∷ t.irq_vec;
              sigmask = irq ∷ t.sigmask;
            },
          )
          else (fail, t))

  module _ {S : Type 0} (call : H → ℕ → ℕ → S → S) where
    -- The loop of the default case of `intr_thread`.
    unfoldable pub call_irq : ℕ → List (IrqEntry H) → S → S
    call_irq sig [] s = s
    call_irq sig (entry ∷ rest) s =
        call_irq sig rest (if entry.irq == sig then call entry.handler entry.irq entry.dev s else s)

    -- The switch of `intr_thread`; the first three functions are `network_protocol_handler`,
    -- `network_event_handler` and `network_timer_handler`.
    unfoldable pub intr_dispatch : (S → S) → (S → S) → (S → S) → ℕ → Irqs H → S → S
    intr_dispatch on_protocol on_event on_timer sig t s =
        if sig == sigusr1
        then on_protocol s
        else (if sig == sigusr2
            then on_event s
            else (if sig == sigalrm then on_timer s else call_irq sig t.irq_vec s))

-- `intr_run`: the two calls of the threads library, which return 0 or an error number.
unfoldable pub intr_run : ℕ → ℕ → Status
intr_run masked created = if masked != 0 then fail else (if created != 0 then fail else ok)
