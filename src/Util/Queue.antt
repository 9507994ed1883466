-- ===== src/Util/Queue.antt =====
-- The linked queue of src/lib/util.c on an explicit heap. A pointer is an address or NULL (`none`).
pub mod Links
pub mod Refine
use llnstack.Base.{ℕ, zero, suc, ◌+◌, ◌-◌, ◌%◌, ◌^◌, Option, none, some, ◌==◌, if◌then◌else◌}

-- `struct queue_entry`
pub record Entry (A : Type 0) : Type 0 where
  pub next : Option ℕ
  pub item : A

-- `struct queue_head`; `num` is an `unsigned int`.
pub record QueueHead : Type 0 where
  pub head : Option ℕ
  pub tail : Option ℕ
  pub num : ℕ

-- The queue with the heap that its entries lie in.
pub record Memory (A : Type 0) : Type 0 where
  pub queue : QueueHead
  pub cell : ℕ → Option (Entry A)

abbrev pub update : {A : Type 0} → (ℕ → Option A) → ℕ → Option A → ℕ → Option A
update cell p v q = if p == q then v else cell q

abbrev pub uint_mod : ℕ
uint_mod = 2 ^ 32

-- `if (!queue->head) queue->head = entry;`
pub set_head : Option ℕ → ℕ → Option ℕ
set_head none entry = some entry
set_head (some p) entry = some p

-- `if (!queue->head) queue->tail = NULL;`
pub clear_tail : Option ℕ → Option ℕ → Option ℕ
clear_tail none tail = none
clear_tail (some p) tail = tail

module _ {A : Type 0} where
  -- `*p`; `none` is a fault.
  abbrev pub load : (ℕ → Option (Entry A)) → ℕ → Option (Entry A)
  load cell p = cell p

  unfoldable pub queue_init : Memory A → Memory A
  queue_init m = record m { queue = record { head = none; tail = none; num = 0 } }

  -- `if (queue->tail) queue->tail->next = entry;`
  pub link_tail : Option ℕ → ℕ → (ℕ → Option (Entry A)) → Option (ℕ → Option (Entry A))
  link_tail none entry cell = some cell
  link_tail (some t) entry cell = elim (load cell t) [
    | none ↦ none
    | some e ↦ some (update cell t (some (record e { next = some entry })))
  ]

  pub push_entry : Memory A → ℕ → A → Option (Memory A)
  unfolding link_tail set_head
  push_entry m entry x =
      elim (link_tail m.queue.tail entry
        (update m.cell entry (some (record { next = none; item = x })))) [
          | none ↦ none
          | some cell ↦ some (record {
            queue = record {
              head = set_head m.queue.head entry;
              tail = some entry;
              num = (m.queue.num + 1) % uint_mod;
            };
            cell = cell;
          })
        ]

  -- The first argument is what `memory_alloc` returns, the second is NULL or the queue. The outer
  -- `none` is a fault; the results are the new memory and the returned pointer.
  unfoldable pub queue_push :
      Option ℕ → Option (Memory A) → A → Option (Option (Memory A) × Option A)
  unfolding push_entry
  queue_push alloc none x = some (none, none)
  queue_push none (some m) x = some (some m, none)
  queue_push (some entry) (some m) x = elim (push_entry m entry x) [
    | none ↦ none
    | some m' ↦ some (some m', some x)
  ]

  pub pop_entry : Memory A → ℕ → Option (Memory A × Option A)
  unfolding clear_tail
  pop_entry m p = elim (load m.cell p) [
    | none ↦ none
    | some e ↦ some (
      record {
        queue = record {
          head = e.next;
          tail = clear_tail e.next m.queue.tail;
          num = (m.queue.num + uint_mod - 1) % uint_mod;
        };
        cell = update m.cell p none;
      },
      some e.item,
    )
  ]

  pub pop_head : Memory A → Option ℕ → Option (Memory A × Option A)
  unfolding pop_entry
  pop_head m none = some (m, none)
  pop_head m (some p) = pop_entry m p

  unfoldable pub queue_pop : Memory A → Option (Memory A × Option A)
  unfolding pop_head
  queue_pop m = pop_head m m.queue.head

  pub peek_head : (ℕ → Option (Entry A)) → Option ℕ → Option (Option A)
  peek_head cell none = some none
  peek_head cell (some p) = elim (load cell p) [ none ↦ none | some e ↦ some (some e.item) ]

  unfoldable pub queue_peek : Memory A → Option (Option A)
  unfolding peek_head
  queue_peek m = peek_head m.cell m.queue.head

  -- The loop of `queue_foreach` on fuel, `func` as a change of the state behind `arg`.
  module _ {S : Type 0} (func : S → A → S) where
    pub foreach_from : ℕ → (ℕ → Option (Entry A)) → Option ℕ → S → Option S
    foreach_from fuel cell none s = some s
    foreach_from zero cell (some p) s = none
    foreach_from (suc fuel) cell (some p) s = elim (load cell p) [
      | none ↦ none
      | some e ↦ foreach_from fuel cell e.next (func s e.item)
    ]

    unfoldable pub queue_foreach : ℕ → Memory A → S → Option S
    unfolding foreach_from
    queue_foreach fuel m s = foreach_from fuel m.cell m.queue.head s
