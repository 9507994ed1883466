-- ===== src/Util/Queue/Refine.antt =====
-- The linked queue refines a first-in first-out list.
use llnstack.Base.{
  ℕ, suc, ◌+◌, ◌-◌, ◌%◌, ◌≡◌, ◌≤◌, zero, refl, sym, ap, ◌∙◌, List, [], ◌∷◌, ◌++◌, Option, none,
  some, length, length-append, length-map, arith,
}
use mathlib.Core.Path.{subst}
use mathlib.Core.List.{foldl, map-append}
use llnstack.Util.Queue.{
  Entry, Memory, update, uint_mod, link_tail, push_entry, pop_entry, pop_head, set_head, clear_tail,
  queue_init, queue_push, queue_pop, queue_foreach, foreach_from,
}
use llnstack.Util.Queue.Links.{
  Chain, items, head_of, last_of, Linked, Linked-Avoids, Linked-update, link_tail-Linked,
  head_of-append, last_of-append,
}

module _ {A : Type 0} where
  -- The queue's entries are exactly the chain.
  pub record IsQueue (m : Memory A) (es : Chain A) : Type 0 where
    pub head_is : m.queue.head ≡ head_of es
    pub tail_is : m.queue.tail ≡ last_of es
    pub num_is : m.queue.num ≡ length es % uint_mod
    pub linked : Linked m.cell es

  -- The queue holds the items of the list, the oldest first.
  abbrev pub Holds : Memory A → List A → Type 0
  Holds m xs = (es : Chain A) × (items es ≡ xs) × IsQueue m es

  -- `queue_init` gives the empty queue.
  pub queue_init-Holds : (m : Memory A) → Holds (queue_init m) []
  unfolding queue_init
  queue_init-Holds m =
      ([], refl, record { head_is = refl; tail_is = refl; num_is = refl; linked = tt })

  queue_push-step :
      (m : Memory A) (a : ℕ) (x : A) (cell : ℕ → Option (Entry A))
      → link_tail m.queue.tail a (update m.cell a (some (record { next = none; item = x })))
        ≡ some cell
      → queue_push (some a) (some m) x
        ≡ some (
          some (record {
            queue = record {
              head = set_head m.queue.head a;
              tail = some a;
              num = (m.queue.num + 1) % uint_mod;
            };
            cell = cell;
          }),
          some x,
        )
  unfolding queue_push
  queue_push-step m a x cell h = rw (h, push_entry, queue_push)

  push-IsQueue :
      (m : Memory A) (es : Chain A) (a : ℕ) (x : A)
      → IsQueue m es
      → m.cell a ≡ none
      → (m' : Memory A) × (queue_push (some a) (some m) x ≡ some (some m', some x))
        × IsQueue m' (es ++ (a, x) ∷ [])
  push-IsQueue m es a x q free =
      let apart = Linked-Avoids m.cell es a free q.linked in
      let (cell', done, linked', same) =
        link_tail-Linked (update m.cell a (some (record { next = none; item = x }))) es a x
          (Linked-update m.cell es a (some (record { next = none; item = x })) apart q.linked)
          (ground arith) apart in
      (
        record {
          queue = record {
            head = set_head m.queue.head a;
            tail = some a;
            num = (m.queue.num + 1) % uint_mod;
          };
          cell = cell';
        },
        queue_push-step m a x cell' (
            ap (λ t. link_tail t a (update m.cell a (some (record { next = none; item = x }))))
              q.tail_is
            ∙ done),
        record {
          head_is = ap (λ h. set_head h a) q.head_is ∙ sym (head_of-append es (a, x));
          tail_is = sym (last_of-append es (a, x));
          num_is = omega (arith, q.num_is, length-append {0} es ((a, x) ∷ []));
          linked = linked';
        },
      )

  clear_tail-last : (e : ℕ × A) (r : Chain A) → clear_tail (head_of r) (last_of (e ∷ r)) ≡ last_of r
  unfolding clear_tail
  clear_tail-last e [] = refl
  clear_tail-last e (f ∷ r) = refl

  queue_pop-step :
      (m : Memory A) (p : ℕ) (e : Entry A)
      → m.queue.head ≡ some p
      → m.cell p ≡ some e
      → queue_pop m
        ≡ some (
          record {
            queue = record {
              head = e.next;
              tail = clear_tail e.next m.queue.tail;
              num = (m.queue.num + uint_mod - 1) % uint_mod;
            };
            cell = update m.cell p none;
          },
          some e.item,
        )
  unfolding queue_pop
  queue_pop-step m p e h c = ap (pop_head m) h ∙ rw (c, pop_entry)

  -- A push onto a queue that holds `xs` appends the item and returns it, where `memory_alloc` has
  -- returned an unused address.
  pub queue_push-refines :
      (m : Memory A) (xs : List A) (a : ℕ) (x : A)
      → Holds m xs
      → m.cell a ≡ none
      → (m' : Memory A) × (queue_push (some a) (some m) x ≡ some (some m', some x))
        × Holds m' (xs ++ x ∷ [])
  queue_push-refines m xs a x (es, e, q) free =
      let (m', done, q') = push-IsQueue m es a x q free in
      (m', done, (es ++ (a, x) ∷ [], map-append _ es ((a, x) ∷ []) ∙ ap (λ ys. ys ++ x ∷ []) e, q'))

  -- What `queue_pop` must do to a queue that holds the list.
  abbrev pub Pops : Memory A → List A → Type 0
  Pops m [] = queue_pop m ≡ some (m, none)
  Pops m (x ∷ xs) = (m' : Memory A) × (queue_pop m ≡ some (m', some x)) × Holds m' xs

  pop-IsQueue : (m : Memory A) (es : Chain A) → IsQueue m es → Pops m (items es)
  unfolding queue_pop
  pop-IsQueue m [] q = ap (pop_head m) q.head_is
  pop-IsQueue m (e ∷ r) q = (
    record {
      queue = record {
        head = head_of r;
        tail = clear_tail (head_of r) m.queue.tail;
        num = (m.queue.num + uint_mod - 1) % uint_mod;
      };
      cell = update m.cell e.0 none;
    },
    queue_pop-step m e.0 (record { next = head_of r; item = e.1 }) q.head_is q.linked.0,
    (
      r,
      refl,
      record {
        head_is = refl;
        tail_is = ap (clear_tail (head_of r)) q.tail_is ∙ clear_tail-last e r;
        num_is = omega (arith, q.num_is);
        linked = Linked-update m.cell r e.0 none q.linked.1 q.linked.2;
      },
    ),
  )

  -- A pop of the empty queue returns NULL and changes nothing; any other pop returns the oldest
  -- item and leaves the rest.
  pub queue_pop-refines : (m : Memory A) (xs : List A) → Holds m xs → Pops m xs
  queue_pop-refines m xs (es, e, q) = subst (Pops m) e (pop-IsQueue m es q)

  foreach-Linked :
      {S : Type 0} (func : S → A → S) (cell : ℕ → Option (Entry A)) (es : Chain A) (fuel : ℕ)
      (s : S)
      → Linked cell es
      → length es ≤ fuel
      → foreach_from func fuel cell (head_of es) s ≡ some (foldl func s (items es))
  unfolding foreach_from
  foreach-Linked func cell [] zero s l h = refl
  foreach-Linked func cell [] (suc fuel) s l h = refl
  foreach-Linked func cell (e ∷ r) zero s l h = absurd (omega arith)
  foreach-Linked func cell (e ∷ r) (suc fuel) s l h =
      rw (l.0, foreach_from) (foreach-Linked func cell r fuel (func s e.1) l.2 (omega arith))

  -- `queue_foreach` calls the function on every item, the oldest first, and ends.
  pub queue_foreach-refines :
      {S : Type 0} (func : S → A → S) (m : Memory A) (xs : List A) (fuel : ℕ) (s : S)
      → Holds m xs
      → length xs ≤ fuel
      → queue_foreach func fuel m s ≡ some (foldl func s xs)
  unfolding queue_foreach
  queue_foreach-refines func m xs fuel s (es, e, q) h =
      ap (λ p. foreach_from func fuel m.cell p s) q.head_is
      ∙ foreach-Linked func m.cell es fuel s q.linked
          (omega (arith, length-map (λ (e : ℕ × A). e.1) es, ap length e))
      ∙ ap (λ ys. some (foldl func s ys)) e
