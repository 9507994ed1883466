-- ===== src/Net/Protocol.antt =====
-- The protocol table of src/lib/net.c with its input queues, the receive path into them, and the
-- handler of the software interrupt that empties them. A queue is a list, the oldest packet first
-- (`Util.Queue.Refine` relates the linked queue to such a list).
pub mod Table
use llnstack.Base.{
  ℕ, zero, suc, Bool, true, false, Option, none, some, List, [], ◌∷◌, ◌++◌, length, ◌==◌,
  if◌then◌else◌,
}
use llnstack.Net.{Status, ok, fail}

-- `struct network_protocol_queue_entry`: the device, and `len` bytes of data.
pub record Packet : Type 0 where
  pub dev : ℕ
  pub bytes : List ℕ

-- `struct network_protocol`; `H` is the type of the handler's address.
pub record Protocol (H : Type 0) : Type 0 where
  pub type : ℕ
  pub queue : List Packet
  pub handler : H

module _ {H : Type 0} where
  -- The first entry of a type, if there is one.
  unfoldable pub find_protocol : ℕ → List (Protocol H) → Option (Protocol H)
  find_protocol type [] = none
  find_protocol type (proto ∷ rest) =
      if proto.type == type then some proto else find_protocol type rest

  -- The Boolean tells whether `memory_alloc` succeeds.
  unfoldable pub network_protocol_register :
      Bool → ℕ → H → List (Protocol H) → Status × List (Protocol H)
  network_protocol_register alloc type handler protocols = elim (find_protocol type protocols) [
    | some proto ↦ (fail, protocols)
    | none ↦
        if alloc
        then (ok, record { type = type; queue = []; handler = handler } ∷ protocols)
        else (fail, protocols)
  ]

  -- `alloc` is for the entry, `alloc_link` for the link that `queue_push` allocates. The results
  -- are the returned value, the table, and whether the software interrupt was raised.
  unfoldable pub network_input_handler :
      Bool → Bool → ℕ → List ℕ → ℕ → List (Protocol H) → Status × List (Protocol H) × Bool
  network_input_handler alloc alloc_link type bytes dev [] = (ok, [], false)
  network_input_handler alloc alloc_link type bytes dev (proto ∷ rest) =
      let (status, rest', raised) = network_input_handler alloc alloc_link type bytes dev rest in
      if proto.type == type
      then (if alloc
          then (if alloc_link
              then (
                ok,
                record proto { queue = proto.queue ++ record { dev = dev; bytes = bytes } ∷ [] }
                    ∷ rest,
                true,
              )
              else (fail, proto ∷ rest, false))
          else (fail, proto ∷ rest, false))
      else (status, proto ∷ rest', raised)

  pop_first : Protocol H → List Packet → Option (H × Packet × Protocol H)
  pop_first proto [] = none
  pop_first proto (p ∷ queue) = some (proto.handler, p, record proto { queue = queue })

  -- `queue_pop(&proto->queue)` on the protocol at the place `i` of the table.
  unfoldable pub pop_at : ℕ → List (Protocol H) → Option (H × Packet × List (Protocol H))
  unfolding pop_first
  pop_at i [] = none
  pop_at zero (proto ∷ rest) = elim (pop_first proto proto.queue) [
    | none ↦ none
    | some (h, p, proto') ↦ some (h, p, proto' ∷ rest)
  ]
  pop_at (suc i) (proto ∷ rest) = elim (pop_at i rest) [
    | none ↦ none
    | some (h, p, rest') ↦ some (h, p, proto ∷ rest')
  ]

  -- A handler may change the table (a reply through the loopback device is queued again) and the
  -- rest of the stack's state.
  module _ {S : Type 0} (call : H → Packet → List (Protocol H) × S → List (Protocol H) × S) where
    -- The inner loop at one place of the table, on fuel; `none` means that the fuel ran out.
    unfoldable pub drain : ℕ → ℕ → List (Protocol H) × S → Option (List (Protocol H) × S)
    drain zero i s = none
    drain (suc fuel) i s = elim (pop_at i s.0) [
      | none ↦ some s
      | some (h, p, protocols) ↦ drain fuel i (call h p (protocols, s.1))
    ]

    -- The outer loop over the places from `i` on, `n` of them. The table is only ever extended at
    -- its front, before the stack runs.
    unfoldable pub drain_all : ℕ → ℕ → ℕ → List (Protocol H) × S → Option (List (Protocol H) × S)
    drain_all fuel zero i s = some s
    drain_all fuel (suc n) i s = elim (drain fuel i s) [
      | none ↦ none
      | some s' ↦ drain_all fuel n (suc i) s'
    ]

    unfoldable pub network_protocol_handler :
        ℕ → List (Protocol H) × S → Option (List (Protocol H) × S)
    network_protocol_handler fuel s = drain_all fuel (length s.0) 0 s
