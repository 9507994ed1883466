-- ===== src/Net/Protocol/Table.antt =====
-- The protocol table: one entry for a type, and packets queued in order.
use llnstack.Base.{
  ℕ, ◌≡◌, ◌≢◌, ◌⊎◌, Bool, true, false, Option, none, some, List, [], ◌∷◌, ◌++◌, ◌==◌, if◌then◌else◌,
  arith,
}
use llnstack.Net.{ok, fail}
use llnstack.Net.Protocol.{
  Packet, Protocol, find_protocol, network_protocol_register, network_input_handler,
}

module _ {H : Type 0} where
  -- The types in the table are distinct.
  abbrev pub DistinctTypes : List (Protocol H) → Type 0
  DistinctTypes [] = Unit {0}
  DistinctTypes (proto ∷ rest) = (find_protocol proto.type rest ≡ none) × DistinctTypes rest

  -- The packets that wait under a type.
  queue_of_found : Option (Protocol H) → List Packet
  queue_of_found none = []
  queue_of_found (some proto) = proto.queue

  abbrev pub queue_of : ℕ → List (Protocol H) → List Packet
  unfolding queue_of_found
  queue_of type protocols = queue_of_found (find_protocol type protocols)

  -- In a table whose types are distinct, registration keeps them distinct. It succeeds exactly when the type is
  -- new and memory is at hand; the type then has the handler and an empty queue, and any other type is as
  -- before. Otherwise the table stays as it is.
  pub network_protocol_register_lem :
      (alloc : Bool) (type : ℕ) (handler : H) (protocols : List (Protocol H))
      → DistinctTypes protocols
      → let (status, protocols') = network_protocol_register alloc type handler protocols in
        DistinctTypes protocols'
        × (((status ≡ ok)
              × (find_protocol type protocols ≡ none)
              × (alloc ≡ true)
              × ((t : ℕ)
                  → find_protocol t protocols' ≡ (
                      if type == t
                      then some (record { type = type; queue = []; handler = handler })
                      else find_protocol t protocols)))
            ⊎ ((status ≡ fail)
                × (protocols' ≡ protocols)
                × ((find_protocol type protocols ≢ none) ⊎ (alloc ≡ false))))
  unfolding network_protocol_register find_protocol
  network_protocol_register_lem alloc type handler protocols d = ground arith

  -- With memory at hand, a packet of a registered type goes to the end of that type's queue and
  -- raises the software interrupt; the queues of the other types stay.
  pub network_input_handler_lem :
      (type : ℕ) (bytes : List ℕ) (dev t : ℕ) (protocols : List (Protocol H)) (proto : Protocol H)
      → find_protocol type protocols ≡ some proto
      → let (status, protocols', raised) =
          network_input_handler true true type bytes dev protocols in
        (status ≡ ok)
        × (raised ≡ true)
        × (queue_of t protocols' ≡ (
            if type == t
            then queue_of t protocols ++ record { dev = dev; bytes = bytes } ∷ []
            else queue_of t protocols))
  unfolding network_input_handler find_protocol queue_of_found
  network_input_handler_lem type bytes dev t [] proto e = cc
  network_input_handler_lem type bytes dev t (p ∷ protocols) proto e =
      ground (arith, network_input_handler_lem type bytes dev t protocols proto)
