-- ===== src/Driver/Input.antt =====
-- What the interrupt handlers of handler/tap.c and handler/pcap.c take in.
use llnstack.Base.{
  ℕ, ◌≡◌, refl, sym, ap, ◌∙◌, inl, inr, Bool, true, false, not, Option, none, some, List, [], ◌∷◌,
  ◌++◌, length, drop, ltb, ◌==◌, if◌then◌else◌, Bool-cases, arith,
}
use mathlib.Core.List.{append_assoc, append-nil}
use llnstack.Util.Endian.{Host, ntoh16}
use llnstack.Util.Packed.{field16}
use llnstack.Net.{Status, ok, fail, Device}
use llnstack.Net.Protocol.{Packet, Protocol, network_input_handler}
use llnstack.Ether.{ether_hdr_size, is_for, ether_poll_helper}
use llnstack.Driver.{Poll, interrupted, failed, idle, ready, ether_read, ether_isr}

-- What the frames bring for a type, each without its header: those that are long enough, and for the
-- device or for all.
abbrev pub taken : Host → Device → ℕ → List (List ℕ) → List Packet
taken h dev type [] = []
taken h dev type (frame ∷ frames) =
    let rest = taken h dev type frames in
    if ltb (length frame) ether_hdr_size
    then rest
    else (if not (is_for dev frame)
        then rest
        else (if ntoh16 h (field16 h frame 12) == type
            then record { dev = dev.index; bytes = drop ether_hdr_size frame } ∷ rest
            else rest))

-- Where the loop ends, if it does: the first report but data or an interruption.
abbrev pub end_of : List Poll → Option Status
end_of [] = none
end_of (interrupted ∷ polls) = end_of polls
end_of (failed ∷ polls) = some fail
end_of (idle ∷ polls) = some ok
end_of (ready bytes ∷ polls) = end_of polls

-- What is read until then.
abbrev pub frames_of : List Poll → List (List ℕ)
frames_of [] = []
frames_of (interrupted ∷ polls) = frames_of polls
frames_of (failed ∷ polls) = []
frames_of (idle ∷ polls) = []
frames_of (ready none ∷ polls) = frames_of polls
frames_of (ready (some frame) ∷ polls) = frame ∷ frames_of polls

append_if :
    (b : Bool) (p : Packet) (packets : List Packet)
    → (if b then packets ++ p ∷ [] else packets) ≡ packets ++ (if b then p ∷ [] else [])
append_if true p packets = refl
append_if false p packets = sym (append-nil packets)

taken-cons :
    (h : Host) (dev : Device) (t : ℕ) (frame : List ℕ) (frames : List (List ℕ))
    → taken h dev t (frame ∷ frames) ≡ taken h dev t (frame ∷ []) ++ taken h dev t frames
taken-cons h dev t frame frames = elim (Bool-cases (ltb (length frame) ether_hdr_size)) [
  | inl short ↦ rw short refl
  | inr long ↦ elim (Bool-cases (is_for dev frame)) [
    | inr other ↦ rw (long, other) refl
    | inl ours ↦ elim (Bool-cases (ntoh16 h (field16 h frame 12) == t)) [
      | inl same ↦ rw (long, ours, same) refl
      | inr not_same ↦ rw (long, ours, not_same) refl
    ]
  ]
]

module _ {H : Type 0} where
  -- The packets that wait under a type, if it is registered.
  abbrev pub waiting_at : ℕ → List (Protocol H) → Option (List Packet)
  waiting_at type [] = none
  waiting_at type (proto ∷ rest) =
      if proto.type == type then some proto.queue else waiting_at type rest

  input_waiting :
      (type : ℕ) (bytes : List ℕ) (dev t : ℕ) (protocols : List (Protocol H))
      (packets : List Packet)
      → waiting_at t protocols ≡ some packets
      → waiting_at t (network_input_handler true true type bytes dev protocols).1
        ≡ some (if type == t then packets ++ record { dev = dev; bytes = bytes } ∷ [] else packets)
  unfolding network_input_handler
  input_waiting type bytes dev t [] packets e = absurd (cc)
  input_waiting type bytes dev t (p ∷ rest) packets e =
      ground (arith, input_waiting type bytes dev t rest packets)

  poll_waiting :
      (h : Host) (dev : Device) (frame : List ℕ) (t : ℕ) (protocols : List (Protocol H))
      (packets : List Packet)
      → waiting_at t protocols ≡ some packets
      → waiting_at t (ether_poll_helper h true true dev (ether_read (some frame)) protocols).1
        ≡ some (packets ++ taken h dev t (frame ∷ []))
  unfolding ether_poll_helper ether_read
  poll_waiting h dev [] t protocols packets e = rw (append-nil packets) e
  poll_waiting h dev (b ∷ bs) t protocols packets e =
      let frame = b ∷ bs in
      let type = ntoh16 h (field16 h frame 12) in
      elim (Bool-cases (ltb (length frame) ether_hdr_size)) [
        | inl short ↦ rw (short, append-nil packets) e
        | inr long ↦ elim (Bool-cases (is_for dev frame)) [
          | inr other ↦ rw (long, other, append-nil packets) e
          | inl ours ↦
              rw (long, ours)
                (input_waiting type (drop 13 bs) dev.index t protocols packets e
                  ∙ ap some (
                      append_if (type == t) (record { dev = dev.index; bytes = drop 13 bs })
                        packets))
        ]
      ]

  -- With memory at hand, what waits for a registered type after the interrupt handler is what waited before
  -- and then, in order, the payload of each frame that was read, was long enough, was for the device or for
  -- all, and was of that type. The handler ends when `poll` reports no data, with 0, or fails, with -1:
  -- as long as `poll` reports data it goes on, even if `read` gives none.
  pub ether_isr_lem :
      (h : Host) (dev : Device) (polls : List Poll) (t : ℕ) (protocols : List (Protocol H))
      (raised : Bool) (packets : List Packet)
      → waiting_at t protocols ≡ some packets
      → let (status, protocols', raised') = ether_isr h true true dev polls (protocols, raised) in
        (status ≡ end_of polls)
        × (waiting_at t protocols' ≡ some (packets ++ taken h dev t (frames_of polls)))
  unfolding ether_isr ether_poll_helper ether_read
  ether_isr_lem h dev [] t protocols raised packets e = (refl, rw (append-nil packets) e)
  ether_isr_lem h dev (interrupted ∷ polls) t protocols raised packets e =
      ether_isr_lem h dev polls t protocols raised packets e
  ether_isr_lem h dev (failed ∷ polls) t protocols raised packets e =
      (refl, rw (append-nil packets) e)
  ether_isr_lem h dev (idle ∷ polls) t protocols raised packets e =
      (refl, rw (append-nil packets) e)
  ether_isr_lem h dev (ready none ∷ polls) t protocols raised packets e =
      ether_isr_lem h dev polls t protocols raised packets e
  ether_isr_lem h dev (ready (some frame) ∷ polls) t protocols raised packets e =
      let r = ether_poll_helper h true true dev (ether_read (some frame)) protocols in
      let (ended, waits) =
        ether_isr_lem h dev polls t r.1 (if r.2 then true else raised)
          (packets ++ taken h dev t (frame ∷ []))
          (poll_waiting h dev frame t protocols packets e) in
      (
        ended,
        waits
            ∙ ap some (
                append_assoc packets (taken h dev t (frame ∷ [])) (taken h dev t (frames_of polls))
                ∙ ap (λ l. packets ++ l) (sym (taken-cons h dev t frame (frames_of polls)))),
      )
