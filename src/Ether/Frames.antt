-- ===== src/Ether/Frames.antt =====
-- From `ether_transmit_helper` to `ether_poll_helper` in src/lib/ether.c.
use llnstack.Base.{
  ℕ, suc, ◌+◌, ◌≡◌, ◌<◌, refl, ap, ◌∙◌, ◌⊎◌, inl, inr, Bool, true, false, some, List, [], ◌∷◌, ◌++◌,
  length, length-append, take, drop, take_all, take-append, drop-append, Bool-cases, ltb,
  if◌then◌else◌, arith,
}
use mathlib.Core.Path.{ap₂}
use mathlib.Core.List.{append_assoc}
use llnstack.Util.Endian.{Host, hton16, ntoh16, store16, load16, load16_network}
use llnstack.Util.Packed.{byte_at, field16}
use llnstack.Net.{Device}
use llnstack.Net.Protocol.{Protocol, network_input_handler}
use llnstack.Arp.Cache.{ether_addr_len}
use llnstack.Ether.{
  ether_hdr_size, ether_addr_broadcast, ether_header, padded, ether_frame, same_bytes, is_for,
  ether_poll_helper,
}

byte_at-append : (xs ys : List ℕ) (k : ℕ) → byte_at (xs ++ ys) (length xs + k) ≡ byte_at ys k
byte_at-append [] ys k = ap (byte_at ys) (omega arith)
byte_at-append (x ∷ xs) ys k =
    ap (byte_at (x ∷ (xs ++ ys))) {x = length (x ∷ xs) + k} {y = suc (length xs + k)} (omega arith)
    ∙ byte_at-append xs ys k

same_bytes_refl : (xs : List ℕ) → same_bytes xs xs ≡ true
same_bytes_refl [] = refl
same_bytes_refl (x ∷ xs) = ground (arith, same_bytes_refl xs)

meant_for :
    (a dst : List ℕ)
    → (a ≡ dst) ⊎ (dst ≡ ether_addr_broadcast)
    → (if same_bytes a dst then true else same_bytes ether_addr_broadcast dst) ≡ true
meant_for a dst (inl e) =
    ap (λ x. if same_bytes x dst then true else same_bytes ether_addr_broadcast dst) e
    ∙ rw (same_bytes_refl dst) refl
meant_for a dst (inr e) = elim (Bool-cases (same_bytes a dst)) [
  | inl t ↦ rw t refl
  | inr f ↦ rw f (ap (same_bytes ether_addr_broadcast) e ∙ same_bytes_refl ether_addr_broadcast)
]

module _ (h : Host) (type : ℕ) (payload dst src : List ℕ) (small : type < 65536)
    (six_dst : length dst ≡ 6) (six_src : length src ≡ 6) where
  abbrev frame : List ℕ
  frame = ether_frame h type payload dst src

  shape : frame ≡ (dst ++ src) ++ (store16 h (hton16 h type) ++ padded payload)
  unfolding ether_frame
  shape =
      ap (λ a. ((a ++ take ether_addr_len src) ++ store16 h (hton16 h type)) ++ padded payload)
        (take_all ether_addr_len dst (omega (arith, six_dst)))
      ∙ ap (λ a. ((dst ++ a) ++ store16 h (hton16 h type)) ++ padded payload)
          (take_all ether_addr_len src (omega (arith, six_src)))
      ∙ append_assoc (dst ++ src) (store16 h (hton16 h type)) (padded payload)

  addresses : length (dst ++ src) ≡ 12
  addresses = omega (arith, length-append dst src, six_dst, six_src)

  byte_read :
      (k n : ℕ)
      → n ≡ 12 + k
      → byte_at frame n ≡ byte_at (store16 h (hton16 h type) ++ padded payload) k
  byte_read k n e =
      ap (λ f. byte_at f n) shape
      ∙ ap (byte_at ((dst ++ src) ++ (store16 h (hton16 h type) ++ padded payload))) {x = n}
          {y = length (dst ++ src) + k} (omega (arith, e, addresses))
      ∙ byte_at-append (dst ++ src) (store16 h (hton16 h type) ++ padded payload) k

  type_read : ntoh16 h (field16 h frame 12) ≡ type
  type_read =
      ap₂ (λ a b. ntoh16 h (load16 h a b)) (byte_read 0 12 (omega arith))
        (byte_read 1 13 (omega arith))
      ∙ load16_network h type small

  payload_read : drop ether_hdr_size frame ≡ padded payload
  unfolding ether_frame
  payload_read = drop-append (ether_header h type dst src) (padded payload) ether_hdr_size (
      omega (
        arith,
        length-append (take ether_addr_len dst ++ take ether_addr_len src)
            (store16 h (hton16 h type)),
        length-append (take ether_addr_len dst) (take ether_addr_len src),
        ap length (take_all ether_addr_len dst (omega (arith, six_dst))),
        ap length (take_all ether_addr_len src (omega (arith, six_src))),
        six_dst,
        six_src,
      ))

  dst_read : take ether_addr_len frame ≡ dst
  dst_read =
      ap (take ether_addr_len)
        (shape ∙ append_assoc dst src (store16 h (hton16 h type) ++ padded payload))
      ∙ take-append dst (src ++ (store16 h (hton16 h type) ++ padded payload)) ether_addr_len
          (omega (arith, six_dst))

  pub long : ltb (length frame) ether_hdr_size ≡ false
  unfolding ether_frame
  long = ground (
    arith,
    length-append (ether_header h type dst src) (padded payload),
    length-append (take ether_addr_len dst ++ take ether_addr_len src) (store16 h (hton16 h type)),
    length-append (take ether_addr_len dst) (take ether_addr_len src),
    ap length (take_all ether_addr_len dst (omega (arith, six_dst))),
    ap length (take_all ether_addr_len src (omega (arith, six_src))),
    six_dst,
    six_src,
  )

  -- A frame that `ether_transmit_helper` makes for the address of a device, or for all, is taken in by
  -- `ether_poll_helper` there: the payload, padded to the least size of a frame, goes to
  -- `network_input_handler` with its type. Addresses have six bytes, the type has 16 bits.
  pub ether_poll_helper-ether_frame :
      {H : Type 0} (alloc alloc_link : Bool) (dev : Device) (protocols : List (Protocol H))
      → (take ether_addr_len dev.address ≡ dst) ⊎ (dst ≡ ether_addr_broadcast)
      → ether_poll_helper h alloc alloc_link dev (some frame) protocols
        ≡ network_input_handler alloc alloc_link type (padded payload) dev.index protocols
  unfolding ether_poll_helper
  ether_poll_helper-ether_frame alloc alloc_link dev protocols to =
      let meant : is_for dev frame ≡ true =
        rw dst_read (meant_for (take ether_addr_len dev.address) dst to) in
      rw (long, meant, type_read, payload_read, ether_poll_helper) refl
