-- ===== src/Udp/Datagram/RoundTrip.antt =====
-- What `udp_output` makes, `udp_input` takes in, and nothing that does not verify.
use llnstack.Base.{
  ℕ, ◌+◌, ◌-◌, ◌%◌, ◌≤◌, ◌<◌, ◌≡◌, ◌≢◌, refl, ap, ◌∙◌, inl, inr, Bool, true, false, Option, none,
  some, List, [], ◌∷◌, ◌++◌, length, set, take-append, Option-cases, arith,
}
use mathlib.Core.Path.{subst, ap₂}
use llnstack.Util.Endian.{Host, hton16, ntoh16, store16, load16-store16, load16_network}
use llnstack.Util.Packed.{field16}
use llnstack.Util.Checksum.{cksum16}
use llnstack.Util.Checksum.Residue.{IsBytes}
use llnstack.Util.Checksum.Fill.{cksum16-fill, bytes_of_word}
use llnstack.Ip.Text.{Endpoint}
use llnstack.Ip.Packet.Header.{cksum16-append}
use llnstack.Sched.{sched_wakeup}
use llnstack.Udp.Pcb.{UdpPcb, Datagram, udp_pcb_select}
use llnstack.Udp.Datagram.{
  udp_hdr_size, pseudo_sum, message_with, udp_message, bad_datagram, datagram_of, udp_input,
}

pseudo_sum-lt : (h : Host) (src dst len : ℕ) → pseudo_sum h src dst len < 65536
unfolding pseudo_sum
pseudo_sum-lt h src dst len = omega arith

-- The table with a datagram queued at the block that was selected, if one was.
abbrev pub delivered : Option (ℕ × UdpPcb) → Datagram → List UdpPcb → List UdpPcb
delivered none d pcbs = pcbs
delivered (some (i, pcb)) d pcbs = set pcbs i (record pcb { queue = pcb.queue ++ d ∷ [] })

input_good :
    (h : Host) (buf : List ℕ) (len src dst : ℕ) (pcbs : List UdpPcb)
    → bad_datagram h buf len src dst ≡ false
    → udp_input h true true buf len src dst pcbs
      ≡ delivered (udp_pcb_select dst (field16 h buf 2) pcbs) (datagram_of h buf len src) pcbs
unfolding udp_input sched_wakeup
input_good h buf len src dst pcbs b =
    elim (Option-cases (udp_pcb_select dst (field16 h buf 2) pcbs)) [
      | inl e ↦ rw (b, e, udp_input) refl
      | inr ((i, pcb), e) ↦ rw (b, e, udp_input) refl
    ]

module _ (h : Host) (src dst : Endpoint) (payload : List ℕ) (sp : src.port < 65536)
    (dp : dst.port < 65536) (bytes : IsBytes payload)
    (fits : udp_hdr_size + length payload < 65536) where
  abbrev total : ℕ
  total = udp_hdr_size + length payload

  abbrev front : List ℕ
  front = store16 h src.port ++ (store16 h dst.port ++ store16 h (hton16 h total))

  front-IsBytes : IsBytes front
  front-IsBytes =
      let (a, b) = bytes_of_word h src.port in
      let (c, d) = bytes_of_word h dst.port in
      let (e, f) = bytes_of_word h (hton16 h total) in (a, (b, (c, (d, (e, (f, tt))))))

  abbrev sum : ℕ
  sum =
      cksum16 h (message_with h src dst total 0 payload) total
        (pseudo_sum h src.address dst.address total)

  message : udp_message h src dst payload ≡ message_with h src dst total sum payload
  unfolding udp_message
  message =
      ap
        (λ t.
          message_with h src dst t
            (cksum16 h (message_with h src dst t 0 payload) t
              (pseudo_sum h src.address dst.address t))
            payload)
        (omega arith)

  message-verifies :
      cksum16 h
        (message_with h src dst total sum payload)
        total
        (pseudo_sum h src.address dst.address total)
      ≡ 0
  message-verifies =
      let init = pseudo_sum h src.address dst.address total in
      let e : length front + length payload + 2 ≡ total = omega arith in
      subst
        (λ t.
          cksum16 h
            (message_with h src dst total
              (cksum16 h (message_with h src dst total 0 payload) t init) payload)
            t init
          ≡ 0)
        e
        (cksum16-fill h front payload init front-IsBytes bytes refl (omega (arith, fits))
          (pseudo_sum-lt h src.address dst.address total))

  module _ (pad : List ℕ) where
    abbrev received : List ℕ
    received = message_with h src dst total sum payload ++ pad

    not_bad : bad_datagram h received total src.address dst.address ≡ false
    not_bad = ground (
      arith,
      load16_network h total fits,
      cksum16-append h (message_with h src dst total sum payload) pad total
          (pseudo_sum h src.address dst.address total) (omega arith) fits,
      message-verifies,
    )

    taken : datagram_of h received total src.address ≡ record { foreign = src; bytes = payload }
    taken =
        ap₂ (λ p b. record { foreign = record { address = src.address; port = p }; bytes = b })
          (load16-store16 h src.port sp)
          (take-append payload pad ((total - udp_hdr_size) % 65536) (omega (arith, fits)))

    -- A message of fewer than 65536 bytes that `udp_output` makes, carried unchanged and perhaps
    -- padded, is appended to the queue of the block that is selected for its destination, with the
    -- sender's endpoint and the payload; the table stays exactly where no block is selected. Memory
    -- is at hand.
    pub udp_input-udp_message :
        (pcbs : List UdpPcb)
        → udp_input h true true
            (udp_message h src dst payload ++ pad)
            total
            src.address
            dst.address
            pcbs
          ≡ delivered
              (udp_pcb_select dst.address dst.port pcbs)
              (record { foreign = src; bytes = payload })
              pcbs
    udp_input-udp_message pcbs =
        ap (λ m. udp_input h true true (m ++ pad) total src.address dst.address pcbs) message
        ∙ input_good h received total src.address dst.address pcbs not_bad
        ∙ ap₂ (λ p d. delivered (udp_pcb_select dst.address p pcbs) d pcbs)
            (load16-store16 h dst.port dp) taken

-- Nothing else gets in: where `udp_input` changes the table, the length in the header is the length
-- given and the datagram verifies under the pseudo header.
pub udp_input-changed :
    (h : Host) (alloc alloc_link : Bool) (buf : List ℕ) (len src dst : ℕ) (pcbs : List UdpPcb)
    → udp_input h alloc alloc_link buf len src dst pcbs ≢ pcbs
    → (udp_hdr_size ≤ len)
      × (len ≡ ntoh16 h (field16 h buf 4))
      × (cksum16 h buf len (pseudo_sum h src dst len) ≡ 0)
      × (udp_pcb_select dst (field16 h buf 2) pcbs ≢ none)
unfolding udp_input
udp_input-changed h alloc alloc_link buf len src dst pcbs c = ground arith
