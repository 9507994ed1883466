-- ===== src/Udp/Datagram.antt =====
-- Datagrams in src/lib/udp.c: `udp_input` and `udp_output`.
pub mod RoundTrip
use llnstack.Base.{
  ℕ, suc, ◌+◌, ◌-◌, ◌%◌, ◌^◌, Bool, true, false, Option, none, some, List, [], ◌∷◌, ◌++◌, length,
  take, drop, set, ltb, ◌==◌, ◌!=◌, if◌then◌else◌,
}
use llnstack.Util.Endian.{Host, hton16, ntoh16, store16, store32}
use llnstack.Util.Packed.{field16}
use llnstack.Util.Checksum.{cksum16}
use llnstack.Net.{Device, Transmit}
use llnstack.Net.Timer.{Timeval}
use llnstack.Ip.Text.{Endpoint}
use llnstack.Ip.Route.{Route}
use llnstack.Ip.Packet.{Size, Sending, ip_send_packet}
use llnstack.Sched.{sched_wakeup}
use llnstack.Udp.Pcb.{UdpPcb, Datagram, udp_pcb_select}

abbrev pub udp_protocol : ℕ
udp_protocol = 17

abbrev pub udp_hdr_size : ℕ
udp_hdr_size = 8

-- MAX_IP_PAYLOAD_SIZE
abbrev pub max_ip_payload_size : ℕ
max_ip_payload_size = 65535 - 20

-- `struct pseudo_hdr`
abbrev pub pseudo_hdr : Host → ℕ → ℕ → ℕ → List ℕ
pseudo_hdr h src dst len =
    store32 h src ++ (store32 h dst ++ (0 ∷ udp_protocol ∷ store16 h (hton16 h len)))

-- `psum = ~cksum16((uint16_t *)&pseudo, sizeof(pseudo), 0)`, a `uint16_t`.
unfoldable pub pseudo_sum : Host → ℕ → ℕ → ℕ → ℕ
pseudo_sum h src dst len = 65535 - cksum16 h (pseudo_hdr h src dst (len % 65536)) 12 0

-- The header and the payload with the sum as given. The ports are in network byte order already.
abbrev pub message_with : Host → Endpoint → Endpoint → ℕ → ℕ → List ℕ → List ℕ
message_with h src dst total sum payload =
    (store16 h src.port ++ (store16 h dst.port ++ store16 h (hton16 h total)))
    ++ (store16 h sum ++ payload)

unfoldable pub udp_message : Host → Endpoint → Endpoint → List ℕ → List ℕ
udp_message h src dst payload =
    let total = (udp_hdr_size + length payload) % 65536 in
    message_with h src dst total
      (cksum16 h (message_with h src dst total 0 payload) total
        (pseudo_sum h src.address dst.address total))
      payload

module _ {S : Type 0} (h : Host) (transmit : Transmit S) (now : Timeval) (device : ℕ → Device) where
  unfoldable pub udp_output :
      List Route → Endpoint → Endpoint → List ℕ → Sending S → Size × Sending S
  udp_output routes src dst payload w =
      if ltb (max_ip_payload_size - udp_hdr_size) (length payload)
      then (none, w)
      else (let (sent, w') =
            ip_send_packet h transmit now device routes udp_protocol (udp_message h src dst payload)
              src.address dst.address w in
          elim sent [ none ↦ (none, w') | some n ↦ (some (length payload), w') ])

-- The tests of `udp_input` before it looks for a block. `len` is a `size_t`; `buf` are the bytes from
-- the pointer to the end of the buffer.
abbrev pub bad_datagram : Host → List ℕ → ℕ → ℕ → ℕ → Bool
bad_datagram h buf len src dst =
    if ltb len udp_hdr_size
    then true
    else (if len != ntoh16 h (field16 h buf 4)
        then true
        else cksum16 h buf len (pseudo_sum h src dst len) != 0)

-- The entry that is queued.
abbrev pub datagram_of : Host → List ℕ → ℕ → ℕ → Datagram
datagram_of h buf len src = record {
  foreign = record { address = src; port = field16 h buf 0 };
  bytes = take ((len - udp_hdr_size) % 65536) (drop udp_hdr_size buf);
}

-- `alloc` is for the entry, `alloc_link` for the link that `queue_push` allocates. The table after the
-- call; where it changes, the sleepers of the block are woken.
unfoldable pub udp_input : Host → Bool → Bool → List ℕ → ℕ → ℕ → ℕ → List UdpPcb → List UdpPcb
udp_input h alloc alloc_link buf len src dst pcbs =
    if bad_datagram h buf len src dst
    then pcbs
    else (elim (udp_pcb_select dst (field16 h buf 2) pcbs) [
      | none ↦ pcbs
      | some (i, pcb) ↦
          if alloc
          then (if alloc_link
              then set pcbs i (record pcb {
                queue = pcb.queue ++ datagram_of h buf len src ∷ [];
                ctx = sched_wakeup pcb.ctx;
              })
              else pcbs)
          else pcbs
    ])
