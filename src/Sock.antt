-- ===== src/Sock.antt =====
-- src/lib/sock.c: the table of sockets over the blocks of src/lib/udp.c. The sockets' table and the
-- blocks' are the state; the text forms of addresses are those of src/lib/ip.c.
pub mod Slots
pub mod Text
use llnstack.Base.{
  ℕ, suc, Bool, true, false, not, ◌&&◌, ◌||◌, Option, none, some, List, [], ◌∷◌, get_elem?, set,
  replicate, ltb, ◌==◌, ◌!=◌, if◌then◌else◌,
}
use llnstack.Util.Endian.{Host}
use llnstack.Net.{Status, ok, fail, Device, Transmit}
use llnstack.Net.Timer.{Timeval}
use llnstack.Ip.Text.{Endpoint, ip_string_to_endpoint, ip_endpoint_to_string}
use llnstack.Ip.Route.{Route}
use llnstack.Ip.Packet.{Size, Sending}
use llnstack.Udp.Pcb.{UdpPcb}
use llnstack.Udp.User.{Receiving, failed, udp_open, udp_close, udp_bind, udp_sendto, recv_start}

abbrev pub max_socks : ℕ
max_socks = 128

abbrev pub af_inet : ℕ
af_inet = 2

abbrev pub sock_stream : ℕ
sock_stream = 1

abbrev pub sock_dgram : ℕ
sock_dgram = 2

-- `struct sock`; a descriptor of -1 is `none`.
pub record Sock : Type 0 where
  pub used : Bool
  pub family : ℕ
  pub type : ℕ
  pub desc : Option ℕ

-- What `memset` leaves, and static storage starts with.
abbrev pub unused : Sock
unused = record { used = false; family = 0; type = 0; desc = some 0 }

unfoldable pub sock_alloc : List Sock → Option (ℕ × Sock)
sock_alloc [] = none
sock_alloc (s ∷ rest) =
    let later = sock_alloc rest in
    if s.used
    then (elim later [ none ↦ none | some (i, t) ↦ some (suc i, t) ])
    else some (0, record s { used = true })

-- The slot of an identifier, used or not; a negative one, like one out of range, gives NULL.
abbrev pub sock_get : ℕ → List Sock → Option Sock
sock_get id socks = get_elem? socks id

-- The tests of `sock_open` on its arguments.
abbrev pub bad_request : ℕ → ℕ → ℕ → Bool
bad_request domain type protocol =
    (domain != af_inet) || ((type != sock_stream) && (type != sock_dgram)) || (protocol != 0)

-- `s->desc` and the blocks after the switch of `sock_open`.
unfoldable pub desc_of : Sock → List UdpPcb → Option ℕ × List UdpPcb
desc_of s pcbs = if s.type == sock_dgram then udp_open pcbs else (s.desc, pcbs)

abbrev pub Tables : Type 0
Tables = List Sock × List UdpPcb

-- The identifier, or `none` for -1.
unfoldable pub sock_open : ℕ → ℕ → ℕ → Tables → Option ℕ × Tables
sock_open domain type protocol (socks, pcbs) =
    if bad_request domain type protocol then (none, (socks, pcbs)) else (elim (sock_alloc socks) [
      | none ↦ (none, (socks, pcbs))
      | some (i, slot) ↦
          let s : Sock = record slot { family = domain; type = type } in
          let (desc, pcbs') = desc_of s pcbs in
          let socks' = set socks i (record s { desc = desc }) in
          elim desc [ none ↦ (none, (socks', pcbs')) | some d ↦ (some i, (socks', pcbs')) ]
    ])

-- `udp_close` of a descriptor of -1 fails and changes nothing. `sock_free` clears the slot.
close_desc : Option ℕ → Option ℕ → List UdpPcb → List UdpPcb
close_desc destroyed none pcbs = pcbs
close_desc destroyed (some d) pcbs = (udp_close destroyed d pcbs).1

unfoldable pub sock_close : Option ℕ → ℕ → Tables → Status × Tables
unfolding close_desc
sock_close destroyed id (socks, pcbs) = elim (sock_get id socks) [
  | none ↦ (fail, (socks, pcbs))
  | some s ↦
      if s.type == sock_dgram
      then (ok, (set socks id unused, close_desc destroyed s.desc pcbs))
      else (fail, (socks, pcbs))
]

-- The descriptor that `sock_recvfrom`, `sock_sendto` and `sock_bind` pass on.
unfoldable pub datagram_desc : ℕ → List Sock → Option ℕ
datagram_desc id socks = elim (sock_get id socks) [
  | none ↦ none
  | some s ↦ if (s.type != sock_dgram) || (s.family != af_inet) then none else s.desc
]

-- Up to the first wait; the calls that wait are resumed as those of src/lib/udp.c are.
unfoldable pub sock_recvfrom : ℕ → ℕ → Tables → Receiving × List UdpPcb
sock_recvfrom id size (socks, pcbs) = elim (datagram_desc id socks) [
  | none ↦ (failed, pcbs)
  | some d ↦ recv_start d size pcbs
]

unfoldable pub sock_bind : ℕ → Endpoint → Tables → Status × List UdpPcb
sock_bind id addr (socks, pcbs) = elim (datagram_desc id socks) [
  | none ↦ (fail, pcbs)
  | some d ↦ udp_bind d addr pcbs
]

module _ {S : Type 0} (h : Host) (transmit : Transmit S) (now : Timeval) (device : ℕ → Device) where
  unfoldable pub sock_sendto :
      List Route
      → ℕ
      → List ℕ
      → Endpoint
      → List Sock
      → List UdpPcb × Sending S
      → Size × List UdpPcb × Sending S
  sock_sendto routes id payload addr socks (pcbs, w) = elim (datagram_desc id socks) [
    | none ↦ (none, pcbs, w)
    | some d ↦ udp_sendto h transmit now device routes d payload addr (pcbs, w)
  ]
