-- ===== src/Sock/Slots.antt =====
-- How the slots of src/lib/sock.c are taken and given back.
use llnstack.Base.{
  ℕ, zero, suc, ◌≡◌, refl, sym, ap, ◌⊎◌, inl, inr, true, false, Option, none, some, List, [], ◌∷◌,
  All, get_elem?, set, Bool-cases,
}
use llnstack.Net.{ok, fail}
use llnstack.Udp.Pcb.{UdpPcb}
use llnstack.Udp.User.{udp_open, udp_close}
use llnstack.Sock.{
  Sock, unused, af_inet, sock_stream, sock_dgram, sock_alloc, desc_of, sock_open, sock_close,
  close_desc,
}

-- The first slot not in use, or none.
sock_alloc_lem :
    (socks : List Sock)
    → ((sock_alloc socks ≡ none) × All (λ s. s.used ≡ true) socks)
      ⊎ ((i : ℕ) × (s : Sock) × (sock_alloc socks ≡ some (i, record s { used = true }))
          × (get_elem? socks i ≡ some s)
          × (s.used ≡ false))
unfolding sock_alloc
sock_alloc_lem [] = inl (refl, tt)
sock_alloc_lem (s ∷ rest) = elim (Bool-cases s.used) [
  | inr f ↦ inr (0, s, rw f refl, refl, f)
  | inl u ↦ elim (sock_alloc_lem rest) [
    | inl (e, all) ↦ inl (rw (u, e) refl, (u, all))
    | inr (i, t, e, at, f) ↦ inr (suc i, t, rw (u, e) refl, at, f)
  ]
]

get_set :
    (socks : List Sock) (i : ℕ) (s t : Sock)
    → get_elem? socks i ≡ some s
    → get_elem? (set socks i t) i ≡ some t
get_set [] i s t e = absurd (cc)
get_set (u ∷ rest) zero s t e = refl
get_set (u ∷ rest) (suc i) s t e = get_set rest i s t e

set-set : (socks : List Sock) (i : ℕ) (s t : Sock) → set (set socks i s) i t ≡ set socks i t
set-set [] i s t = refl
set-set (u ∷ rest) zero s t = refl
set-set (u ∷ rest) (suc i) s t = ap (λ r. u ∷ r) (set-set rest i s t)

alloc-get :
    (socks : List Sock) (i : ℕ) (x : Sock)
    → sock_alloc socks ≡ some (i, x)
    → ((s : Sock) × (get_elem? socks i ≡ some s)) × (x.used ≡ true)
alloc-get socks i x a = elim (sock_alloc_lem socks) [
  | inl (n, all) ↦ absurd (cc)
  | inr (j, s, e, at, f) ↦
      let place : j ≡ i = cc in
      let same : record s { used = true } ≡ x = cc in ((s, cc), ap (λ t. t.used) (sym same))
]

-- The slot after `sock_open` with a descriptor.
slot_with : Sock → ℕ → Option ℕ → Sock
slot_with x type desc = record x { family = af_inet; type = type; desc = desc }

stream_opened :
    (socks : List Sock) (pcbs : List UdpPcb) (i d : ℕ) (x : Sock)
    → sock_alloc socks ≡ some (i, x)
    → x.desc ≡ some d
    → sock_open af_inet sock_stream 0 (socks, pcbs)
      ≡ (some i, (set socks i (slot_with x sock_stream (some d)), pcbs))
unfolding sock_open desc_of slot_with
stream_opened socks pcbs i d x a e =
    rw (a, sock_open) (rw e (ap (λ o. (some i, (set socks i (slot_with x sock_stream o), pcbs))) e))

dgram_opened :
    (socks : List Sock) (pcbs pcbs' : List UdpPcb) (i : ℕ) (x : Sock) (desc : Option ℕ)
    → sock_alloc socks ≡ some (i, x)
    → udp_open pcbs ≡ (desc, pcbs')
    → sock_open af_inet sock_dgram 0 (socks, pcbs) ≡ (
      elim desc [ none ↦ none | some d ↦ some i ],
      (set socks i (slot_with x sock_dgram desc), pcbs'),
    )
unfolding sock_open desc_of slot_with
dgram_opened socks pcbs pcbs' i x none a e =
    rw (a, e, sock_open) (ap (λ r. (none, (set socks i (slot_with x sock_dgram r.0), r.1))) e)
dgram_opened socks pcbs pcbs' i x (some d) a e =
    rw (a, e, sock_open) (ap (λ r. (some i, (set socks i (slot_with x sock_dgram r.0), r.1))) e)

-- Where a slot is free and its old descriptor is not -1, a stream socket can be opened but not closed:
-- `sock_close` fails and changes nothing, and the slot stays in use.
pub stream_leak :
    (destroyed : Option ℕ) (socks : List Sock) (pcbs : List UdpPcb) (i d : ℕ) (x : Sock)
    → sock_alloc socks ≡ some (i, x)
    → x.desc ≡ some d
    → let (id, after) = sock_open af_inet sock_stream 0 (socks, pcbs) in
      (id ≡ some i)
      × (sock_close destroyed i after ≡ (fail, after))
      × ((s : Sock) × (get_elem? after.0 i ≡ some s) × (s.used ≡ true))
unfolding sock_close slot_with
stream_leak destroyed socks pcbs i d x a e =
    let ((s, at), u) = alloc-get socks i x a in
    let y = slot_with x sock_stream (some d) in
    let g = get_set socks i s y at in
    rw (stream_opened socks pcbs i d x a e) (refl, rw (g, sock_close) refl, (y, g, u))

-- A datagram socket that is opened and closed gives its slot and its block back: the slot is cleared,
-- and the block is closed by `udp_close`.
pub dgram_open_close :
    (destroyed : Option ℕ) (socks : List Sock) (pcbs pcbs' : List UdpPcb) (i d : ℕ) (x : Sock)
    → sock_alloc socks ≡ some (i, x)
    → udp_open pcbs ≡ (some d, pcbs')
    → let (id, after) = sock_open af_inet sock_dgram 0 (socks, pcbs) in
      (id ≡ some i)
      × (sock_close destroyed i after ≡ (ok, (set socks i unused, (udp_close destroyed d pcbs').1)))
unfolding sock_close close_desc slot_with
dgram_open_close destroyed socks pcbs pcbs' i d x a e =
    let ((s, at), u) = alloc-get socks i x a in
    let y = slot_with x sock_dgram (some d) in
    rw (dgram_opened socks pcbs pcbs' i x (some d) a e) (
      refl,
      rw (get_set socks i s y at, sock_close)
          (ap (λ t. (ok, (t, (udp_close destroyed d pcbs').1))) (set-set socks i y unused)),
    )

-- Where no block can be opened, `sock_open` fails and yet leaves a slot in use.
pub dgram_leak :
    (socks : List Sock) (pcbs pcbs' : List UdpPcb) (i : ℕ) (x : Sock)
    → sock_alloc socks ≡ some (i, x)
    → udp_open pcbs ≡ (none, pcbs')
    → let (id, after) = sock_open af_inet sock_dgram 0 (socks, pcbs) in
      (id ≡ none) × ((s : Sock) × (get_elem? after.0 i ≡ some s) × (s.used ≡ true))
unfolding slot_with
dgram_leak socks pcbs pcbs' i x a e =
    let ((s, at), u) = alloc-get socks i x a in
    let y = slot_with x sock_dgram none in
    rw (dgram_opened socks pcbs pcbs' i x none a e) (refl, (y, get_set socks i s y at, u))
