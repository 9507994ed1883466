-- ===== src/Udp/User/Delivery.antt =====
-- From `udp_input` to `udp_recvfrom` in src/lib/udp.c.
use llnstack.Base.{
  ℕ, zero, suc, ◌≡◌, refl, sym, ap, ◌∙◌, inl, inr, true, false, some, List, [], ◌∷◌, ◌++◌,
  get_elem?, set, take, min, length, arith,
}
use llnstack.Util.Endian.{Host}
use llnstack.Util.Packed.{field16}
use llnstack.Sched.{sched_wakeup}
use llnstack.Udp.Pcb.{is_open, UdpPcb, Datagram, udp_pcb_get, udp_pcb_select}
use llnstack.Udp.Pcb.Select.{udp_pcb_select_lem}
use llnstack.Udp.Datagram.{bad_datagram, datagram_of, udp_input}
use llnstack.Udp.User.{received, recv_loop, recv_start}
use llnstack.Udp.User.Receive.{set_self}

set-set :
    (pcbs : List UdpPcb) (i : ℕ) (x y z : UdpPcb)
    → get_elem? pcbs i ≡ some x
    → z ≡ x
    → set (set pcbs i y) i z ≡ pcbs
set-set [] i x y z e same = refl
set-set (w ∷ rest) zero x y z e same = ground (arith, e, same)
set-set (w ∷ rest) (suc i) x y z e same = ap (λ r. w ∷ r) (set-set rest i x y z e same)

get_set :
    (pcbs : List UdpPcb) (i : ℕ) (x y : UdpPcb)
    → get_elem? pcbs i ≡ some x
    → is_open y.state ≡ true
    → udp_pcb_get i (set pcbs i y) ≡ some y
unfolding udp_pcb_get
get_set pcbs i x y e is = rw (set_self pcbs i x y e, udp_pcb_get) (ground (arith, is))

pub select-get :
    (addr port : ℕ) (pcbs : List UdpPcb) (id : ℕ) (x : UdpPcb)
    → udp_pcb_select addr port pcbs ≡ some (id, x)
    → (get_elem? pcbs id ≡ some x) × (is_open x.state ≡ true)
select-get addr port pcbs id x s = elim (udp_pcb_select_lem addr port pcbs) [
  | inl (n, all) ↦ absurd (cc)
  | inr (j, y, e, at, a, first) ↦
      let open_y : is_open y.state ≡ true = ground (arith, a) in
      let same : y ≡ x = cc in
      let place : j ≡ id = cc in (cc, ap (λ b. is_open b.state) (sym same) ∙ open_y)
]

abbrev pub with_one : UdpPcb → Datagram → UdpPcb
with_one x d = record x { queue = d ∷ [] }

input_eq :
    (h : Host) (buf : List ℕ) (len src dst id : ℕ) (x : UdpPcb) (pcbs : List UdpPcb)
    → bad_datagram h buf len src dst ≡ false
    → udp_pcb_select dst (field16 h buf 2) pcbs ≡ some (id, x)
    → x.queue ≡ []
    → udp_input h true true buf len src dst pcbs
      ≡ set pcbs id (with_one x (datagram_of h buf len src))
unfolding udp_input sched_wakeup
input_eq h buf len src dst id x pcbs good s q =
    rw (good, s, udp_input)
      (ap (λ r. set pcbs id (record x { queue = r ++ datagram_of h buf len src ∷ [] })) q)

pub receive_one :
    (size id : ℕ) (x : UdpPcb) (d : Datagram) (pcbs : List UdpPcb)
    → get_elem? pcbs id ≡ some x
    → is_open x.state ≡ true
    → x.queue ≡ []
    → recv_start id size (set pcbs id (with_one x d))
      ≡ (received d.foreign (take (min size (length d.bytes)) d.bytes), pcbs)
unfolding recv_start recv_loop
receive_one size id x d pcbs at is q =
    rw (get_set pcbs id x (with_one x d) at is, recv_start)
      (ap (λ r. (received d.foreign (take (min size (length d.bytes)) d.bytes), r))
        (set-set pcbs id x (with_one x d) (record x { queue = [] }) at (ground (arith, q))))

-- A datagram that passes the tests of `udp_input`, and for which a block with nothing queued is
-- selected, is what the next `udp_recvfrom` at that block returns, with memory at hand: its sender,
-- and its first bytes, as many as the buffer holds; the table is then as it was.
pub input_receive :
    (h : Host) (buf : List ℕ) (len src dst size id : ℕ) (x : UdpPcb) (pcbs : List UdpPcb)
    → bad_datagram h buf len src dst ≡ false
    → udp_pcb_select dst (field16 h buf 2) pcbs ≡ some (id, x)
    → x.queue ≡ []
    → let d = datagram_of h buf len src in
      recv_start id size (udp_input h true true buf len src dst pcbs)
      ≡ (received d.foreign (take (min size (length d.bytes)) d.bytes), pcbs)
input_receive h buf len src dst size id x pcbs good s q =
    let (at, is) = select-get dst (field16 h buf 2) pcbs id x s in
    ap (recv_start id size) (input_eq h buf len src dst id x pcbs good s q)
    ∙ receive_one size id x (datagram_of h buf len src) pcbs at is q
