-- ===== src/Udp/User/Receive.antt =====
-- The receive queue of a block of src/lib/udp.c: `udp_input` fills it, `udp_recvfrom` empties it; and
-- the invariant of the table over every run.
use llnstack.Base.{
  ℕ, zero, suc, ◌≡◌, refl, inl, inr, Bool, true, false, Option, none, some, List, [], ◌∷◌, ◌++◌,
  All, map, get_elem?, set, Bool-cases, Option-cases, if◌then◌else◌, arith,
}
use llnstack.Util.Endian.{Host}
use llnstack.Util.Packed.{field16}
use llnstack.Sched.{sleep_begin, sleep_end, sched_wakeup, sched_interrupt}
use llnstack.Udp.Pcb.{is_open, is_closing, UdpPcb, Datagram, udp_pcb_get, event_handler}
use llnstack.Udp.Pcb.Select.{udp_pcb_select_lem}
use llnstack.Udp.Pcb.Valid.{IsClean, IsValid, ApartFrom, Unique, All-get, IsValid-set_same}
use llnstack.Udp.Datagram.{bad_datagram, datagram_of, udp_input}
use llnstack.Udp.User.{recv_loop, recv_start, recv_woken, recv_resume}
use llnstack.Udp.User.Ports.{get-open, release-IsValid}

queued-IsValid :
    (alloc alloc_link : Bool) (j : ℕ) (x : UdpPcb) (d : Datagram) (pcbs : List UdpPcb)
    → get_elem? pcbs j ≡ some x
    → is_open x.state ≡ true
    → IsValid pcbs
    → IsValid (
        if alloc
        then (if alloc_link
            then set pcbs j (record x { queue = x.queue ++ d ∷ []; ctx = sched_wakeup x.ctx })
            else pcbs)
        else pcbs)
queued-IsValid false alloc_link j x d pcbs at is v = v
queued-IsValid true false j x d pcbs at is v = v
queued-IsValid true true j x d pcbs at is v =
    IsValid-set_same pcbs j x (record x { queue = x.queue ++ d ∷ []; ctx = sched_wakeup x.ctx }) at
      refl refl (λ c. absurd (ground (arith, is))) v

pub input-IsValid :
    (h : Host) (alloc alloc_link : Bool) (buf : List ℕ) (len src dst : ℕ) (pcbs : List UdpPcb)
    → IsValid pcbs
    → IsValid (udp_input h alloc alloc_link buf len src dst pcbs)
unfolding udp_input
input-IsValid h alloc alloc_link buf len src dst pcbs v =
    elim (Bool-cases (bad_datagram h buf len src dst)) [
      | inl bad ↦ rw (bad, udp_input) v
      | inr good ↦ elim (udp_pcb_select_lem dst (field16 h buf 2) pcbs) [
        | inl (n, all) ↦ rw (good, n, udp_input) v
        | inr (j, x, s, at, a, first) ↦
            rw (good, s, udp_input)
              (queued-IsValid alloc alloc_link j x (datagram_of h buf len src) pcbs at
                (ground (arith, a)) v)
      ]
    ]

pub loop-IsValid :
    (id size : ℕ) (pcb : UdpPcb) (queue : List Datagram) (pcbs : List UdpPcb)
    → get_elem? pcbs id ≡ some pcb
    → queue ≡ pcb.queue
    → IsValid pcbs
    → IsValid (recv_loop id size pcb queue pcbs).1
unfolding recv_loop
loop-IsValid id size pcb (d ∷ queue) pcbs at same v =
    IsValid-set_same pcbs id pcb (record pcb { queue = queue }) at refl refl
      (λ c. let (l, q) = All-get IsClean pcbs id pcb v.clean at c in absurd (cc)) v
loop-IsValid id size pcb [] pcbs at same v = elim (Option-cases (sleep_begin pcb.ctx)) [
  | inl n ↦ rw (n, recv_loop) v
  | inr (ctx, s) ↦
      rw (s, recv_loop)
        (IsValid-set_same pcbs id pcb (record pcb { ctx = ctx }) at refl refl
          (All-get IsClean pcbs id pcb v.clean at) v)
]

pub start-IsValid :
    (id size : ℕ) (pcbs : List UdpPcb) → IsValid pcbs → IsValid (recv_start id size pcbs).1
unfolding recv_start
start-IsValid id size pcbs v = elim (Option-cases (udp_pcb_get id pcbs)) [
  | inl n ↦ rw (n, recv_start) v
  | inr (x, s) ↦
      let (at, is) = get-open id pcbs x s in
      rw (s, recv_start) (loop-IsValid id size x x.queue pcbs at refl v)
]

interrupted : UdpPcb → UdpPcb
interrupted pcb = if is_open pcb.state then record pcb { ctx = sched_interrupt pcb.ctx } else pcb

interrupted-ApartFrom :
    (x : UdpPcb) (pcbs : List UdpPcb)
    → ApartFrom x pcbs
    → ApartFrom (interrupted x) (map interrupted pcbs)
unfolding interrupted
interrupted-ApartFrom x [] a = tt
interrupted-ApartFrom x (y ∷ rest) a = (ground (arith, a.0), interrupted-ApartFrom x rest a.1)

interrupted-Unique : (pcbs : List UdpPcb) → Unique pcbs → Unique (map interrupted pcbs)
interrupted-Unique [] u = tt
interrupted-Unique (x ∷ rest) u = (interrupted-ApartFrom x rest u.0, interrupted-Unique rest u.1)

interrupted-IsClean : (pcbs : List UdpPcb) → All IsClean pcbs → All IsClean (map interrupted pcbs)
unfolding interrupted
interrupted-IsClean [] c = tt
interrupted-IsClean (x ∷ rest) c = (ground (arith, c.0), interrupted-IsClean rest c.1)

pub event-IsValid : (pcbs : List UdpPcb) → IsValid pcbs → IsValid (event_handler pcbs)
unfolding event_handler interrupted
event-IsValid pcbs v = record {
  clean = interrupted-IsClean pcbs v.clean;
  unique = interrupted-Unique pcbs v.unique;
}

pub set_self :
    (pcbs : List UdpPcb) (i : ℕ) (x y : UdpPcb)
    → get_elem? pcbs i ≡ some x
    → get_elem? (set pcbs i y) i ≡ some y
set_self [] i x y e = absurd (cc)
set_self (z ∷ rest) zero x y e = refl
set_self (z ∷ rest) (suc i) x y e = set_self rest i x y e

woken-IsValid :
    (destroyed : Option ℕ) (id size : ℕ) (x y : UdpPcb) (slept : Option ℕ) (pcbs : List UdpPcb)
    → get_elem? pcbs id ≡ some x
    → IsValid (set pcbs id y)
    → IsValid pcbs
    → IsValid (recv_woken destroyed id size y slept pcbs).1
unfolding recv_woken
woken-IsValid destroyed id size x y none pcbs at w v = w
woken-IsValid destroyed id size x y (some waited) pcbs at w v =
    elim (Bool-cases (is_closing y.state)) [
      | inl c ↦ rw (c, recv_woken) (release-IsValid destroyed pcbs id y v)
      | inr n ↦
          rw (n, recv_woken)
            (loop-IsValid id size y y.queue (set pcbs id y) (set_self pcbs id x y at) refl w)
    ]

pub resume-IsValid :
    (destroyed : Option ℕ) (waited id size : ℕ) (pcbs : List UdpPcb)
    → IsValid pcbs
    → IsValid (recv_resume destroyed waited id size pcbs).1
unfolding recv_resume
resume-IsValid destroyed waited id size pcbs v = elim (Option-cases (get_elem? pcbs id)) [
  | inl n ↦ rw (n, recv_resume) v
  | inr (x, at) ↦
      let ctx = (sleep_end waited x.ctx).1 in
      let y : UdpPcb = record x { ctx = ctx } in
      rw (at, recv_resume)
        (woken-IsValid destroyed id size x y (sleep_end waited x.ctx).0 pcbs at
          (IsValid-set_same pcbs id x y at refl refl (All-get IsClean pcbs id x v.clean at) v) v)
]
