-- ===== src/Udp/User/Ports.antt =====
-- The table of src/lib/udp.c under `udp_open`, `udp_close`, `udp_bind` and the choice of a source
-- endpoint in `udp_sendto`.
use llnstack.Base.{
  ℕ, zero, suc, ◌+◌, ◌≡◌, ◌≤◌, ◌<◌, refl, sym, ap, ◌⊎◌, inl, inr, true, false, Option, none, some,
  List, [], ◌∷◌, All, get_elem?, set, Bool-cases, Option-cases, ◌!=◌, arith,
}
use mathlib.Core.Path.{subst}
use llnstack.Util.Endian.{Host, hton16}
use llnstack.Ip.Text.{Endpoint}
use llnstack.Ip.Route.{Route}
use llnstack.Sched.{sched_ctx_init}
use llnstack.Udp.Pcb.{
  open_, is_free, is_open, UdpPcb, udp_pcb_alloc, udp_pcb_release, udp_pcb_get, udp_pcb_select,
}
use llnstack.Udp.Pcb.Select.{NoneAccepts, none-NoneAccepts}
use llnstack.Udp.Pcb.Valid.{
  IsClean, IsValid, All-get, IsValid-set, ApartFrom-idle, ApartFrom-unaccepted,
}
use llnstack.Udp.User.{
  udp_open, udp_close, udp_bind, free_port, source_address, source_port, choose_source,
  udp_source_port_min, udp_source_ports,
}

opened : UdpPcb → UdpPcb
opened pcb = record pcb { state = open_; ctx = sched_ctx_init pcb.ctx }

-- Either no block is free, or a free one is opened.
Allocated : List UdpPcb → Option (ℕ × List UdpPcb) → Type 0
Allocated pcbs r =
    ((r ≡ none) × All (λ x. is_free x.state ≡ false) pcbs)
    ⊎ ((i : ℕ) × (pcb : UdpPcb) × (r ≡ some (i, set pcbs i (opened pcb)))
        × (get_elem? pcbs i ≡ some pcb)
        × (is_free pcb.state ≡ true))

alloc-Allocated : (pcbs : List UdpPcb) → Allocated pcbs (udp_pcb_alloc pcbs)
unfolding udp_pcb_alloc Allocated opened
alloc-Allocated [] = inl (refl, tt)
alloc-Allocated (x ∷ rest) = elim (Bool-cases (is_free x.state)) [
  | inl f ↦ inr (0, x, rw f refl, refl, f)
  | inr n ↦ elim (alloc-Allocated rest) [
    | inl (e, all) ↦ inl (rw (n, e) refl, (n, all))
    | inr (i, pcb, e, at, f) ↦ inr (suc i, pcb, rw (n, e) refl, at, f)
  ]
]

pub open-IsValid : (pcbs : List UdpPcb) → IsValid pcbs → IsValid (udp_open pcbs).1
unfolding udp_open Allocated opened
open-IsValid pcbs v = elim (alloc-Allocated pcbs) [
  | inl (e, all) ↦ rw (e, udp_open) v
  | inr (i, pcb, e, at, f) ↦
      let (bare, empty) = All-get IsClean pcbs i pcb v.clean at f in
      rw (e, udp_open)
        (IsValid-set pcbs i (opened pcb) (λ c. absurd (cc))
          (ApartFrom-idle (opened pcb) pcbs (inr (ap (λ l. l.port) bare))) v)
]

pub get-open :
    (id : ℕ) (pcbs : List UdpPcb) (pcb : UdpPcb)
    → udp_pcb_get id pcbs ≡ some pcb
    → (get_elem? pcbs id ≡ some pcb) × (is_open pcb.state ≡ true)
unfolding udp_pcb_get
get-open id pcbs pcb e = elim (Option-cases (get_elem? pcbs id)) [
  | inl n ↦ ground (arith, n)
  | inr (x, s) ↦ ground (arith, s)
]

pub release-IsValid :
    (destroyed : Option ℕ) (pcbs : List UdpPcb) (i : ℕ) (pcb : UdpPcb)
    → IsValid pcbs
    → IsValid (set pcbs i (udp_pcb_release destroyed pcb))
unfolding udp_pcb_release
release-IsValid none pcbs i pcb v =
    IsValid-set pcbs i (udp_pcb_release none pcb) (λ f. absurd (cc))
      (ApartFrom-idle (udp_pcb_release none pcb) pcbs (inl refl)) v
release-IsValid (some n) pcbs i pcb v =
    IsValid-set pcbs i (udp_pcb_release (some n) pcb) (λ f. (refl, refl))
      (ApartFrom-idle (udp_pcb_release (some n) pcb) pcbs (inl refl)) v

pub close-IsValid :
    (destroyed : Option ℕ) (id : ℕ) (pcbs : List UdpPcb)
    → IsValid pcbs
    → IsValid (udp_close destroyed id pcbs).1
unfolding udp_close
close-IsValid destroyed id pcbs v = elim (Option-cases (udp_pcb_get id pcbs)) [
  | inl n ↦ rw (n, udp_close) v
  | inr (x, s) ↦ rw (s, udp_close) (release-IsValid destroyed pcbs id x v)
]

pub bind-IsValid :
    (id : ℕ) (local : Endpoint) (pcbs : List UdpPcb)
    → IsValid pcbs
    → IsValid (udp_bind id local pcbs).1
unfolding udp_bind
bind-IsValid id local pcbs v = elim (Option-cases (udp_pcb_get id pcbs)) [
  | inl n ↦ rw (n, udp_bind) v
  | inr (x, s) ↦ elim (Option-cases (udp_pcb_select local.address local.port pcbs)) [
    | inr (y, t) ↦ rw (s, t, udp_bind) v
    | inl free_end ↦
        let (at, is) = get-open id pcbs x s in
        let y : UdpPcb = record x { local = local } in
        rw (s, free_end, udp_bind)
          (IsValid-set pcbs id y (λ c. absurd (ground (arith, is)))
            (ApartFrom-unaccepted y local.address pcbs (inl refl)
              (none-NoneAccepts local.address local.port pcbs free_end))
            v)
  ]
]

-- A port that the search of `udp_sendto` finds is one of the ports searched, in network byte order, and no
-- open block accepts it with the address.
pub free_port_lem :
    (h : Host) (addr n p : ℕ) (pcbs : List UdpPcb) (port : ℕ)
    → free_port h addr n p pcbs ≡ some port
    → ((q : ℕ) × (p ≤ q) × (q < p + n) × (port ≡ hton16 h q)) × NoneAccepts addr port pcbs
unfolding free_port
free_port_lem h addr zero p pcbs port e = absurd (cc)
free_port_lem h addr (suc n) p pcbs port e =
    elim (Option-cases (udp_pcb_select addr (hton16 h p) pcbs)) [
      | inl f ↦
          let same : hton16 h p ≡ port = ground (arith, e, f) in
          (
            (p, omega arith, omega arith, sym same),
            subst (λ q. NoneAccepts addr q pcbs) same (none-NoneAccepts addr (hton16 h p) pcbs f),
          )
      | inr (x, s) ↦
          let later : free_port h addr n (suc p) pcbs ≡ some port = ground (arith, e, s) in
          let ((q, low, high, is), free_end) = free_port_lem h addr n (suc p) pcbs port later in
          ((q, omega arith, omega arith, is), free_end)
    ]

source_address_lem :
    (h : Host) (routes : List Route) (pcb : UdpPcb) (foreign : Endpoint) (addr : ℕ)
    → source_address h routes pcb foreign ≡ some addr
    → (pcb.local.address ≡ addr) ⊎ (pcb.local.address ≡ 0)
unfolding source_address
source_address_lem h routes pcb foreign addr e = ground arith

source_port-IsValid :
    (h : Host) (id addr : ℕ) (pcb : UdpPcb) (pcbs : List UdpPcb)
    → is_open pcb.state ≡ true
    → (pcb.local.address ≡ addr) ⊎ (pcb.local.address ≡ 0)
    → IsValid pcbs
    → IsValid (source_port h id addr pcb pcbs).1
unfolding source_port
source_port-IsValid h id addr pcb pcbs is own v = elim (Bool-cases (pcb.local.port != 0)) [
  | inl bound ↦ rw (bound, source_port) v
  | inr loose ↦ elim (Option-cases (free_port h addr udp_source_ports udp_source_port_min pcbs)) [
    | inl n ↦ rw (loose, n, source_port) v
    | inr (port, s) ↦
        let y : UdpPcb = record pcb {
          local = record { address = pcb.local.address; port = port };
        } in
        let (q, free_end) = free_port_lem h addr udp_source_ports udp_source_port_min pcbs port s in
        rw (loose, s, source_port)
          (IsValid-set pcbs id y (λ c. absurd (ground (arith, is)))
            (ApartFrom-unaccepted y addr pcbs own free_end) v)
  ]
]

pub source-IsValid :
    (h : Host) (routes : List Route) (id : ℕ) (foreign : Endpoint) (pcbs : List UdpPcb)
    → IsValid pcbs
    → IsValid (choose_source h routes id foreign pcbs).1
unfolding choose_source
source-IsValid h routes id foreign pcbs v = elim (Option-cases (udp_pcb_get id pcbs)) [
  | inl n ↦ rw (n, choose_source) v
  | inr (x, s) ↦ elim (Option-cases (source_address h routes x foreign)) [
    | inl n ↦ rw (s, n, choose_source) v
    | inr (addr, t) ↦
        let (at, is) = get-open id pcbs x s in
        let valid =
          source_port-IsValid h id addr x pcbs is (source_address_lem h routes x foreign addr t)
            v in
        elim (Option-cases (source_port h id addr x pcbs).0) [
          | inl n ↦ rw (s, t, n, choose_source) valid
          | inr (p, e) ↦ rw (s, t, e, choose_source) valid
        ]
  ]
]
