-- ===== src/Udp/Pcb.antt =====
-- The table of protocol control blocks of src/lib/udp.c, used under its mutex. A block is named by
-- its place in the table, which is also its descriptor.
pub mod Select
pub mod Valid
use llnstack.Base.{
  ℕ, suc, ◌+◌, Bool, true, false, not, ◌&&◌, ◌||◌, Option, none, some, List, [], ◌∷◌, map,
  get_elem?, set, replicate, ltb, ◌==◌, if◌then◌else◌,
}
use llnstack.Ip.Text.{Endpoint}
use llnstack.Ip.Route.{ip_addr_any}
use llnstack.Sched.{SchedCtx, sched_ctx_init, sched_ctx_destroy, sched_wakeup, sched_interrupt}

abbrev pub udp_pcb_size : ℕ
udp_pcb_size = 16

-- UDP_PCB_STATE_FREE, _OPEN, _CLOSING
pub data PcbState : Type 0 where
  free open_ closing : PcbState

abbrev pub is_free : PcbState → Bool
is_free free = true
is_free _ = false

abbrev pub is_open : PcbState → Bool
is_open open_ = true
is_open _ = false

abbrev pub is_closing : PcbState → Bool
is_closing closing = true
is_closing _ = false

-- `struct udp_queue_entry` with the bytes behind it.
pub record Datagram : Type 0 where
  pub foreign : Endpoint
  pub bytes : List ℕ

-- `struct udp_pcb`
pub record UdpPcb : Type 0 where
  pub state : PcbState
  pub local : Endpoint
  pub queue : List Datagram
  pub ctx : SchedCtx

abbrev pub unbound : Endpoint
unbound = record { address = ip_addr_any; port = 0 }

-- A block as static storage starts.
abbrev pub blank : UdpPcb
blank = record {
  state = free;
  local = unbound;
  queue = [];
  ctx = record { interrupted = false; wc = 0 };
}

abbrev pub empty_pcbs : List UdpPcb
empty_pcbs = replicate udp_pcb_size blank

-- The place and the new table.
unfoldable pub udp_pcb_alloc : List UdpPcb → Option (ℕ × List UdpPcb)
udp_pcb_alloc [] = none
udp_pcb_alloc (pcb ∷ rest) =
    let later = udp_pcb_alloc rest in
    if is_free pcb.state
    then some (0, record pcb { state = open_; ctx = sched_ctx_init pcb.ctx } ∷ rest)
    else (elim later [ none ↦ none | some (i, rest') ↦ some (suc i, pcb ∷ rest') ])

-- The new content of the block; `destroyed` is what `pthread_cond_destroy` returns, `none` for -1.
unfoldable pub udp_pcb_release : Option ℕ → UdpPcb → UdpPcb
udp_pcb_release none pcb = record pcb { state = closing; ctx = sched_wakeup pcb.ctx }
udp_pcb_release (some n) pcb = record pcb { state = free; local = unbound; queue = [] }

-- The test of `udp_pcb_select`.
abbrev pub accepts : ℕ → ℕ → UdpPcb → Bool
accepts addr port pcb =
    is_open pcb.state
    && (((pcb.local.address == ip_addr_any) || (pcb.local.address == addr))
        && (pcb.local.port == port))

unfoldable pub select_from : ℕ → ℕ → ℕ → List UdpPcb → Option (ℕ × UdpPcb)
select_from i addr port [] = none
select_from i addr port (pcb ∷ rest) =
    if accepts addr port pcb then some (i, pcb) else select_from (suc i) addr port rest

unfoldable pub udp_pcb_select : ℕ → ℕ → List UdpPcb → Option (ℕ × UdpPcb)
udp_pcb_select addr port pcbs = select_from 0 addr port pcbs

-- The open block of a descriptor. A negative descriptor, like one out of range, gives NULL; here
-- descriptors are not negative.
unfoldable pub udp_pcb_get : ℕ → List UdpPcb → Option UdpPcb
udp_pcb_get id pcbs = elim (get_elem? pcbs id) [
  | none ↦ none
  | some pcb ↦ if is_open pcb.state then some pcb else none
]

-- `event_handler`
unfoldable pub event_handler : List UdpPcb → List UdpPcb
event_handler pcbs =
    map (λ pcb. if is_open pcb.state then record pcb { ctx = sched_interrupt pcb.ctx } else pcb)
      pcbs
