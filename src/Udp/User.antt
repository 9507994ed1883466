-- ===== src/Udp/User.antt =====
-- The calls of the user in src/lib/udp.c: open, close, bind, sendto and recvfrom. Each runs under the
-- mutex, but for the wait of `udp_recvfrom` and the output of `udp_sendto`.
pub mod Ports
pub mod Receive
pub mod Delivery
pub mod Steps
use llnstack.Base.{
  ℕ, zero, suc, ◌+◌, Bool, true, false, Option, none, some, List, [], ◌∷◌, length, take, min, set,
  get_elem?, ◌==◌, ◌!=◌, if◌then◌else◌,
}
use llnstack.Util.Endian.{Host, hton16}
use llnstack.Net.{Status, ok, fail, Device, Transmit}
use llnstack.Net.Timer.{Timeval}
use llnstack.Ip.Text.{Endpoint}
use llnstack.Ip.Route.{Route, ip_addr_any, ip_get_interface}
use llnstack.Ip.Packet.{Size, Sending}
use llnstack.Sched.{sleep_begin, sleep_end}
use llnstack.Udp.Pcb.{
  UdpPcb, Datagram, closing, is_closing, udp_pcb_alloc, udp_pcb_release, udp_pcb_select,
  udp_pcb_get,
}
use llnstack.Udp.Datagram.{udp_output}

-- The descriptor; `none` is -1.
unfoldable pub udp_open : List UdpPcb → Option ℕ × List UdpPcb
udp_open pcbs = elim (udp_pcb_alloc pcbs) [
  | none ↦ (none, pcbs)
  | some (i, pcbs') ↦ (some i, pcbs')
]

unfoldable pub udp_close : Option ℕ → ℕ → List UdpPcb → Status × List UdpPcb
udp_close destroyed id pcbs = elim (udp_pcb_get id pcbs) [
  | none ↦ (fail, pcbs)
  | some pcb ↦ (ok, set pcbs id (udp_pcb_release destroyed pcb))
]

unfoldable pub udp_bind : ℕ → Endpoint → List UdpPcb → Status × List UdpPcb
udp_bind id local pcbs = elim (udp_pcb_get id pcbs) [
  | none ↦ (fail, pcbs)
  | some pcb ↦ elim (udp_pcb_select local.address local.port pcbs) [
    | some exist ↦ (fail, pcbs)
    | none ↦ (ok, set pcbs id (record pcb { local = local }))
  ]
]

abbrev pub udp_source_port_min : ℕ
udp_source_port_min = 49152

-- UDP_SOURCE_PORT_MAX - UDP_SOURCE_PORT_MIN + 1
abbrev pub udp_source_ports : ℕ
udp_source_ports = 16384

-- The loop over the dynamic ports from `p` on, `n` of them: the first, in network byte order, that no
-- block accepts.
unfoldable pub free_port : Host → ℕ → ℕ → ℕ → List UdpPcb → Option ℕ
free_port h addr zero p pcbs = none
free_port h addr (suc n) p pcbs = elim (udp_pcb_select addr (hton16 h p) pcbs) [
  | none ↦ some (hton16 h p)
  | some exist ↦ free_port h addr n (suc p) pcbs
]

-- The local address of `udp_sendto`: the block's own, or that of the interface towards the peer.
unfoldable pub source_address : Host → List Route → UdpPcb → Endpoint → Option ℕ
source_address h routes pcb foreign =
    if pcb.local.address == ip_addr_any
    then (elim (ip_get_interface h foreign.address routes) [
      | none ↦ none
      | some iface ↦ some iface.unicast
    ])
    else some pcb.local.address

-- The port that `udp_sendto` uses with its table: the block's own, or a free one that it takes.
unfoldable pub source_port : Host → ℕ → ℕ → UdpPcb → List UdpPcb → Option ℕ × List UdpPcb
source_port h id addr pcb pcbs =
    if pcb.local.port != 0
    then (some pcb.local.port, pcbs)
    else (elim (free_port h addr udp_source_ports udp_source_port_min pcbs) [
      | none ↦ (none, pcbs)
      | some port ↦ (
        some port,
        set pcbs id (record pcb { local = record { address = pcb.local.address; port = port } }),
      )
    ])

-- `udp_sendto` under the mutex: the local endpoint, and the table.
unfoldable pub choose_source :
    Host → List Route → ℕ → Endpoint → List UdpPcb → Option Endpoint × List UdpPcb
choose_source h routes id foreign pcbs = elim (udp_pcb_get id pcbs) [
  | none ↦ (none, pcbs)
  | some pcb ↦ elim (source_address h routes pcb foreign) [
    | none ↦ (none, pcbs)
    | some addr ↦
        let (port, pcbs') = source_port h id addr pcb pcbs in
        elim port [
          | none ↦ (none, pcbs')
          | some p ↦ (some (record { address = addr; port = p }), pcbs')
        ]
  ]
]

module _ {S : Type 0} (h : Host) (transmit : Transmit S) (now : Timeval) (device : ℕ → Device) where
  unfoldable pub udp_sendto :
      List Route → ℕ → List ℕ → Endpoint → List UdpPcb × Sending S → Size × List UdpPcb × Sending S
  udp_sendto routes id payload foreign (pcbs, w) =
      let (local, pcbs') = choose_source h routes id foreign pcbs in
      elim local [
        | none ↦ (none, pcbs', w)
        | some src ↦
            let (sent, w') = udp_output h transmit now device routes src foreign payload w in
            (sent, pcbs', w')
      ]

-- Where a call of `udp_recvfrom` stands: returned with -1, returned with a sender and the bytes copied
-- to the buffer, or asleep on the context of its block.
pub data Receiving : Type 0 where
  failed : Receiving
  received : Endpoint → List ℕ → Receiving
  asleep : Receiving

-- The body of the loop from the pop on, at the block `pcb` of the place `id`.
unfoldable pub recv_loop : ℕ → ℕ → UdpPcb → List Datagram → List UdpPcb → Receiving × List UdpPcb
recv_loop id size pcb (d ∷ queue) pcbs = (
  received d.foreign (take (min size (length d.bytes)) d.bytes),
  set pcbs id (record pcb { queue = queue }),
)
recv_loop id size pcb [] pcbs = elim (sleep_begin pcb.ctx) [
  | none ↦ (failed, pcbs)
  | some ctx ↦ (asleep, set pcbs id (record pcb { ctx = ctx }))
]

unfoldable pub recv_start : ℕ → ℕ → List UdpPcb → Receiving × List UdpPcb
recv_start id size pcbs = elim (udp_pcb_get id pcbs) [
  | none ↦ (failed, pcbs)
  | some pcb ↦ recv_loop id size pcb pcb.queue pcbs
]

-- The block keeps its place while the call sleeps; `waited` is what the wait returned.
recv_woken : Option ℕ → ℕ → ℕ → UdpPcb → Option ℕ → List UdpPcb → Receiving × List UdpPcb
recv_woken destroyed id size pcb none pcbs = (failed, set pcbs id pcb)
recv_woken destroyed id size pcb (some waited) pcbs =
    if is_closing pcb.state
    then (failed, set pcbs id (udp_pcb_release destroyed pcb))
    else recv_loop id size pcb pcb.queue (set pcbs id pcb)

unfoldable pub recv_resume : Option ℕ → ℕ → ℕ → ℕ → List UdpPcb → Receiving × List UdpPcb
unfolding recv_woken
recv_resume destroyed waited id size pcbs = elim (get_elem? pcbs id) [
  | none ↦ (failed, pcbs)
  | some pcb ↦
      let (slept, ctx) = sleep_end waited pcb.ctx in
      recv_woken destroyed id size (record pcb { ctx = ctx }) slept pcbs
]
