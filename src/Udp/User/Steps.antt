-- ===== src/Udp/User/Steps.antt =====
-- The runs of the table of src/lib/udp.c: every function that changes it, in any order, with any
-- results of the allocator, of the condition variable and of the network.
use llnstack.Base.{ℕ, zero, suc, ◌≡◌, refl, Bool, false, Option, List, All, replicate}
use llnstack.Util.Endian.{Host}
use llnstack.Ip.Text.{Endpoint}
use llnstack.Ip.Route.{Route}
use llnstack.Udp.Pcb.{UdpPcb, blank, empty_pcbs, udp_pcb_size, event_handler}
use llnstack.Udp.Pcb.Valid.{IsClean, IsValid, Unique, clash}
use llnstack.Udp.Datagram.{udp_input}
use llnstack.Udp.User.{udp_open, udp_close, udp_bind, choose_source, recv_start, recv_resume}
use llnstack.Udp.User.Ports.{open-IsValid, close-IsValid, bind-IsValid, source-IsValid}
use llnstack.Udp.User.Receive.{input-IsValid, start-IsValid, resume-IsValid, event-IsValid}

pub data Step : List UdpPcb → List UdpPcb → Type 0 where
  opens : (pcbs : List UdpPcb) → Step pcbs (udp_open pcbs).1
  closes :
      (destroyed : Option ℕ) (id : ℕ) (pcbs : List UdpPcb)
      → Step pcbs (udp_close destroyed id pcbs).1
  binds : (id : ℕ) (local : Endpoint) (pcbs : List UdpPcb) → Step pcbs (udp_bind id local pcbs).1
  sends :
      (h : Host) (routes : List Route) (id : ℕ) (foreign : Endpoint) (pcbs : List UdpPcb)
      → Step pcbs (choose_source h routes id foreign pcbs).1
  arrives :
      (h : Host) (alloc alloc_link : Bool) (buf : List ℕ) (len src dst : ℕ) (pcbs : List UdpPcb)
      → Step pcbs (udp_input h alloc alloc_link buf len src dst pcbs)
  receives : (id size : ℕ) (pcbs : List UdpPcb) → Step pcbs (recv_start id size pcbs).1
  resumes :
      (destroyed : Option ℕ) (waited id size : ℕ) (pcbs : List UdpPcb)
      → Step pcbs (recv_resume destroyed waited id size pcbs).1
  interrupts : (pcbs : List UdpPcb) → Step pcbs (event_handler pcbs)

-- The tables that the runs from the static table lead to.
pub data Reached : List UdpPcb → Type 0 where
  start : Reached empty_pcbs
  next : (before after : List UdpPcb) → Reached before → Step before after → Reached after

pub Step-IsValid : (before after : List UdpPcb) → Step before after → IsValid before → IsValid after
Step-IsValid _ _ (opens pcbs) v = open-IsValid pcbs v
Step-IsValid _ _ (closes destroyed id pcbs) v = close-IsValid destroyed id pcbs v
Step-IsValid _ _ (binds id local pcbs) v = bind-IsValid id local pcbs v
Step-IsValid _ _ (sends h routes id foreign pcbs) v = source-IsValid h routes id foreign pcbs v
Step-IsValid _ _ (arrives h alloc alloc_link buf len src dst pcbs) v =
    input-IsValid h alloc alloc_link buf len src dst pcbs v
Step-IsValid _ _ (receives id size pcbs) v = start-IsValid id size pcbs v
Step-IsValid _ _ (resumes destroyed waited id size pcbs) v =
    resume-IsValid destroyed waited id size pcbs v
Step-IsValid _ _ (interrupts pcbs) v = event-IsValid pcbs v

blank-apart : (n : ℕ) → All (λ y. clash blank y ≡ false) (replicate n blank)
blank-apart zero = tt
blank-apart (suc n) = (refl, blank-apart n)

blank-Unique : (n : ℕ) → Unique (replicate n blank)
blank-Unique zero = tt
blank-Unique (suc n) = (blank-apart n, blank-Unique n)

blank-IsClean : (n : ℕ) → All IsClean (replicate n blank)
blank-IsClean zero = tt
blank-IsClean (suc n) = ((λ f. (refl, refl)), blank-IsClean n)

empty-IsValid : IsValid empty_pcbs
empty-IsValid = record { clean = blank-IsClean udp_pcb_size; unique = blank-Unique udp_pcb_size }

-- In every table that a run reaches, free blocks are unbound and have nothing queued, and no two open
-- blocks are bound to the same address and the same port, other than 0.
pub Reached-IsValid : (pcbs : List UdpPcb) → Reached pcbs → IsValid pcbs
Reached-IsValid _ start = empty-IsValid
Reached-IsValid _ (next before after r s) = Step-IsValid before after s (Reached-IsValid before r)
