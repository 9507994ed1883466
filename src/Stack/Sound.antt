-- ===== src/Stack/Sound.antt =====
-- What every state of the running stack has, whatever the signals, the packets and the calls of the user.
pub mod Handlers
pub mod Thread
pub mod Reached
pub mod Ends
use llnstack.Base.{◌≡◌, Option, none, some, List, [], ◌∷◌}
use llnstack.Net.{network_protocol_type_ip, network_protocol_type_arp}
use llnstack.Net.Protocol.{Packet, Protocol}
use llnstack.Arp.Cache.Select.{Distinct}
use llnstack.Udp.Pcb.Valid.{IsValid}
use llnstack.Intr.{Irqs}
use llnstack.Intr.Table
use llnstack.Stack.{ProtocolHandler, arp_handler, ip_handler, Wire, Stack}

abbrev pub table : List Packet → List Packet → List (Protocol ProtocolHandler)
table ip arp =
    record { type = network_protocol_type_ip; queue = ip; handler = ip_handler }
    ∷ record { type = network_protocol_type_arp; queue = arp; handler = arp_handler }
    ∷ []

-- The protocols are IP and ARP with their handlers, whatever waits.
abbrev pub IsTable : List (Protocol ProtocolHandler) → Type 0
IsTable protocols = (ip : List Packet) × (arp : List Packet) × (protocols ≡ table ip arp)

-- At most one cache entry for an address; free blocks of UDP clean, and no two bound alike; the
-- interrupts of one signal shared and all in the mask; and the protocols in their table.
pub record IsSound {O : Type 0} (s : Stack O) : Type 0 where
  pub caches : Distinct s.sending.caches
  pub pcbs : IsValid s.pcbs
  pub irqs : Table.IsSound s.irqs
  pub protocols : IsTable s.sending.driver.protocols

module _ {O : Type 0} where
  abbrev pub WireIsTable : Wire O → Type 0
  WireIsTable w = IsTable w.protocols

  -- What a handler leaves, if it ends.
  abbrev pub IsSoundIfSome : Option (Stack O) → Type 0
  IsSoundIfSome none = Unit {0}
  IsSoundIfSome (some s) = IsSound s
