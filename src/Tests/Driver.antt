-- ===== src/Tests/Driver.antt =====
-- The theorems on handler/interrupt.c, handler/tap.c, handler/pcap.c and the addresses of src/lib/ether.c at
-- concrete inputs.
use llnstack.Base.{
  ℕ, ◌+◌, ◌%◌, ◌^◌, ◌≡◌, refl, ◌⊎◌, ◌++◌, true, false, none, some, List, [], ◌∷◌, All, arith,
}
use llnstack.Util.Endian.{little}
use llnstack.Net.{ok, fail, Devices, zero_device}
use llnstack.Net.Protocol.{Protocol}
use llnstack.Intr.{IrqEntry, Irqs, intr_request_irq, network_irq_shared}
use llnstack.Intr.Table.{IsSound, Agree, intr_request_irq_lem}
use llnstack.Ether.Address.{ether_addr_pton, ether_addr_ntop}
use llnstack.Ether.Address.RoundTrip.{ether_addr_round_trip}
use llnstack.Driver.{Fds, Driven, Poll, interrupted, ready, idle, Room, ether_init, ether_isr}
use llnstack.Driver.Tap.{TapCalls, ether_tap_open, ether_tap_close}
use llnstack.Driver.Pcap.{PcapCalls, ether_pcap_open, ether_pcap_close}
use llnstack.Driver.Descriptors.{Held, open_leaks_none}
use llnstack.Driver.Input.{taken, waiting_at, end_of, frames_of, ether_isr_lem}
use llnstack.Driver.Init.{Gives, IsBad, ethernet_with, ether_init_lem}
use llnstack.Tests.{ethernet}

-- One handler, of the signal 36, after `intr_init`; handlers are numbers.
abbrev irqs : Irqs ℕ
irqs = record {
  irq_vec = record { irq = 36; handler = 5; flags = network_irq_shared; dev = 0 } ∷ [];
  sigmask = 36 ∷ 10 ∷ 12 ∷ 14 ∷ [];
}

abbrev irqs-IsSound : IsSound irqs
irqs-IsSound = record {
  compatible = (tt, tt);
  masked = (refl, tt);
  usr1 = refl;
  usr2 = refl;
  alrm = refl;
}

-- A second, shared handler of the same signal.
intr_request_irq_lem_example :
    let (status, t') = intr_request_irq true 36 7 network_irq_shared 1 irqs in
    let x : IrqEntry ℕ = record { irq = 36; handler = 7; flags = network_irq_shared; dev = 1 } in
    IsSound t'
    × (((status ≡ ok)
          × (true ≡ true)
          × All (Agree x) irqs.irq_vec
          × (t'.irq_vec ≡ x ∷ irqs.irq_vec))
        ⊎ ((status ≡ fail) × (t' ≡ irqs) × ((¬ All (Agree x) irqs.irq_vec) ⊎ (true ≡ false))))
intr_request_irq_lem_example = intr_request_irq_lem true 36 7 network_irq_shared 1 irqs irqs-IsSound

-- 00:00:5e:00:53:01
abbrev address : List ℕ
address = 0 ∷ 0 ∷ 94 ∷ 0 ∷ 83 ∷ 1 ∷ []

ether_addr_round_trip_example : ether_addr_pton (ether_addr_ntop address 18) ≡ some address
ether_addr_round_trip_example =
    ether_addr_round_trip 0 0 94 0 83 1 18 (omega arith) (omega arith) (omega arith) (omega arith)
      (omega arith) (omega arith) (omega arith)

-- The descriptor 3 is free; SIOCGIFHWADDR fails for the one driver, the bind for the other.
abbrev tap : TapCalls
tap = record {
  open_clone = some 3;
  set_iff = true;
  set_own = true;
  set_async = true;
  set_sig = true;
  socket = some 4;
  hwaddr = none;
}

abbrev pcap : PcapCalls
pcap = record {
  open_packet = some 3;
  get_index = true;
  bind = false;
  get_flags = true;
  set_flags = true;
  set_own = true;
  set_async = true;
  set_sig = true;
  socket = some 4;
  hwaddr = some address;
}

abbrev driven : Driven
driven = record { device = zero_device; fd = none }

abbrev fds : Fds
fds = 0 ∷ 1 ∷ 2 ∷ []

open_leaks_none_example :
    Held fds (ether_tap_open tap driven fds)
    × Held fds (ether_pcap_open pcap driven fds)
    × (let (status, dv', fds') = ether_tap_open tap driven fds in
        (status ≡ ok) → (ether_tap_close dv' fds').1 ≡ fds)
    × (let (status, dv', fds') = ether_pcap_open pcap driven fds in
        (status ≡ ok) → (ether_pcap_close dv' fds').1 ≡ fds)
open_leaks_none_example = open_leaks_none tap pcap driven fds

abbrev room : Room
room = record { device = true; priv = true; irq = false }

abbrev none_yet : Devices
none_yet = record { devices = []; next_index = 0 }

-- The text "00:00:5e:00:53:01", and no memory for the entry of the interrupt.
abbrev text : List ℕ
text =
    b'0' ∷ b'0' ∷ b':' ∷ b'0' ∷ b'0' ∷ b':' ∷ b'5' ∷ b'e' ∷ b':' ∷ b'0' ∷ b'0' ∷ b':' ∷ b'5' ∷ b'3'
    ∷ b':' ∷ b'0' ∷ b'1' ∷ []

ether_init_lem_example :
    let (result, devices', irqs') = ether_init room 7 36 (some text) (none_yet, irqs) in
    IsSound irqs'
    × ((((room.device ≡ false) ⊎ (IsBad (some text) ⊎ (room.priv ≡ false)))
          × (result ≡ none)
          × (devices' ≡ none_yet)
          × (irqs' ≡ irqs))
        ⊎ ((room.device ≡ true)
            × (room.priv ≡ true)
            × (address : List ℕ) × Gives (some text) address
            × (result ≡ some (ethernet_with 0 address))
            × (devices'
                ≡ record { devices = ethernet_with 0 address ∷ []; next_index = (0 + 1) % 2 ^ 32 })
            × (irqs' ≡ (intr_request_irq false 36 7 network_irq_shared 0 irqs).1)))
ether_init_lem_example = ether_init_lem room 7 36 (some text) none_yet irqs irqs-IsSound

-- A frame to all that carries IP, after an interruption.
abbrev polls : List Poll
polls =
    interrupted
    ∷ ready (some (255 ∷ 255 ∷ 255 ∷ 255 ∷ 255 ∷ 255 ∷ 2 ∷ 0 ∷ 0 ∷ 0 ∷ 0 ∷ 9 ∷ 8 ∷ 0 ∷ 42 ∷ []))
    ∷ idle
    ∷ []

abbrev protocols : List (Protocol ℕ)
protocols = record { type = 2048; queue = []; handler = 10 } ∷ []

ether_isr_lem_example :
    let (status, protocols', raised') =
      ether_isr little true true ethernet polls (protocols, false) in
    (status ≡ end_of polls)
    × (waiting_at 2048 protocols' ≡ some ([] ++ taken little ethernet 2048 (frames_of polls)))
ether_isr_lem_example = ether_isr_lem little ethernet polls 2048 protocols false [] refl
