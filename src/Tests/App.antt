-- ===== src/Tests/App.antt =====
-- The theorems on `main` of apps/udp_app.c at concrete inputs.
use llnstack.Base.{
  ℕ, ◌≡◌, refl, true, false, none, some, List, [], ◌∷◌, All, get_elem?, replicate, if◌then◌else◌,
  arith,
}
use llnstack.Util.Endian.{big, little, hton16}
use llnstack.Net.{ok, is_up}
use llnstack.Ip.Text.{print_port}
use llnstack.Ip.Text.RoundTrip.{printed_address}
use llnstack.Udp.Pcb.{UdpPcb, open_, blank}
use llnstack.Intr.{sigusr2}
use llnstack.Sock.{unused, max_socks, datagram_desc}
use llnstack.Stack.{Env, Stack, udp_event_handler}
use llnstack.Stack.Signals.{intr_thread}
use llnstack.Stack.Start.{Opens}
use llnstack.Stack.Start.Tables.{started}
use llnstack.App.Expected.{generous, static_storage}
use llnstack.App.Main.{
  Server, testing, sleeping, returned, parse_args, main_start, on_signal, resume, turn,
}
use llnstack.App.Main.Args.{port_or_none, bound_to, parse_args-printed, main_serves}
use llnstack.App.Main.Stop.{sigint_stops}
use llnstack.Tests.{now, peer, ethernet}

abbrev name : List ℕ
name = 117 ∷ []

-- A port of five digits that is too large.
parse_args-printed_example :
    (parse_args big (name ∷ print_port 70000 [] ∷ []) ≡ port_or_none big 0 70000)
    × (parse_args big (name ∷ printed_address big peer ∷ print_port 70000 [] ∷ [])
        ≡ port_or_none big peer 70000)
    × (parse_args big [] ≡ none)
    × (parse_args big (name ∷ []) ≡ none)
    × ((first second third : List ℕ) (rest : List (List ℕ))
        → parse_args big (name ∷ first ∷ second ∷ third ∷ rest) ≡ none)
parse_args-printed_example = parse_args-printed big name peer 70000 (omega arith) (omega arith)

abbrev open_tap : Opens
open_tap dev = (some ok, dev)

main_serves_example :
    (v : Server ℕ) × (main_start
        (generous little true true 34 now open_tap)
        (name ∷ printed_address little peer ∷ print_port 7 [] ∷ [])
        (static_storage 0)
        (replicate max_socks unused)
      ≡ some v)
    × (v.phase ≡ testing)
    × (v.terminate ≡ false)
    × (datagram_desc v.soc v.socks ≡ some 0)
    × (get_elem? v.stack.pcbs 0
        ≡ some (bound_to (record { address = peer; port = hton16 little 7 })))
    × (v.stack.events ≡ (if true then udp_event_handler ∷ [] else []))
main_serves_example =
    main_serves {O = ℕ} 0 little true true 34 now open_tap name peer 7 (omega arith) (omega arith)
      (omega arith)

abbrev env : Env ℕ
env = record {
  host = little;
  alloc = true;
  alloc_link = true;
  now = now;
  write = λ dev frame n. (none, n);
}

-- The server of one block, which waits; its context counts it.
abbrev waiting_block : UdpPcb
waiting_block = record blank { state = open_; ctx = record { interrupted = false; wc = 1 } }

abbrev server : Server ℕ
server = record {
  stack = record (started true now (static_storage 0)) {
    devices = record { devices = ethernet ∷ []; next_index = 1 };
    pcbs = waiting_block ∷ [];
  };
  socks = record { used = true; family = 2; type = 2; desc = some 0 } ∷ [];
  soc = 0;
  terminate = false;
  phase = sleeping;
}

named : datagram_desc server.soc server.socks ≡ some 0
unfolding datagram_desc
named = refl

sigint_stops_example :
    let v1 = on_signal server in
    (t : Stack ℕ) × (intr_thread env 4 (λ d. []) sigusr2 v1.stack ≡ some t)
    × (let v2 =
          turn env
            (some 0)
            (λ dev. some ok)
            true
            (resume env (some 0) (λ dev. some ok) true 0 (record v1 { stack = t })) in
        (v2.phase ≡ returned) × All (λ dev. is_up dev ≡ false) v2.stack.devices.devices)
sigint_stops_example =
    sigint_stops env (some 0) (λ dev. some ok) true 4 (λ d. []) 0 server 0 waiting_block named refl
      refl refl (λ dev. refl)
