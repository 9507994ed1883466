-- ===== src/App/Main/Args.antt =====
-- The command line of apps/udp_app.c, printed and parsed back; and the server that it starts.
use llnstack.Base.{
  ℕ, ◌^◌, ◌<◌, ◌≡◌, refl, ap, ◌∙◌, Bool, true, false, Option, none, some, List, [], ◌∷◌, replicate,
  get_elem?, ltb, ◌==◌, if◌then◌else◌, arith,
}
use llnstack.Util.Endian.{Host, little, big, hton16}
use llnstack.Net.{ok}
use llnstack.Sched.{sched_ctx_init}
use llnstack.Net.Timer.{Timeval}
use llnstack.Ip.Text.{Endpoint, print_port}
use llnstack.Ip.Text.RoundTrip.{strtol-decimal, printed_address, printed_address_lem}
use llnstack.Udp.Pcb.{
  UdpPcb, open_, blank, empty_pcbs, udp_pcb_select, udp_pcb_get, select_from, udp_pcb_alloc,
}
use llnstack.Udp.User.{udp_open, udp_bind}
use llnstack.Sock.{
  Sock, unused, max_socks, af_inet, sock_dgram, sock_alloc, desc_of, sock_open, sock_bind,
  datagram_desc,
}
use llnstack.Stack.{with_protocols, udp_event_handler}
use llnstack.Stack.Start.{Opens}
use llnstack.App.Expected.{generous, static_storage}
use llnstack.App.Setup.{set_up, ready_stack}
use llnstack.App.Main.{
  Server, testing, parse_port_arg, parse_args, after_bind, after_open, bind_and_serve, main_start,
}

-- A port of five digits at most, whether it fits or not.
abbrev pub port_or_none : Host → ℕ → ℕ → Option Endpoint
port_or_none h address n =
    if ltb 65535 n then none else some (record { address = address; port = hton16 h n })

port_parsed :
    (h : Host) (address n : ℕ)
    → n < 100000
    → parse_port_arg h address (print_port n []) ≡ port_or_none h address n
unfolding parse_port_arg
port_parsed h address n p = rw (strtol-decimal 4 n [] (omega arith) refl, parse_port_arg) refl

-- An address and a port that are printed are parsed back, with or without the address; a port of five
-- digits that does not fit 16 bits is refused. No arguments, three or more, whatever they are, and an `argv`
-- without even a name are refused too, so there is no default port.
pub parse_args-printed :
    (h : Host) (name : List ℕ) (address n : ℕ)
    → address < 2 ^ 32
    → n < 100000
    → (parse_args h (name ∷ print_port n [] ∷ []) ≡ port_or_none h 0 n)
      × (parse_args h (name ∷ printed_address h address ∷ print_port n [] ∷ [])
          ≡ port_or_none h address n)
      × (parse_args h [] ≡ none)
      × (parse_args h (name ∷ []) ≡ none)
      × ((first second third : List ℕ) (rest : List (List ℕ))
          → parse_args h (name ∷ first ∷ second ∷ third ∷ rest) ≡ none)
unfolding parse_args
parse_args-printed h name address n a p = (
  port_parsed h 0 n p,
  rw ((printed_address_lem h address a).1, parse_args) (port_parsed h address n p),
  refl,
  refl,
  λ first second third rest. refl,
)

abbrev opened : List UdpPcb
opened = record blank { state = open_ } ∷ replicate 15 blank

abbrev first : List Sock
first = record { used = true; family = 2; type = 2; desc = some 0 } ∷ replicate 127 unused

socket_opened :
    sock_open af_inet sock_dgram 0 (replicate max_socks unused, empty_pcbs)
    ≡ (some 0, (first, opened))
unfolding sock_open sock_alloc desc_of udp_open udp_pcb_alloc sched_ctx_init
socket_opened = refl

nonzero_port : (h : Host) (n : ℕ) → 0 < n → n < 65536 → (0 == hton16 h n) ≡ false
nonzero_port little n z p = ground arith
nonzero_port big n z p = ground arith

-- No block is bound to a port but 0.
nothing_bound :
    (h : Host) (address n : ℕ)
    → 0 < n
    → n < 65536
    → udp_pcb_select address (hton16 h n) opened ≡ none
unfolding udp_pcb_select select_from
nothing_bound h address n z p =
    ap (λ (b : Bool). if b then some (0, record blank { state = open_ }) else none)
      (nonzero_port h n z p)

bound :
    (h : Host) (address n : ℕ)
    → 0 < n
    → n < 65536
    → let local : Endpoint = record { address = address; port = hton16 h n } in
      sock_bind 0 local (first, opened)
      ≡ (ok, record blank { state = open_; local = local } ∷ replicate 15 blank)
unfolding sock_bind datagram_desc udp_bind udp_pcb_get
bound h address n z p = rw (nothing_bound h address n z p, udp_bind) refl

fits : (n : ℕ) → n < 65536 → ltb 65535 n ≡ false
fits n p = ground arith

-- The block of the server.
abbrev pub bound_to : Endpoint → UdpPcb
bound_to local = record blank { state = open_; local = local }

module _ {O : Type 0} (os : O) (h : Host) (event irq : Bool) (sigrtmin : ℕ) (now : Timeval)
    (drive : Opens) where
  server_of : Endpoint → Server O
  server_of local = record {
    stack = record (ready_stack os h event irq sigrtmin now drive) {
      pcbs = bound_to local ∷ replicate 15 blank;
    };
    socks = first;
    soc = 0;
    terminate = false;
    phase = testing;
  }

  serving :
      (address n : ℕ)
      → 0 < n
      → n < 65536
      → let local : Endpoint = record { address = address; port = hton16 h n } in
        let s = ready_stack os h event irq sigrtmin now drive in
        bind_and_serve local (ok, s) (replicate max_socks unused) ≡ some (server_of local)
  unfolding bind_and_serve after_open after_bind with_protocols server_of
  serving address n z p =
      let local : Endpoint = record { address = address; port = hton16 h n } in
      let s = ready_stack os h event irq sigrtmin now drive in
      ap (after_open local s) socket_opened ∙ ap (after_bind s first 0) (bound h address n z p)

  -- Where `setup` succeeds, `main` with an address and a port from 1 to 65535, both printed, comes to its
  -- loop: its socket names the block 0, which is open and bound to the two, with nothing queued, and the
  -- event of UDP has been subscribed to if there was memory for it.
  pub main_serves :
      (name : List ℕ) (address n : ℕ)
      → address < 2 ^ 32
      → 0 < n
      → n < 65536
      → (v : Server O) × (main_start
            (generous h event irq sigrtmin now drive)
            (name ∷ printed_address h address ∷ print_port n [] ∷ [])
            (static_storage os)
            (replicate max_socks unused)
          ≡ some v)
        × (v.phase ≡ testing)
        × (v.terminate ≡ false)
        × (datagram_desc v.soc v.socks ≡ some 0)
        × (get_elem? v.stack.pcbs 0
            ≡ some (bound_to (record { address = address; port = hton16 h n })))
        × (v.stack.events ≡ (if event then udp_event_handler ∷ [] else []))
  unfolding main_start with_protocols server_of datagram_desc
  main_serves name address n a z p =
      let local : Endpoint = record { address = address; port = hton16 h n } in
      let parsed : parse_args h (name ∷ printed_address h address ∷ print_port n [] ∷ [])
          ≡ some local =
        (parse_args-printed h name address n a (omega arith)).1 ∙ rw (fits n p) refl in
      (
        server_of local,
        rw (parsed, main_start)
            (ap (λ r. bind_and_serve local r (replicate max_socks unused))
                (set_up os h event irq sigrtmin now drive)
              ∙ serving address n z p),
        refl,
        refl,
        refl,
        refl,
        refl,
      )
