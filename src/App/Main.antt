-- ===== src/App/Main.antt =====
-- `main` of apps/udp_app.c: the arguments, the start of the server, its loop between the waits, SIGINT, and
-- the end.
pub mod Args
pub mod Stop
pub mod Serve
use llnstack.Base.{
  ℕ, Bool, true, false, ◌&&◌, ◌||◌, Option, none, some, List, [], ◌∷◌, get_elem?, ltb, ◌!=◌,
  if◌then◌else◌,
}
use llnstack.Util.Endian.{Host, hton16}
use llnstack.Net.{Status, ok, fail, Device}
use llnstack.Ip.Text.{Endpoint, strtol, ip_string_to_address}
use llnstack.Ip.Route.{ip_addr_any}
use llnstack.Ip.Packet.{Sending}
use llnstack.Udp.Pcb.{UdpPcb, udp_pcb_get}
use llnstack.Udp.User.{Receiving, udp_close, recv_resume}
use llnstack.Sock.{Sock, Tables, af_inet, sock_dgram, sock_open, sock_bind, datagram_desc}
use llnstack.Stack.{Env, Stack, Wire, transmit, device_at}
use llnstack.Stack.Start.{network_shutdown}
use llnstack.App.{Machine, setup, Round, waits, goes_on, breaks, buf_size, answer, echo_round}

-- `strtol(argv[argc-1], NULL, 10)` and the tests on it; where there is no number it returns 0.
unfoldable pub parse_port_arg : Host → ℕ → List ℕ → Option Endpoint
parse_port_arg h address text = elim (strtol 10 text) [
  | none ↦ some (record { address = address; port = hton16 h 0 })
  | some (minus, value, rest) ↦
      if (minus && (value != 0)) || ltb 65535 value
      then none
      else some (record { address = address; port = hton16 h value })
]

-- The switch on `argc`, over `argv`; `none` is a return of -1.
unfoldable pub parse_args : Host → List (List ℕ) → Option Endpoint
parse_args h (name ∷ port ∷ []) = parse_port_arg h ip_addr_any port
parse_args h (name ∷ addr ∷ port ∷ []) = elim (ip_string_to_address h addr) [
  | none ↦ none
  | some address ↦ parse_port_arg h address port
]
parse_args h argv = none

-- Where `main` stands: before the test of the loop, asleep in `sock_recvfrom`, or returned with 0.
pub data Phase : Type 0 where
  testing sleeping returned : Phase

-- The variables of `main`, the static `terminate`, the sockets and the stack.
pub record Server (O : Type 0) : Type 0 where
  pub stack : Stack O
  pub socks : List Sock
  pub soc : ℕ
  pub terminate : Bool
  pub phase : Phase

-- Whether `errno` is EINTR when `sock_recvfrom` has failed on the block, if there is one. The wait sets it where
-- it is interrupted; no other failure sets it, so it is then as it was before, which `stale` tells.
abbrev pub is_interrupted : Bool → Option UdpPcb → Bool
is_interrupted stale none = stale
is_interrupted stale (some pcb) = pcb.ctx.interrupted || stale

-- The block that a fresh call reads from.
abbrev pub receiving_block : Option ℕ → List UdpPcb → Option UdpPcb
receiving_block none pcbs = none
receiving_block (some d) pcbs = udp_pcb_get d pcbs

module _ {O : Type 0} where
  -- Before the loop; `none` is a return of -1.
  unfoldable pub after_bind : Stack O → List Sock → ℕ → Status × List UdpPcb → Option (Server O)
  after_bind s socks soc (fail, pcbs) = none
  after_bind s socks soc (ok, pcbs) = some (record {
    stack = record s { pcbs = pcbs };
    socks = socks;
    soc = soc;
    terminate = false;
    phase = testing;
  })

  unfoldable pub after_open : Endpoint → Stack O → Option ℕ × Tables → Option (Server O)
  after_open local s (none, tables) = none
  after_open local s (some soc, tables) = after_bind s tables.0 soc (sock_bind soc local tables)

  unfoldable pub bind_and_serve : Endpoint → Status × Stack O → List Sock → Option (Server O)
  bind_and_serve local (fail, s) socks = none
  bind_and_serve local (ok, s) socks =
      after_open local s (sock_open af_inet sock_dgram 0 (socks, s.pcbs))

  unfoldable pub main_start : Machine → List (List ℕ) → Stack O → List Sock → Option (Server O)
  main_start m argv s socks = elim (parse_args m.host argv) [
    | none ↦ none
    | some local ↦ bind_and_serve local (setup m s) socks
  ]

  -- After the loop. `destroyed` is what `pthread_cond_destroy` returns, `close` what the drivers do.
  unfoldable pub finish : Option ℕ → (Device → Option Status) → Server O → Server O
  finish destroyed close v = record v {
    stack =
        network_shutdown close
          (record v.stack { pcbs = (udp_close destroyed v.soc v.stack.pcbs).1 });
    phase = returned;
  }

  -- `on_signal`, but for the signal that it sends to the interrupt thread.
  unfoldable pub on_signal : Server O → Server O
  on_signal v = record v { terminate = true }

  module _ (env : Env O) (destroyed : Option ℕ) (close : Device → Option Status) where
    -- A round that has come to an end, or to a wait.
    unfoldable pub after_round : Server O → Round × List UdpPcb × Sending (Wire O) → Server O
    after_round v (waits, pcbs, w) = record v {
      stack = record v.stack { pcbs = pcbs; sending = w };
      phase = sleeping;
    }
    after_round v (goes_on, pcbs, w) = record v {
      stack = record v.stack { pcbs = pcbs; sending = w };
      phase = testing;
    }
    after_round v (breaks, pcbs, w) =
        finish destroyed close (record v { stack = record v.stack { pcbs = pcbs; sending = w } })

    module _ (stale : Bool) where
      -- From the test of the loop to the next wait, test or return.
      unfoldable pub turn : Server O → Server O
      turn v =
          if v.terminate
          then finish destroyed close v
          else after_round v (
              echo_round env.host (transmit env) env.now (device_at v.stack.devices.devices)
                v.stack.tables.routes v.soc v.socks
                (is_interrupted stale (receiving_block (datagram_desc v.soc v.socks) v.stack.pcbs))
                (v.stack.pcbs, v.stack.sending))

      -- From the return of the wait, which gave `waited`, on.
      unfoldable pub resume : ℕ → Server O → Server O
      resume waited v = elim (datagram_desc v.soc v.socks) [
        | none ↦ v
        | some d ↦
            let (r, pcbs) = recv_resume destroyed waited d buf_size v.stack.pcbs in
            after_round v (
              answer env.host (transmit env) env.now (device_at v.stack.devices.devices)
                v.stack.tables.routes v.soc v.socks
                (is_interrupted stale (get_elem? v.stack.pcbs d)) r (pcbs, v.stack.sending))
      ]
