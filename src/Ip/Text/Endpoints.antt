-- ===== src/Ip/Text/Endpoints.antt =====
-- Endpoints as text: the round trip.
use llnstack.Base.{
  ℕ, zero, suc, ◌+◌, ◌/◌, ◌%◌, ◌^◌, ◌≤◌, ◌<◌, ◌≡◌, refl, ap, none, some, List, [], ◌∷◌, ◌++◌,
  length, take_all, lt→ltb, ge→ltb, arith,
}
use llnstack.Util.Endian.{Host, hton16, ntoh16-hton16}
use llnstack.Ip.Text.{
  decimal, print_port, max_ip_address_string_length, Endpoint, last_colon, endpoint, parse_port,
  ip_string_to_endpoint, ip_endpoint_to_string,
}
use llnstack.Ip.Text.RoundTrip.{
  strtol-decimal, length-decimal, printed_address, printed_address_lem, printed_fits,
}

last_colon-decimal :
    (fuel n : ℕ) (rest : List ℕ) → last_colon rest ≡ none → last_colon (decimal fuel n rest) ≡ none
unfolding last_colon decimal
last_colon-decimal zero n rest h = h
last_colon-decimal (suc fuel) n rest h =
    ground (arith, last_colon-decimal fuel (n / 10) ((48 + n % 10) ∷ rest))

last_colon-append :
    (xs ys : List ℕ) → last_colon ys ≡ none → last_colon (xs ++ b':' ∷ ys) ≡ some (xs, ys)
unfolding last_colon
last_colon-append [] ys h = rw h refl
last_colon-append (x ∷ xs) ys h = rw (last_colon-append xs ys h, last_colon)

-- MAX_IP_ENDPOINT_STRING_LENGTH
abbrev pub max_ip_endpoint_string_length : ℕ
max_ip_endpoint_string_length = max_ip_address_string_length + 6

endpoint_text :
    (h : Host) (address port size : ℕ)
    → address < 2 ^ 32
    → port < 65536
    → max_ip_endpoint_string_length ≤ size
    → ip_endpoint_to_string h (record { address = address; port = hton16 h port }) size
      ≡ printed_address h address ++ b':' ∷ print_port port []
unfolding ip_endpoint_to_string
endpoint_text h address port size p q s =
    rw (printed_fits h address size p (omega (arith, s)), (ntoh16-hton16 h port q).0)
      (ap (λ t. printed_address h address ++ t)
        (take_all _ (b':' ∷ print_port port [])
          (omega (arith, s, (printed_address_lem h address p).0, length-decimal 5 port []))))

port_read :
    (h : Host) (address port : ℕ)
    → 0 < port
    → port < 65536
    → parse_port h address (print_port port [])
      ≡ endpoint (record { address = address; port = hton16 h port })
unfolding parse_port
port_read h address port z q =
    rw (strtol-decimal 4 port [] (omega arith) refl, parse_port) (ground arith)

-- An endpoint with a port of 16 bits other than 0, printed into an array of at least 22 characters,
-- is read back.
pub ip_endpoint_round_trip :
    (h : Host) (beyond : List ℕ) (address port size : ℕ)
    → address < 2 ^ 32
    → 0 < port
    → port < 65536
    → max_ip_endpoint_string_length ≤ size
    → let n : Endpoint = record { address = address; port = hton16 h port } in
      ip_string_to_endpoint h beyond (ip_endpoint_to_string h n size) ≡ endpoint n
unfolding last_colon ip_string_to_endpoint
ip_endpoint_round_trip h beyond address port size p z q s =
    rw
      (
        endpoint_text h address port size p q s,
        last_colon-append (printed_address h address) (print_port port [])
            (last_colon-decimal 5 port [] refl),
        ip_string_to_endpoint,
        lt→ltb (length (printed_address h address)) max_ip_address_string_length
            (omega (arith, (printed_address_lem h address p).0)),
        ge→ltb max_ip_address_string_length (length (printed_address h address))
            (omega (arith, (printed_address_lem h address p).0)),
        (printed_address_lem h address p).1,
      )
      (port_read h address port z q)
