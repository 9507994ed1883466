-- ===== src/Sock/Text.antt =====
-- Addresses of sockets as text: `sockaddr_pton` and `sockaddr_ntop` of src/lib/sock.c.
use llnstack.Base.{
  ℕ, ◌≤◌, ◌<◌, ◌^◌, ◌≡◌, ◌≢◌, ◌⊎◌, ◌∙◌, inl, inr, sym, ap, Bool-cases, refl, not, ◌&&◌, Option,
  none, some, List, ltb, ◌==◌, if◌then◌else◌, arith,
}
use llnstack.Util.Endian.{Host, hton16}
use llnstack.Ip.Text.{
  Parsed, endpoint, refused, overrun, ip_string_to_endpoint, ip_endpoint_to_string,
}
use llnstack.Ip.Text.Endpoints.{max_ip_endpoint_string_length, ip_endpoint_round_trip}
use llnstack.Sock.{af_inet}

-- `struct sockaddr_in`, with the fields in the order of the network as the code keeps them.
pub record SockaddrIn : Type 0 where
  pub sin_family : ℕ
  pub sin_port : ℕ
  pub sin_addr : ℕ

-- sizeof(struct sockaddr_in): two fields of 2 bytes and one of 4.
abbrev pub sockaddr_in_size : ℕ
sockaddr_in_size = 8

-- What `sockaddr_pton` writes where it returns 0, or -1, or the overrun of `ip_string_to_endpoint`.
pub data Read : Type 0 where
  written : SockaddrIn → Read
  rejected overruns : Read

read_endpoint : ℕ → Parsed → Read
read_endpoint size refused = rejected
read_endpoint size overrun = overruns
read_endpoint size (endpoint ep) =
    if ltb size sockaddr_in_size
    then rejected
    else written (record { sin_family = af_inet; sin_port = ep.port; sin_addr = ep.address })

-- `beyond` stands behind the array of `ip_string_to_endpoint`.
unfoldable pub sockaddr_pton : Host → List ℕ → List ℕ → ℕ → Read
unfolding read_endpoint
sockaddr_pton h beyond p size = read_endpoint size (ip_string_to_endpoint h beyond p)

-- `none` is NULL.
unfoldable pub sockaddr_ntop : Host → SockaddrIn → ℕ → Option (List ℕ)
sockaddr_ntop h n size =
    if (n.sin_family == af_inet) && not (ltb size max_ip_endpoint_string_length)
    then some (ip_endpoint_to_string h (record { address = n.sin_addr; port = n.sin_port }) size)
    else none

-- An address of the family AF_INET, with a port other than 0, is printed where the array has at least 22
-- characters, and what is printed is read back by `sockaddr_pton`, given the size of the structure; an
-- address of another family, and a shorter array, give NULL.
pub sockaddr_round_trip :
    (h : Host) (beyond : List ℕ) (family address port size : ℕ)
    → address < 2 ^ 32
    → 0 < port
    → port < 65536
    → let n : SockaddrIn = record {
      sin_family = family;
      sin_port = hton16 h port;
      sin_addr = address;
    } in
      ((family ≡ af_inet)
        × (max_ip_endpoint_string_length ≤ size)
        × (text : List ℕ) × (sockaddr_ntop h n size ≡ some text)
        × (sockaddr_pton h beyond text sockaddr_in_size ≡ written n))
      ⊎ (((family ≢ af_inet) ⊎ (size < max_ip_endpoint_string_length))
          × (sockaddr_ntop h n size ≡ none))
unfolding sockaddr_pton read_endpoint sockaddr_ntop
sockaddr_round_trip h beyond family address port size a z p =
    let n : SockaddrIn = record {
      sin_family = family;
      sin_port = hton16 h port;
      sin_addr = address;
    } in
    elim (Bool-cases (family == af_inet)) [
      | inr other ↦ inr (inl (ground arith), rw (other, sockaddr_ntop) refl)
      | inl inet ↦ elim (Bool-cases (ltb size max_ip_endpoint_string_length)) [
        | inl short ↦ inr (inr (ground arith), rw (inet, short, sockaddr_ntop) refl)
        | inr long ↦
            let fam : family ≡ af_inet = ground arith in
            let room : max_ip_endpoint_string_length ≤ size = ground arith in
            inl (
              fam,
              room,
              ip_endpoint_to_string h (record { address = address; port = hton16 h port }) size,
              rw (inet, long, sockaddr_ntop) refl,
              ap (read_endpoint sockaddr_in_size)
                    (ip_endpoint_round_trip h beyond address port size a z p room)
                  ∙ ap
                      (λ f.
                        written
                          (record { sin_family = f; sin_port = hton16 h port; sin_addr = address }))
                      (sym fam),
            )
      ]
    ]
