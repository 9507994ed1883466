-- ===== src/Icmp/Echo.antt =====
-- Echo requests and their replies in src/lib/icmp.c.
use llnstack.Base.{
  ℕ, ◌+◌, ◌-◌, ◌^◌, ◌≤◌, ◌<◌, ◌≡◌, ◌≢◌, refl, sym, ap, ◌∙◌, true, false, List, [], ◌∷◌, ◌++◌,
  length, take, take-append, drop, ltb, ◌==◌, ◌!=◌, if◌then◌else◌, arith,
}
use mathlib.Core.Path.{subst}
use llnstack.Util.Endian.{Host, little, big, store32}
use llnstack.Util.Packed.{byte_at, field32}
use llnstack.Util.Checksum.{cksum16}
use llnstack.Util.Checksum.Residue.{IsBytes}
use llnstack.Util.Checksum.Fill.{cksum16-fill}
use llnstack.Net.{Interface, Device, Transmit}
use llnstack.Net.Timer.{Timeval}
use llnstack.Ip.Route.{Route}
use llnstack.Ip.Packet.{Sending}
use llnstack.Ip.Packet.Header.{cksum16-append}
use llnstack.Icmp.{
  icmp_hdr_size, icmp_type_echoreply, icmp_type_echo, icmp_with, icmp_message, icmp_output,
  icmp_input,
}

values-IsBytes :
    (h : Host) (values : ℕ) (content : List ℕ)
    → IsBytes content
    → IsBytes (store32 h values ++ content)
values-IsBytes little values content b =
    (omega arith, (omega arith, (omega arith, (omega arith, b))))
values-IsBytes big values content b = (omega arith, (omega arith, (omega arith, (omega arith, b))))

length-values :
    (h : Host) (values : ℕ) (content : List ℕ)
    → length (store32 h values ++ content) ≡ 4 + length content
length-values little values content = omega arith
length-values big values content = omega arith

-- The message that `icmp_output` builds verifies.
pub icmp_message-verifies :
    (h : Host) (type code values : ℕ) (content : List ℕ)
    → type < 256
    → code < 256
    → IsBytes content
    → icmp_hdr_size + length content < 65536
    → cksum16 h (icmp_message h type code values content) (icmp_hdr_size + length content) 0 ≡ 0
unfolding icmp_message
icmp_message-verifies h type code values content t c b fits =
    subst
      (λ n.
        cksum16 h
          (icmp_with h type code (cksum16 h (icmp_with h type code 0 values content) n 0) values
            content)
          n 0
        ≡ 0)
      (omega (arith, length-values h values content))
      (cksum16-fill h (type ∷ code ∷ []) (store32 h values ++ content) 0 (t, (c, tt))
        (values-IsBytes h values content b) refl
        (omega (arith, fits, length-values h values content)) (omega arith))

message-fields :
    (h : Host) (type code values : ℕ) (content pad : List ℕ)
    → values < 2 ^ 32
    → let m = icmp_message h type code values content ++ pad in
      (byte_at m 0 ≡ type)
      × (byte_at m 1 ≡ code)
      × (field32 h m 4 ≡ values)
      × (drop icmp_hdr_size m ≡ content ++ pad)
unfolding icmp_message
message-fields little type code values content pad v = (refl, refl, omega arith, refl)
message-fields big type code values content pad v = (refl, refl, omega arith, refl)

pub length-message :
    (h : Host) (type code values : ℕ) (content : List ℕ)
    → length (icmp_message h type code values content) ≡ icmp_hdr_size + length content
unfolding icmp_message
length-message little type code values content = omega arith
length-message big type code values content = omega arith

module _ {S : Type 0} (h : Host) (transmit : Transmit S) (now : Timeval) (device : ℕ → Device) where
  echo_reply :
      (routes : List Route) (m content pad : List ℕ) (code values src dst : ℕ) (iface : Interface)
      (w : Sending S)
      → cksum16 h m (icmp_hdr_size + length content) 0 ≡ 0
      → byte_at m 0 ≡ icmp_type_echo
      → byte_at m 1 ≡ code
      → field32 h m 4 ≡ values
      → drop icmp_hdr_size m ≡ content ++ pad
      → icmp_input h transmit now device routes m (icmp_hdr_size + length content) src dst iface w
        ≡ (icmp_output h transmit now device routes icmp_type_echoreply code values content
            iface.unicast src w).1
  unfolding icmp_input
  echo_reply routes m content pad code values src dst iface w k t c v d =
      let short : ltb (icmp_hdr_size + length content) icmp_hdr_size ≡ false = ground arith in
      let sum : (cksum16 h m (icmp_hdr_size + length content) 0 != 0) ≡ false = ground (arith, k) in
      let echo : (byte_at m 0 == icmp_type_echo) ≡ true = ground (arith, t) in
      let here : (if dst != iface.unicast then iface.unicast else dst) ≡ iface.unicast =
        ground arith in
      let rest : take ((icmp_hdr_size + length content) - icmp_hdr_size) (drop icmp_hdr_size m)
          ≡ content =
        ap (take ((icmp_hdr_size + length content) - icmp_hdr_size)) d
        ∙ take-append content pad ((icmp_hdr_size + length content) - icmp_hdr_size)
            (omega arith) in
      rw (short, sum, echo, c, v, here, rest, icmp_input) refl

  -- An echo request of fewer than 65536 bytes, built as `icmp_output` does, carried unchanged and
  -- perhaps padded, is answered with the echo reply that has its code, its values and its data,
  -- from the address of the interface, whatever address the request was sent to, to the sender; and
  -- that message verifies too.
  pub icmp_input-echo :
      (routes : List Route) (code values : ℕ) (content pad : List ℕ) (src dst : ℕ)
      (iface : Interface) (w : Sending S)
      → code < 256
      → values < 2 ^ 32
      → IsBytes content
      → icmp_hdr_size + length content < 65536
      → (icmp_input h transmit now device routes
            (icmp_message h icmp_type_echo code values content ++ pad)
            (icmp_hdr_size + length content)
            src
            dst
            iface
            w
          ≡ (icmp_output h transmit now device routes icmp_type_echoreply code values content
              iface.unicast src w).1)
        × (cksum16 h
              (icmp_message h icmp_type_echoreply code values content)
              (icmp_hdr_size + length content)
              0
            ≡ 0)
  icmp_input-echo routes code values content pad src dst iface w c v b fits =
      let m = icmp_message h icmp_type_echo code values content in
      let (f0, f1, f4, f8) = message-fields h icmp_type_echo code values content pad v in
      (
        echo_reply routes (m ++ pad) content pad code values src dst iface w
            (cksum16-append h m pad (icmp_hdr_size + length content) 0
                (sym (length-message h icmp_type_echo code values content)) fits
              ∙ icmp_message-verifies h icmp_type_echo code values content (omega arith) c b fits)
            f0 f1 f4 f8,
        icmp_message-verifies h icmp_type_echoreply code values content (omega arith) c b fits,
      )

  -- `icmp_input` sends something, or changes anything, only for an echo request that is long enough
  -- and verifies.
  pub icmp_input-changed :
      (routes : List Route) (m : List ℕ) (len src dst : ℕ) (iface : Interface) (w : Sending S)
      → icmp_input h transmit now device routes m len src dst iface w ≢ w
      → (icmp_hdr_size ≤ len) × (cksum16 h m len 0 ≡ 0) × (byte_at m 0 ≡ icmp_type_echo)
  unfolding icmp_input
  icmp_input-changed routes m len src dst iface w ch = ground arith
