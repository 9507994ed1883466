-- ===== src/Ether.antt =====
-- src/lib/ether.c: frames out of and into an Ethernet device; and the loopback device of
-- device/loopback.c. What a driver reads and writes is a parameter.
pub mod Frames
pub mod Address
use llnstack.Base.{
  ℕ, ◌+◌, ◌-◌, Bool, true, false, not, ◌&&◌, Option, none, some, List, [], ◌∷◌, ◌++◌, length, take,
  drop, replicate, ltb, ◌==◌, if◌then◌else◌,
}
use llnstack.Util.Endian.{Host, hton16, ntoh16, store16}
use llnstack.Util.Packed.{field16, copy_into}
use llnstack.Net.{
  Status, ok, fail, Device, network_device_type_ethernet, network_device_type_loopback,
}
use llnstack.Net.Protocol.{Protocol, network_input_handler}
use llnstack.Arp.Cache.{ether_addr_len}

abbrev pub ether_hdr_size : ℕ
ether_hdr_size = 14

abbrev pub ether_payload_size_min : ℕ
ether_payload_size_min = 60 - 14

abbrev pub ether_payload_size_max : ℕ
ether_payload_size_max = 1514 - 14

abbrev pub ether_addr_broadcast : List ℕ
ether_addr_broadcast = replicate ether_addr_len 255

-- The header and the padded payload, as the frame's array holds them.
abbrev pub ether_header : Host → ℕ → List ℕ → List ℕ → List ℕ
ether_header h type dst src =
    (take ether_addr_len dst ++ take ether_addr_len src) ++ store16 h (hton16 h type)

abbrev pub padded : List ℕ → List ℕ
padded payload = payload ++ replicate (ether_payload_size_min - length payload) 0

unfoldable pub ether_frame : Host → ℕ → List ℕ → List ℕ → List ℕ → List ℕ
ether_frame h type payload dst src = ether_header h type dst src ++ padded payload

-- What the callback returned, compared with the length of the frame; `none` is a negative number.
abbrev pub all_written : Option ℕ → ℕ → Status
all_written none flen = fail
all_written (some n) flen = if n == flen then ok else fail

-- The payload is no longer than the MTU that `ether_setup_helper` sets; longer ones overrun the array.
unfoldable pub ether_transmit_helper :
    {S : Type 0}
    → (List ℕ → S → Option ℕ × S)
    → Host
    → Device
    → ℕ
    → List ℕ
    → List ℕ
    → S
    → Status × S
ether_transmit_helper callback h dev type payload dst s =
    let frame = ether_frame h type payload dst dev.address in
    let (n, s') = callback frame s in (all_written n (length frame), s')

-- `memcmp(x, y, n) == 0`
abbrev pub same_bytes : List ℕ → List ℕ → Bool
same_bytes [] [] = true
same_bytes [] (y ∷ ys) = false
same_bytes (x ∷ xs) [] = false
same_bytes (x ∷ xs) (y ∷ ys) = (x == y) && same_bytes xs ys

-- Whether the frame is for the device or for all.
abbrev pub is_for : Device → List ℕ → Bool
is_for dev frame =
    if same_bytes (take ether_addr_len dev.address) (take ether_addr_len frame)
    then true
    else same_bytes ether_addr_broadcast (take ether_addr_len frame)

module _ {H : Type 0} where
  -- The argument is what the callback read: as many bytes as it returned, or `none`. The allocations
  -- are those of `network_input_handler`.
  unfoldable pub ether_poll_helper :
      Host
      → Bool
      → Bool
      → Device
      → Option (List ℕ)
      → List (Protocol H)
      → Status × List (Protocol H) × Bool
  ether_poll_helper h alloc alloc_link dev none protocols = (fail, protocols, false)
  ether_poll_helper h alloc alloc_link dev (some frame) protocols =
      if ltb (length frame) ether_hdr_size
      then (fail, protocols, false)
      else (if not (is_for dev frame)
          then (fail, protocols, false)
          else network_input_handler alloc alloc_link (ntoh16 h (field16 h frame 12))
              (drop ether_hdr_size frame) dev.index protocols)

  -- `loopback_transmit` returns 0 whatever becomes of the packet.
  unfoldable pub loopback_transmit :
      Bool → Bool → Device → ℕ → List ℕ → List ℕ → List (Protocol H) → Status × List (Protocol H)
  loopback_transmit alloc alloc_link dev type payload dst protocols =
      (ok, (network_input_handler alloc alloc_link type payload dev.index protocols).1)

-- NETWORK_DEVICE_FLAG_BROADCAST | NETWORK_DEVICE_FLAG_NEED_ARP
unfoldable pub ether_setup_helper : Device → Device
ether_setup_helper dev = record dev {
  type = network_device_type_ethernet;
  mtu = ether_payload_size_max;
  flags = 0x0020 + 0x0100;
  header_len = ether_hdr_size;
  address_len = ether_addr_len;
  broadcast = copy_into dev.broadcast ether_addr_broadcast ether_addr_len;
}

unfoldable pub loopback_setup : Device → Device
loopback_setup dev = record dev {
  type = network_device_type_loopback;
  mtu = 65535;
  flags = 0x0010;
  header_len = 0;
  address_len = 0;
}
