-- ===== src/Arp/Message.antt =====
-- The ARP messages of src/lib/arp.c for Ethernet and IPv4, as the 28 bytes of `struct arp_ether`.
use llnstack.Base.{ℕ, List, ◌∷◌, ◌++◌, take, replicate}
use llnstack.Util.Endian.{Host, hton16, store16, store32}
use llnstack.Net.{Interface, Device, Status, Transmit, network_device_output}
use llnstack.Arp.Cache.{ether_addr_len}

abbrev pub arp_hrd_ether : ℕ
arp_hrd_ether = 1

abbrev pub arp_pro_ip : ℕ
arp_pro_ip = 0x0800

abbrev pub arp_op_request : ℕ
arp_op_request = 1

abbrev pub arp_op_reply : ℕ
arp_op_reply = 2

abbrev pub ip_address_length : ℕ
ip_address_length = 4

abbrev pub ether_type_arp : ℕ
ether_type_arp = 0x0806

-- The size of `struct arp_ether`.
abbrev pub arp_ether_size : ℕ
arp_ether_size = 28

-- A message from its operation and its four addresses.
unfoldable pub arp_ether : Host → ℕ → List ℕ → ℕ → List ℕ → ℕ → List ℕ
arp_ether h op sha spa tha tpa =
    store16 h (hton16 h arp_hrd_ether)
    ++ (store16 h (hton16 h arp_pro_ip)
        ++ (ether_addr_len
            ∷ ip_address_length
            ∷ (store16 h (hton16 h op)
                ++ (take ether_addr_len sha
                    ++ (store32 h spa ++ (take ether_addr_len tha ++ store32 h tpa))))))

module _ {S : Type 0} (h : Host) (transmit : Transmit S) (dev : Device) (iface : Interface) where
  unfoldable pub arp_request : ℕ → S → Status × S
  arp_request tpa s =
      network_device_output transmit dev ether_type_arp
        (arp_ether h arp_op_request dev.address iface.unicast (replicate ether_addr_len 0) tpa)
        dev.broadcast s

  unfoldable pub arp_reply : List ℕ → ℕ → List ℕ → S → Status × S
  arp_reply tha tpa dst s =
      network_device_output transmit dev ether_type_arp
        (arp_ether h arp_op_reply dev.address iface.unicast tha tpa) dst s
