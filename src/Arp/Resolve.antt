-- ===== src/Arp/Resolve.antt =====
-- `arp_input` and `arp_resolve` of src/lib/arp.c. Each section that runs under the mutex is one
-- function; the state is the cache beside the state of the driver.
pub mod Laws
pub mod Learn
pub mod Race
use llnstack.Base.{
  ℕ, suc, Bool, true, false, not, ◌&&◌, ◌||◌, Option, none, some, List, [], ◌∷◌, take, drop, set,
  length, ltb, ◌==◌, ◌!=◌, if◌then◌else◌,
}
use llnstack.Util.Endian.{Host, ntoh16}
use llnstack.Util.Packed.{byte_at, field16, field32}
use llnstack.Net.{
  Interface, Device, Status, Transmit, network_interface_family_ip, network_device_type_ethernet,
  network_device_get_interface,
}
use llnstack.Net.Timer.{Timeval}
use llnstack.Arp.Cache.{
  ArpCache, incomplete, is_incomplete, arp_cache_alloc, arp_cache_select, arp_cache_update,
  arp_cache_insert, ether_addr_len,
}
use llnstack.Arp.Message.{
  arp_hrd_ether, arp_pro_ip, arp_op_request, ip_address_length, arp_ether_size, arp_request,
  arp_reply,
}

-- The guards of `arp_input`.
unfoldable pub is_supported : Host → List ℕ → Bool
is_supported h msg =
    if ltb (length msg) arp_ether_size
    then false
    else (if (ntoh16 h (field16 h msg 0) != arp_hrd_ether) || (byte_at msg 4 != ether_addr_len)
        then false
        else not
            ((ntoh16 h (field16 h msg 2) != arp_pro_ip) || (byte_at msg 5 != ip_address_length)))

-- The fields of `struct arp_ether`.
abbrev pub op_of : Host → List ℕ → ℕ
op_of h msg = ntoh16 h (field16 h msg 6)

abbrev pub sha_of : List ℕ → List ℕ
sha_of msg = take ether_addr_len (drop 8 msg)

abbrev pub spa_of : Host → List ℕ → ℕ
spa_of h msg = field32 h msg 14

abbrev pub tpa_of : Host → List ℕ → ℕ
tpa_of h msg = field32 h msg 24

module _ {S : Type 0} (h : Host) (transmit : Transmit S) (now : Timeval) where
  -- The part after the first critical section, with its `merge`: the sender is inserted under the
  -- mutex if it was not merged, and a request is answered.
  unfoldable pub arp_answer : Device → Bool → List ℕ → List ArpCache × S → List ArpCache × S
  arp_answer dev merge msg (caches, s) =
      elim (network_device_get_interface dev network_interface_family_ip) [
        | none ↦ (caches, s)
        | some iface ↦
            if iface.unicast == tpa_of h msg
            then (
              if merge then caches else (arp_cache_insert (spa_of h msg) (sha_of msg) now caches).1,
              if op_of h msg == arp_op_request
                  then (arp_reply h transmit dev iface (sha_of msg) (spa_of h msg) (sha_of msg) s).1
                  else s,
            )
            else (caches, s)
      ]

  -- `arp_input` with no other thread in between.
  unfoldable pub arp_input : Device → List ℕ → List ArpCache × S → List ArpCache × S
  arp_input dev msg (caches, s) =
      let (merge, caches') = arp_cache_update (spa_of h msg) (sha_of msg) now caches in
      if is_supported h msg then arp_answer dev merge msg (caches', s) else (caches, s)

-- ARP_RESOLVE_ERROR, ARP_RESOLVE_INCOMPLETE, and ARP_RESOLVE_FOUND with the bytes copied to `ha`.
pub data Resolution : Type 0 where
  error unresolved : Resolution
  found : List ℕ → Resolution

-- The entry that `arp_resolve` takes for an address it does not know.
abbrev pub pending : Timeval → ℕ → ArpCache → ArpCache
pending now pa cache = record cache { state = incomplete; pa = pa; timestamp = now }

module _ {S : Type 0} (h : Host) (transmit : Transmit S) (now : Timeval) where
  unfoldable pub arp_resolve :
      Device → Interface → ℕ → List ArpCache × S → Resolution × List ArpCache × S
  arp_resolve dev iface pa (caches, s) =
      if dev.type != network_device_type_ethernet
      then (error, caches, s)
      else (if iface.family != network_interface_family_ip
          then (error, caches, s)
          else (elim (arp_cache_select pa caches) [
            | some (i, cache) ↦
                if is_incomplete cache.state
                then (unresolved, caches, (arp_request h transmit dev iface pa s).1)
                else (found (take ether_addr_len cache.ha), caches, s)
            | none ↦ elim (arp_cache_alloc caches) [
              | none ↦ (error, caches, s)
              | some (i, cache) ↦ (
                unresolved,
                set caches i (pending now pa cache),
                (arp_request h transmit dev iface pa s).1,
              )
            ]
          ]))
