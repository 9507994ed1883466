-- ===== src/Arp/Resolve/Learn.antt =====
-- From `arp_input` to `arp_resolve` in src/lib/arp.c.
use llnstack.Base.{
  ℕ, ◌≡◌, refl, ap, ◌∙◌, inl, inr, true, false, some, List, ◌∷◌, take, drop, set, take-take, arith,
}
use llnstack.Util.Endian.{Host}
use llnstack.Net.{
  Interface, Device, Transmit, network_interface_family_ip, network_device_type_ethernet,
  network_device_get_interface,
}
use llnstack.Net.Timer.{Timeval}
use llnstack.Arp.Cache.{
  ArpCache, resolved, is_incomplete, ether_addr_len, arp_cache_alloc, arp_cache_select,
  arp_cache_update, arp_cache_insert,
}
use llnstack.Arp.Cache.Select.{Distinct}
use llnstack.Arp.Cache.Alloc.{arp_cache_alloc_lem}
use llnstack.Arp.Cache.Distinct.{Absent-Others}
use llnstack.Arp.Resolve.{
  is_supported, sha_of, spa_of, tpa_of, arp_answer, arp_input, found, arp_resolve,
}
use llnstack.Arp.Resolve.Laws.{arp_cache_update_lem, arp_cache_select-set}

module _ {S : Type 0} (h : Host) (transmit : Transmit S) (now : Timeval) where
  input_merged :
      (dev : Device) (iface : Interface) (msg : List ℕ) (caches : List ArpCache) (s : S)
      → network_device_get_interface dev network_interface_family_ip ≡ some iface
      → is_supported h msg ≡ true
      → iface.unicast ≡ tpa_of h msg
      → (arp_cache_update (spa_of h msg) (sha_of msg) now caches).0 ≡ true
      → (arp_input h transmit now dev msg (caches, s)).0
        ≡ (arp_cache_update (spa_of h msg) (sha_of msg) now caches).1
  unfolding arp_input arp_answer
  input_merged dev iface msg caches s gi su un m = ground arith

  input_inserted :
      (dev : Device) (iface : Interface) (msg : List ℕ) (caches : List ArpCache) (s : S)
      → network_device_get_interface dev network_interface_family_ip ≡ some iface
      → is_supported h msg ≡ true
      → iface.unicast ≡ tpa_of h msg
      → (arp_cache_update (spa_of h msg) (sha_of msg) now caches) ≡ (false, caches)
      → (arp_input h transmit now dev msg (caches, s)).0
        ≡ (arp_cache_insert (spa_of h msg) (sha_of msg) now caches).1
  unfolding arp_input arp_answer
  input_inserted dev iface msg caches s gi su un m = ground arith

  insert_at :
      (pa : ℕ) (ha : List ℕ) (caches : List ArpCache) (i : ℕ) (x : ArpCache)
      → arp_cache_alloc caches ≡ some (i, x)
      → (arp_cache_insert pa ha now caches).1
        ≡ set caches i (record { state = resolved; pa = pa; ha = ha; timestamp = now })
  unfolding arp_cache_insert
  insert_at pa ha caches i x e = rw (e, arp_cache_insert)

  input-select :
      (dev : Device) (iface : Interface) (msg : List ℕ) (x : ArpCache) (rest : List ArpCache)
      (s : S)
      → Distinct (x ∷ rest)
      → network_device_get_interface dev network_interface_family_ip ≡ some iface
      → is_supported h msg ≡ true
      → iface.unicast ≡ tpa_of h msg
      → (j : ℕ) × (e : ArpCache) × (arp_cache_select
            (spa_of h msg)
            (arp_input h transmit now dev msg (x ∷ rest, s)).0
          ≡ some (j, e))
        × (e.ha ≡ sha_of msg)
        × (is_incomplete e.state ≡ false)
  input-select dev iface msg x rest s d gi su un =
      elim (arp_cache_update_lem (spa_of h msg) (sha_of msg) now (x ∷ rest)) [
        | inl (e, a) ↦
            let (k, y, c, at, o) = arp_cache_alloc_lem x rest in
            (
              k,
              record { state = resolved; pa = spa_of h msg; ha = sha_of msg; timestamp = now },
              ap (arp_cache_select (spa_of h msg)) (
                    input_inserted dev iface msg (x ∷ rest) s gi su un e
                    ∙ insert_at (spa_of h msg) (sha_of msg) (x ∷ rest) k y c)
                  ∙ arp_cache_select-set (spa_of h msg) (x ∷ rest) k y _
                      (Absent-Others (spa_of h msg) (x ∷ rest) k a) at (ground arith),
              refl,
              refl,
            )
        | inr (j, y, e, at, p, others) ↦ (
          j,
          record y { state = resolved; ha = sha_of msg; timestamp = now },
          ap (arp_cache_select (spa_of h msg)) (
                input_merged dev iface msg (x ∷ rest) s gi su un (ap (λ r. r.0) e)
                ∙ ap (λ r. r.1) e)
              ∙ arp_cache_select-set (spa_of h msg) (x ∷ rest) j y _ (others d) at
                  (ground (arith, p)),
          refl,
          refl,
        )
      ]

  resolve_known :
      (dev : Device) (iface : Interface) (pa : ℕ) (caches : List ArpCache) (s : S) (j : ℕ)
      (e : ArpCache)
      → dev.type ≡ network_device_type_ethernet
      → iface.family ≡ network_interface_family_ip
      → arp_cache_select pa caches ≡ some (j, e)
      → is_incomplete e.state ≡ false
      → arp_resolve h transmit now dev iface pa (caches, s)
        ≡ (found (take ether_addr_len e.ha), caches, s)
  unfolding arp_resolve
  resolve_known dev iface pa caches s j e ty fa se inc = rw (se, inc, arp_resolve) (ground arith)

  -- In a table without duplicates that is not empty, on an Ethernet device with an IP interface:
  -- once a supported message for the address of this interface has been handled, the sender's
  -- address resolves to the sender's hardware address, with no further message sent.
  pub arp_learn :
      (dev : Device) (iface : Interface) (msg : List ℕ) (x : ArpCache) (rest : List ArpCache)
      (s : S)
      → Distinct (x ∷ rest)
      → dev.type ≡ network_device_type_ethernet
      → network_device_get_interface dev network_interface_family_ip ≡ some iface
      → iface.family ≡ network_interface_family_ip
      → is_supported h msg ≡ true
      → iface.unicast ≡ tpa_of h msg
      → let (caches', s') = arp_input h transmit now dev msg (x ∷ rest, s) in
        arp_resolve h transmit now dev iface (spa_of h msg) (caches', s')
        ≡ (found (sha_of msg), caches', s')
  arp_learn dev iface msg x rest s d ty gi fa su un =
      let (j, e, se, ha, inc) = input-select dev iface msg x rest s d gi su un in
      resolve_known dev iface (spa_of h msg) (arp_input h transmit now dev msg (x ∷ rest, s)).0
        (arp_input h transmit now dev msg (x ∷ rest, s)).1 j e ty fa se inc
      ∙ ap
          (λ l. (
            found l,
            (arp_input h transmit now dev msg (x ∷ rest, s)).0,
            (arp_input h transmit now dev msg (x ∷ rest, s)).1,
          ))
          (ap (take ether_addr_len) ha ∙ take-take ether_addr_len (drop 8 msg))
