-- ===== src/Arp/Resolve/Race.antt =====
-- `arp_input` gives up the mutex between the search for the sender and its insertion.
use llnstack.Base.{
  ℕ, zero, suc, ◌≡◌, refl, ap, ◌∙◌, inl, inr, Bool, true, false, none, some, List, [], ◌∷◌,
  get_elem?, arith,
}
use mathlib.Core.Path.{subst}
use llnstack.Util.Endian.{Host}
use llnstack.Net.{
  Interface, Device, Transmit, network_interface_family_ip, network_device_type_ethernet,
  network_device_get_interface,
}
use llnstack.Net.Timer.{Timeval}
use llnstack.Arp.Cache.{
  ArpCache, resolved, is_free, holds_pa, alloc_from, arp_cache_alloc, arp_cache_select,
  arp_cache_update, arp_cache_insert,
}
use llnstack.Arp.Cache.Select.{Absent, Distinct, arp_cache_select_lem}
use llnstack.Arp.Resolve.{sha_of, spa_of, tpa_of, arp_answer, pending, arp_resolve}

alloc_first :
    (x : ArpCache) (rest : List ArpCache)
    → is_free x.state ≡ true
    → arp_cache_alloc (x ∷ rest) ≡ some (0, x)
unfolding arp_cache_alloc alloc_from
alloc_first x rest f = ground arith

alloc_second :
    (x y : ArpCache) (rest : List ArpCache)
    → is_free x.state ≡ false
    → is_free y.state ≡ true
    → arp_cache_alloc (x ∷ y ∷ rest) ≡ some (1, y)
unfolding arp_cache_alloc alloc_from
alloc_second x y rest f g = ground arith

Absent-at :
    {pa : ℕ} (caches : List ArpCache) (j : ℕ) (e : ArpCache)
    → Absent pa caches
    → get_elem? caches j ≡ some e
    → is_free e.state ≡ false
    → ¬ (e.pa ≡ pa)
Absent-at [] j e a at u p = cc
Absent-at (x ∷ rest) zero e a at u p = ground (arith, a.0)
Absent-at (x ∷ rest) (suc j) e a at u p = Absent-at rest j e a.1 at u p

select-Absent :
    (pa : ℕ) (caches : List ArpCache) → Absent pa caches → arp_cache_select pa caches ≡ none
select-Absent pa caches a = elim (arp_cache_select_lem pa caches) [
  | inl (e, _) ↦ e
  | inr (j, e, found, at, u, p, others) ↦ absurd (Absent-at caches j e a at u p)
]

module _ {S : Type 0} (h : Host) (transmit : Transmit S) (now : Timeval) (dev : Device)
    (iface : Interface) where
  resolve_new :
      (pa : ℕ) (x : ArpCache) (rest : List ArpCache) (s : S)
      → dev.type ≡ network_device_type_ethernet
      → iface.family ≡ network_interface_family_ip
      → is_free x.state ≡ true
      → Absent pa (x ∷ rest)
      → (arp_resolve h transmit now dev iface pa (x ∷ rest, s)).1 ≡ pending now pa x ∷ rest
  unfolding arp_resolve
  resolve_new pa x rest s ty fa f a =
      ground (arith, select-Absent pa (x ∷ rest) a, alloc_first x rest f)

  answer_inserts :
      (msg : List ℕ) (x y : ArpCache) (rest : List ArpCache) (s : S)
      → network_device_get_interface dev network_interface_family_ip ≡ some iface
      → iface.unicast ≡ tpa_of h msg
      → is_free x.state ≡ false
      → is_free y.state ≡ true
      → (arp_answer h transmit now dev false msg (x ∷ y ∷ rest, s)).0
        ≡ x
          ∷ record { state = resolved; pa = spa_of h msg; ha = sha_of msg; timestamp = now }
          ∷ rest
  unfolding arp_answer arp_cache_insert
  answer_inserts msg x y rest s gi un f g = ground (arith, alloc_second x y rest f g)

  update-Absent :
      (pa : ℕ) (ha : List ℕ) (caches : List ArpCache)
      → Absent pa caches
      → arp_cache_update pa ha now caches ≡ (false, caches)
  unfolding arp_cache_update
  update-Absent pa ha caches a = rw (select-Absent pa caches a, arp_cache_update)

  answer_after :
      (msg : List ℕ) (merge : Bool) (caches : List ArpCache) (x y : ArpCache) (rest : List ArpCache)
      (s : S)
      → merge ≡ false
      → caches ≡ x ∷ y ∷ rest
      → network_device_get_interface dev network_interface_family_ip ≡ some iface
      → iface.unicast ≡ tpa_of h msg
      → is_free x.state ≡ false
      → is_free y.state ≡ true
      → (arp_answer h transmit now dev merge msg (caches, s)).0
        ≡ x
          ∷ record { state = resolved; pa = spa_of h msg; ha = sha_of msg; timestamp = now }
          ∷ rest
  answer_after msg merge caches x y rest s m c gi un f g =
      rw (m, c) (answer_inserts msg x y rest s gi un f g)

  held_twice :
      (pa : ℕ) (x y : ArpCache) (rest : List ArpCache)
      → x.pa ≡ pa
      → y.pa ≡ pa
      → is_free x.state ≡ false
      → is_free y.state ≡ false
      → ¬ Distinct (x ∷ y ∷ rest)
  held_twice pa x y rest p q f g (inl t, d) = cc
  held_twice pa x y rest p q f g (inr a, d) = ground (arith, a.0)

  -- On an Ethernet device with an IP interface, for a message to its address: a thread that
  -- resolves the sender's address between the two critical sections of `arp_input` makes the second
  -- one insert the address again, and the table then holds it twice, once waiting and once resolved, in its
  -- first two entries; the rest of the table is as before. The two entries at the head are free, and no entry
  -- holds the address before.
  pub arp_input_race :
      (msg : List ℕ) (x y : ArpCache) (rest : List ArpCache) (s : S)
      → dev.type ≡ network_device_type_ethernet
      → network_device_get_interface dev network_interface_family_ip ≡ some iface
      → iface.family ≡ network_interface_family_ip
      → iface.unicast ≡ tpa_of h msg
      → is_free x.state ≡ true
      → is_free y.state ≡ true
      → Absent (spa_of h msg) rest
      → let pa = spa_of h msg in
        let waiting = pending now pa x in
        let inserted : ArpCache = record {
          state = resolved;
          pa = pa;
          ha = sha_of msg;
          timestamp = now;
        } in
        let (merge, caches) = arp_cache_update pa (sha_of msg) now (x ∷ y ∷ rest) in
        let (r, caches', s') = arp_resolve h transmit now dev iface pa (caches, s) in
        let after = (arp_answer h transmit now dev merge msg (caches', s')).0 in
        (after ≡ waiting ∷ inserted ∷ rest)
        × (holds_pa pa waiting ≡ true)
        × (holds_pa pa inserted ≡ true)
        × (¬ Distinct after)
  arp_input_race msg x y rest s ty gi fa un f g a =
      let absent : Absent (spa_of h msg) (x ∷ y ∷ rest) = (ground arith, (ground arith, a)) in
      let u = update-Absent (spa_of h msg) (sha_of msg) (x ∷ y ∷ rest) absent in
      let waiting = pending now (spa_of h msg) x in
      let inserted : ArpCache = record {
        state = resolved;
        pa = spa_of h msg;
        ha = sha_of msg;
        timestamp = now;
      } in
      let is =
        answer_after msg _ _ waiting y rest _ (ap (λ r. r.0) u)
          (ap (λ c. (arp_resolve h transmit now dev iface (spa_of h msg) (c, s)).1)
              (ap (λ r. r.1) u)
            ∙ resolve_new (spa_of h msg) x (y ∷ rest) s ty fa f absent)
          gi un refl g in
      (
        is,
        ground arith,
        ground arith,
        λ d.
            held_twice (spa_of h msg) waiting inserted rest refl refl refl refl
              (subst Distinct is d),
      )
