-- ===== src/Tests/Arp.antt =====
-- The theorems on src/lib/arp.c at concrete inputs.
use llnstack.Base.{true, ℕ, ◌≡◌, inl, inr, refl, List, [], ◌∷◌}
use llnstack.Util.Endian.{little}
use llnstack.Net.{network_device_get_interface, find_family}
use llnstack.Arp.Cache.{ArpCache, resolved, holds_pa, blank, arp_cache_update}
use llnstack.Arp.Cache.Select.{Distinct}
use llnstack.Arp.Resolve.{
  is_supported, sha_of, spa_of, arp_answer, arp_input, found, pending, arp_resolve,
}
use llnstack.Arp.Resolve.Laws.{Resolves, arp_resolve_lem}
use llnstack.Arp.Resolve.Learn.{arp_learn}
use llnstack.Arp.Resolve.Race.{arp_input_race}
use llnstack.Tests.{keep_frame, now, iface, ethernet, peer}

-- A request of 192.0.2.9 for 192.0.2.2.
abbrev request : List ℕ
request =
    0 ∷ 1 ∷ 8 ∷ 0 ∷ 6 ∷ 4 ∷ 0 ∷ 1 ∷ 2 ∷ 0 ∷ 0 ∷ 0 ∷ 0 ∷ 9 ∷ 192 ∷ 0 ∷ 2 ∷ 9 ∷ 0 ∷ 0 ∷ 0 ∷ 0 ∷ 0 ∷ 0
    ∷ 192 ∷ 0 ∷ 2 ∷ 2 ∷ []

abbrev caches : List ArpCache
caches =
    record { state = resolved; pa = 7; ha = []; timestamp = record { sec = 60; usec = 0 } }
    ∷ blank
    ∷ []

caches-Distinct : Distinct caches
caches-Distinct = (inr (refl, tt), (inl refl, tt))

arp_learn_example :
    let (caches', s') = arp_input little keep_frame now ethernet request (caches, []) in
    arp_resolve little keep_frame now ethernet iface (spa_of little request) (caches', s')
    ≡ (found (sha_of request), caches', s')
unfolding is_supported network_device_get_interface find_family
arp_learn_example =
    arp_learn little keep_frame now ethernet iface request
      (record { state = resolved; pa = 7; ha = []; timestamp = record { sec = 60; usec = 0 } })
      (blank ∷ []) [] caches-Distinct refl refl refl refl refl

arp_resolve_lem_example :
    Resolves little keep_frame now ethernet iface peer caches []
      (arp_resolve little keep_frame now ethernet iface peer (caches, []))
arp_resolve_lem_example = arp_resolve_lem little keep_frame now ethernet iface peer caches []

arp_input_race_example :
    let pa = spa_of little request in
    let waiting = pending now pa blank in
    let inserted : ArpCache = record {
      state = resolved;
      pa = pa;
      ha = sha_of request;
      timestamp = now;
    } in
    let (merge, after) = arp_cache_update pa (sha_of request) now (blank ∷ blank ∷ caches) in
    let (r, caches', s') = arp_resolve little keep_frame now ethernet iface pa (after, []) in
    let held = (arp_answer little keep_frame now ethernet merge request (caches', s')).0 in
    (held ≡ waiting ∷ inserted ∷ caches)
    × (holds_pa pa waiting ≡ true)
    × (holds_pa pa inserted ≡ true)
    × (¬ Distinct held)
unfolding network_device_get_interface find_family
arp_input_race_example =
    arp_input_race little keep_frame now ethernet iface request blank blank caches [] refl refl refl
      refl refl refl (refl, (refl, tt))
