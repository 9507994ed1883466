-- ===== src/Arp/Cache.antt =====
-- The ARP cache of src/lib/arp.c: a table of ARP_CACHE_SIZE entries, used under its mutex. An entry
-- is named by its place in the table. `now` is what `gettimeofday` returns.
pub mod Select
pub mod Alloc
pub mod Distinct
pub mod Book
pub mod Refine
use llnstack.Base.{
  ℕ, suc, ◌+◌, Bool, true, false, not, ◌&&◌, Option, none, some, List, [], ◌∷◌, map, get_elem?, set,
  replicate, ◌==◌, if◌then◌else◌,
}
use llnstack.Net.Timer.{Timeval, time_gt, diff_sec_gt}

abbrev pub arp_cache_size : ℕ
arp_cache_size = 32

abbrev pub arp_cache_timeout : ℕ
arp_cache_timeout = 30

abbrev pub ether_addr_len : ℕ
ether_addr_len = 6

-- ARP_CACHE_STATE_FREE, _INCOMPLETE, _RESOLVED, _STATIC
pub data CacheState : Type 0 where
  free incomplete resolved static : CacheState

abbrev pub is_free : CacheState → Bool
is_free free = true
is_free _ = false

abbrev pub is_static : CacheState → Bool
is_static static = true
is_static _ = false

abbrev pub is_incomplete : CacheState → Bool
is_incomplete incomplete = true
is_incomplete _ = false

-- `struct arp_cache`
pub record ArpCache : Type 0 where
  pub state : CacheState
  pub pa : ℕ
  pub ha : List ℕ
  pub timestamp : Timeval

-- What `arp_cache_delete` leaves, and static storage starts as.
abbrev pub blank : ArpCache
blank = record {
  state = free;
  pa = 0;
  ha = replicate ether_addr_len 0;
  timestamp = record { sec = 0; usec = 0 };
}

abbrev pub empty_caches : List ArpCache
empty_caches = replicate arp_cache_size blank

-- The loop of `arp_cache_alloc`, at the place `i` with the oldest entry so far.
unfoldable pub alloc_from : ℕ → Option (ℕ × ArpCache) → List ArpCache → Option (ℕ × ArpCache)
alloc_from i oldest [] = oldest
alloc_from i none (entry ∷ rest) =
    let later = alloc_from (suc i) (some (i, entry)) rest in
    if is_free entry.state then some (i, entry) else later
alloc_from i (some (j, old)) (entry ∷ rest) =
    let later =
      alloc_from (suc i)
        (if time_gt old.timestamp entry.timestamp then some (i, entry) else some (j, old)) rest in
    if is_free entry.state then some (i, entry) else later

unfoldable pub arp_cache_alloc : List ArpCache → Option (ℕ × ArpCache)
arp_cache_alloc caches = alloc_from 0 none caches

-- The test of `arp_cache_select`.
abbrev pub holds_pa : ℕ → ArpCache → Bool
holds_pa pa entry = not (is_free entry.state) && (entry.pa == pa)

unfoldable pub select_from : ℕ → ℕ → List ArpCache → Option (ℕ × ArpCache)
select_from i pa [] = none
select_from i pa (entry ∷ rest) =
    if holds_pa pa entry then some (i, entry) else select_from (suc i) pa rest

unfoldable pub arp_cache_select : ℕ → List ArpCache → Option (ℕ × ArpCache)
arp_cache_select pa caches = select_from 0 pa caches

-- The Boolean tells whether an entry was found.
unfoldable pub arp_cache_update : ℕ → List ℕ → Timeval → List ArpCache → Bool × List ArpCache
arp_cache_update pa ha now caches = elim (arp_cache_select pa caches) [
  | none ↦ (false, caches)
  | some (i, cache) ↦
      (true, set caches i (record cache { state = resolved; ha = ha; timestamp = now }))
]

unfoldable pub arp_cache_insert : ℕ → List ℕ → Timeval → List ArpCache → Bool × List ArpCache
arp_cache_insert pa ha now caches = elim (arp_cache_alloc caches) [
  | none ↦ (false, caches)
  | some (i, cache) ↦
      (true, set caches i (record { state = resolved; pa = pa; ha = ha; timestamp = now }))
]

-- The new content of the entry.
unfoldable pub arp_cache_delete : ArpCache → ArpCache
arp_cache_delete cache = blank

-- The body of the loop of `arp_timer`.
unfoldable pub expire : Timeval → ArpCache → ArpCache
expire now entry =
    if not (is_free entry.state) && not (is_static entry.state)
    then (if diff_sec_gt now entry.timestamp arp_cache_timeout
        then arp_cache_delete entry
        else entry)
    else entry

unfoldable pub arp_timer : Timeval → List ArpCache → List ArpCache
arp_timer now caches = map (expire now) caches
