-- ===== src/Arp/Resolve/Laws.antt =====
-- What the resolver and the message handler of src/lib/arp.c guarantee together.
use llnstack.Base.{
  ℕ, zero, suc, ◌+◌, ◌≡◌, ◌≢◌, ◌⊎◌, inl, inr, Bool, true, false, none, some, List, [], ◌∷◌, take,
  get_elem?, set, Bool-cases, Option-cases, ◌!=◌, arith,
}
use llnstack.Util.Endian.{Host}
use llnstack.Net.{
  Interface, Device, Transmit, network_interface_family_ip, network_device_type_ethernet,
}
use llnstack.Net.Timer.{Timeval}
use llnstack.Arp.Cache.{
  ArpCache, resolved, is_free, is_incomplete, holds_pa, ether_addr_len, select_from,
  arp_cache_alloc, arp_cache_select, arp_cache_update,
}
use llnstack.Arp.Cache.Select.{Absent, Others, Distinct, arp_cache_select_lem}
use llnstack.Arp.Cache.Distinct.{
  Absent-Others, Distinct-set, arp_cache_update-Distinct, arp_cache_insert-Distinct,
}
use llnstack.Arp.Message.{arp_request}
use llnstack.Arp.Resolve.{
  is_supported, sha_of, spa_of, arp_answer, arp_input, Resolution, error, unresolved, found,
  pending, arp_resolve,
}

select_from-set :
    (i pa : ℕ) (caches : List ArpCache) (j : ℕ) (x e : ArpCache)
    → Others pa caches j
    → get_elem? caches j ≡ some x
    → holds_pa pa e ≡ true
    → select_from i pa (set caches j e) ≡ some (i + j, e)
unfolding select_from
select_from-set i pa [] j x e o g h = cc
select_from-set i pa (y ∷ rest) zero x e o g h = ground arith
select_from-set i pa (y ∷ rest) (suc j) x e o g h =
    ground (arith, select_from-set (suc i) pa rest j x e o.1 g h)

-- An entry written where no other entry holds its address is the one that is found.
pub arp_cache_select-set :
    (pa : ℕ) (caches : List ArpCache) (j : ℕ) (x e : ArpCache)
    → Others pa caches j
    → get_elem? caches j ≡ some x
    → holds_pa pa e ≡ true
    → arp_cache_select pa (set caches j e) ≡ some (j, e)
unfolding arp_cache_select
arp_cache_select-set pa caches j x e o g h = ground (arith, select_from-set 0 pa caches j x e o g h)

-- `arp_cache_update` reports false and changes nothing exactly when no entry holds the address.
pub arp_cache_update_lem :
    (pa : ℕ) (ha : List ℕ) (now : Timeval) (caches : List ArpCache)
    → ((arp_cache_update pa ha now caches ≡ (false, caches)) × Absent pa caches)
      ⊎ ((j : ℕ) × (e : ArpCache) × (arp_cache_update pa ha now caches
            ≡ (true, set caches j (record e { state = resolved; ha = ha; timestamp = now })))
          × (get_elem? caches j ≡ some e)
          × (e.pa ≡ pa)
          × (Distinct caches → Others pa caches j))
unfolding arp_cache_update
arp_cache_update_lem pa ha now caches = elim (arp_cache_select_lem pa caches) [
  | inl (e, a) ↦ inl (rw (e, arp_cache_update), a)
  | inr (j, e, f, at, u, p, others) ↦ inr (j, e, rw (f, arp_cache_update), at, p, others)
]

module _ {S : Type 0} (h : Host) (transmit : Transmit S) (now : Timeval) where
  arp_answer-Distinct :
      (dev : Device) (merge : Bool) (msg : List ℕ) (caches : List ArpCache) (s : S)
      → (merge ≡ false → Absent (spa_of h msg) caches)
      → Distinct caches
      → Distinct (arp_answer h transmit now dev merge msg (caches, s)).0
  unfolding arp_answer
  arp_answer-Distinct dev merge msg caches s a d =
      ground (arith, arp_cache_insert-Distinct (spa_of h msg) (sha_of msg) now caches, a)

  update-Absent :
      (pa : ℕ) (ha : List ℕ) (caches : List ArpCache)
      → (arp_cache_update pa ha now caches).0 ≡ false
      → Absent pa (arp_cache_update pa ha now caches).1
  update-Absent pa ha caches f = elim (arp_cache_update_lem pa ha now caches) [
    | inl (e, a) ↦ rw e a
    | inr (j, x, e, at, p, others) ↦ absurd (cc)
  ]

  -- Where no other thread runs between its two critical sections, `arp_input` keeps at most one entry
  -- for an address.
  pub arp_input-Distinct :
      (dev : Device) (msg : List ℕ) (caches : List ArpCache) (s : S)
      → Distinct caches
      → Distinct (arp_input h transmit now dev msg (caches, s)).0
  unfolding arp_input
  arp_input-Distinct dev msg caches s d = elim (Bool-cases (is_supported h msg)) [
    | inl y ↦ rw y (
        arp_answer-Distinct dev (arp_cache_update (spa_of h msg) (sha_of msg) now caches).0 msg
          (arp_cache_update (spa_of h msg) (sha_of msg) now caches).1 s
          (update-Absent (spa_of h msg) (sha_of msg) caches)
          (arp_cache_update-Distinct (spa_of h msg) (sha_of msg) now caches d))
    | inr n ↦ rw n d
  ]

  -- The outcomes of `arp_resolve`.
  abbrev pub Resolves :
      Device → Interface → ℕ → List ArpCache → S → Resolution × List ArpCache × S → Type 0
  Resolves dev iface pa caches s r =
      let sent = (arp_request h transmit dev iface pa s).1 in
      (((dev.type ≢ network_device_type_ethernet) ⊎ (iface.family ≢ network_interface_family_ip))
        × (r ≡ (error, caches, s)))
      ⊎ ((dev.type ≡ network_device_type_ethernet)
          × (iface.family ≡ network_interface_family_ip)
          × (((j : ℕ) × (e : ArpCache) × (get_elem? caches j ≡ some e)
                × (e.pa ≡ pa)
                × (is_free e.state ≡ false)
                × (((is_incomplete e.state ≡ true) × (r ≡ (unresolved, caches, sent)))
                    ⊎ ((is_incomplete e.state ≡ false)
                        × (r ≡ (found (take ether_addr_len e.ha), caches, s)))))
              ⊎ ((Absent pa caches
                    × (i : ℕ) × (x : ArpCache) × (arp_cache_alloc caches ≡ some (i, x))
                    × (r ≡ (unresolved, set caches i (pending now pa x), sent)))
                  ⊎ (Absent pa caches
                      × (arp_cache_alloc caches ≡ none)
                      × (r ≡ (error, caches, s))))))

  -- `arp_resolve` fails at once, and changes nothing, exactly on a device that is no Ethernet or an interface
  -- that is not of IP, or where no entry holds the address and none can be had. On an Ethernet and an
  -- interface of IP it copies the hardware address of an entry that is in use for this address and complete,
  -- and then sends nothing; for an entry that waits it repeats the request; and where no entry holds the
  -- address the entry that can be had is left waiting for it and a request is sent.
  pub arp_resolve_lem :
      (dev : Device) (iface : Interface) (pa : ℕ) (caches : List ArpCache) (s : S)
      → Resolves dev iface pa caches s (arp_resolve h transmit now dev iface pa (caches, s))
  unfolding arp_resolve
  arp_resolve_lem dev iface pa caches s =
      elim (Bool-cases (dev.type != network_device_type_ethernet)) [
        | inl w ↦ inl (inl (ground arith), rw (w, arp_resolve))
        | inr t ↦ elim (Bool-cases (iface.family != network_interface_family_ip)) [
          | inl w ↦ inl (inr (ground arith), rw (t, w, arp_resolve))
          | inr f ↦ elim (arp_cache_select_lem pa caches) [
            | inl (e, a) ↦ inr (
              ground arith,
              ground arith,
              inr (elim (Option-cases (arp_cache_alloc caches)) [
                | inl full ↦ inr (a, full, rw (t, f, e, full, arp_resolve))
                | inr ((i, x), c) ↦ inl (a, i, x, c, rw (t, f, e, c, arp_resolve))
              ]),
            )
            | inr (j, x, e, at, u, p, others) ↦ inr (
              ground arith,
              ground arith,
              inl (
                j,
                x,
                at,
                p,
                u,
                elim (Bool-cases (is_incomplete x.state)) [
                  | inl y ↦ inl (y, rw (t, f, e, y, arp_resolve))
                  | inr n ↦ inr (n, rw (t, f, e, n, arp_resolve))
                ],
              ),
            )
          ]
        ]
      ]

  -- `arp_resolve` keeps at most one entry for an address.
  pub arp_resolve-Distinct :
      (dev : Device) (iface : Interface) (pa : ℕ) (caches : List ArpCache) (s : S)
      → Distinct caches
      → Distinct (arp_resolve h transmit now dev iface pa (caches, s)).1
  arp_resolve-Distinct dev iface pa caches s d = elim (arp_resolve_lem dev iface pa caches s) [
    | inl (w, r) ↦ rw r d
    | inr (_, _, inl (j, x, at, p, u, inl (y, r))) ↦ rw r d
    | inr (_, _, inl (j, x, at, p, u, inr (n, r))) ↦ rw r d
    | inr (_, _, inr (inl (a, i, x, c, r))) ↦
        rw r (Distinct-set caches i (pending now pa x) (Absent-Others pa caches i a) d)
    | inr (_, _, inr (inr (a, c, r))) ↦ rw r d
  ]
