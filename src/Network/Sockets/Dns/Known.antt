-- ===== src/Network/Sockets/Dns/Known.antt =====
-- Where the addresses come from that the DNS cache of src/Network/sockutil.cpp gives out, and how old they
-- are.
use ffzkit.Base.{
  Bytes, same_bytes, same_bytes-eq, ℕ, zero, suc, ◌+◌, ◌≤◌, ◌≡◌, refl, subst, ◌⊎◌, inl, inr, false,
  List, [], ◌∷◌, Option, none, some, ltb, Bool-cases, Option-cases, some-inj, All, arith,
}
use ffzkit.Network.Sockets.{AddrInfo, Call, getaddrinfo, time, Log, System, DnsItem, Net, call}
use ffzkit.Network.Sockets.Addresses.{make_sockaddr}
use ffzkit.Network.Sockets.Dns.Chosen.{IsChosen, use_item-IsChosen}
use ffzkit.Network.Sockets.Dns.{
  find_host, erase_host, is_eintr, Request, seconds, Resolved, found, failed, ran_out, use_item,
  keep_or_erase, get_cache_domain_ip, set_cache_domain_ip, get_system_domain_ip, keep_answer,
  ask_system, cache_get_domain_ip,
}

not_late : (a b : ℕ) → ltb a b ≡ false → b ≤ a
not_late a b e = ground arith

module _ (sys : System) where
  -- The last call was a getaddrinfo for the host, and this was its answer.
  abbrev IsAnswer : Bytes → List AddrInfo → Log → Type 0
  IsAnswer host info [] = ⊥
  IsAnswer host info ((c, r) ∷ h) = (c ≡ getaddrinfo host) × (sys.addresses ((c, r) ∷ h) ≡ info)

  -- At some time in the log the host had that answer, and the clock was read right behind it.
  abbrev pub WasKept : Bytes → List AddrInfo → ℕ → Log → Type 0
  WasKept host info t [] = ⊥
  WasKept host info t ((c, r) ∷ h) =
      ((c ≡ time) × (seconds r ≡ t) × IsAnswer host info h) ⊎ WasKept host info t h

  -- The last call read the clock, and the system had given the answer right before, or at a time
  -- since when no more than so many seconds have gone by.
  abbrev pub IsFresh : Bytes → List AddrInfo → ℕ → Log → Type 0
  IsFresh host info expire_sec [] = ⊥
  IsFresh host info expire_sec ((c, r) ∷ h) =
      (c ≡ time)
      × (IsAnswer host info h ⊎ (t : ℕ) × WasKept host info t h × (seconds r ≤ t + expire_sec))

  abbrev pub IsKept : Log → Bytes × DnsItem → Type 0
  IsKept h e = WasKept e.0 e.1.addr_info e.1.create_time h

  -- Each item of the cache is an answer of the system, with the time that it was kept.
  abbrev pub IsKnown : Net → Type 0
  IsKnown s = All (IsKept s.log) s.dns_cache

  All-map :
      {P Q : Bytes × DnsItem → Type 0} (m : List (Bytes × DnsItem))
      → ((e : Bytes × DnsItem) → P e → Q e)
      → All P m
      → All Q m
  All-map [] f h = tt
  All-map (e ∷ m) f h = (f e h.0, All-map m f h.1)

  All-erase :
      (P : Bytes × DnsItem → Type 0) (host : Bytes) (m : List (Bytes × DnsItem))
      → All P m
      → All P (erase_host host m)
  unfolding erase_host
  All-erase P host [] h = tt
  All-erase P host ((k, v) ∷ m) h = elim (Bool-cases (same_bytes k host)) [
    | inl e ↦ rw e (All-erase P host m h.1)
    | inr e ↦ rw e (h.0, All-erase P host m h.1)
  ]

  All-find :
      (P : Bytes × DnsItem → Type 0) (host : Bytes) (m : List (Bytes × DnsItem)) (item : DnsItem)
      → All P m
      → find_host host m ≡ some item
      → P (host, item)
  unfolding find_host
  All-find P host [] item h e = cc
  All-find P host ((k, v) ∷ m) item h e = elim (Bool-cases (same_bytes k host)) [
    | inl f ↦
        let same = same_bytes-eq k host f in
        let value : v ≡ item = some-inj (rw f at e) in
        subst (λ x. P (x, item)) same (subst (λ x. P (k, x)) value h.0)
    | inr f ↦ All-find P host m item h.1 (rw f at e)
  ]

  IsKnown-call : (c : Call) (s : Net) → IsKnown s → IsKnown (call sys c s).1
  unfolding call
  IsKnown-call c s k = All-map s.dns_cache (λ e h. inr h) k

  -- What holds behind a look for the host: the cache is known, and an address that is found is the
  -- one that the request takes from an answer which is fresh.
  abbrev pub IsResolved : Bytes → Request → Resolved → Net → Type 0
  IsResolved host r (found addr) s =
      IsKnown s
      × (info : List AddrInfo) × IsChosen r info addr
      × IsFresh host info r.expire_sec s.log
  IsResolved host r failed s = IsKnown s
  IsResolved host r ran_out s = IsKnown s

  -- An answer of the system is the last call, and the cache is as it was.
  abbrev IsAsked : Bytes → Option (List AddrInfo) × Net → Type 0
  IsAsked host (none, s) = IsKnown s
  IsAsked host (some info, s) = IsKnown s × IsAnswer host info s.log

  get_system_domain_ip-IsAsked :
      (fuel : ℕ) (host : Bytes) (s : Net)
      → IsKnown s
      → IsAsked host (get_system_domain_ip sys fuel host s)
  unfolding get_system_domain_ip call
  get_system_domain_ip-IsAsked zero host s k = k
  get_system_domain_ip-IsAsked (suc fuel) host s k =
      let next = (call sys (getaddrinfo host) s).1 in
      let k' = IsKnown-call (getaddrinfo host) s k in
      elim (Option-cases (sys.answer s.log (getaddrinfo host))) [
        | inr (n, a) ↦ rw (get_system_domain_ip, a) (k', (refl, refl))
        | inl a ↦ elim (Bool-cases (is_eintr (sys.errno next.log))) [
          | inl again ↦
              rw (get_system_domain_ip, a, again) (get_system_domain_ip-IsAsked fuel host next k')
          | inr ended ↦ rw (get_system_domain_ip, a, ended) (k', (refl, refl))
        ]
      ]

  abbrev IsTaken : Bytes → ℕ → List AddrInfo × Net → Type 0
  IsTaken host e ([], s) = IsKnown s
  IsTaken host e (a ∷ next, s) = IsKnown s × IsFresh host (a ∷ next) e s.log

  keep_or_erase-IsTaken :
      (host : Bytes) (e : ℕ) (item : DnsItem) (s : Net)
      → IsKnown s
      → WasKept host item.addr_info item.create_time s.log
      → IsTaken host e (keep_or_erase sys host e item (call sys time s).0 (call sys time s).1)
  unfolding keep_or_erase call
  keep_or_erase-IsTaken host e item s k w =
      let now = sys.answer s.log time in
      elim (Bool-cases (ltb (item.create_time + e) (seconds now))) [
        | inl late ↦
            rw late
              (All-erase (IsKept ((time, now) ∷ s.log)) host s.dns_cache (IsKnown-call time s k))
        | inr fresh ↦ rw fresh (taken item.addr_info (not_late _ _ fresh) w)
      ]
    where
      taken :
          (info : List AddrInfo)
          → seconds (sys.answer s.log time) ≤ item.create_time + e
          → WasKept host info item.create_time s.log
          → IsTaken host e (info, (call sys time s).1)
      taken [] le w' = IsKnown-call time s k
      taken (a ∷ next) le w' = (IsKnown-call time s k, (refl, inr (item.create_time, w', le)))

  get_cache_domain_ip-IsTaken :
      (host : Bytes) (e : ℕ) (s : Net)
      → IsKnown s
      → IsTaken host e (get_cache_domain_ip sys host e s)
  unfolding get_cache_domain_ip
  get_cache_domain_ip-IsTaken host e s k = elim (Option-cases (find_host host s.dns_cache)) [
    | inl gone ↦ rw (get_cache_domain_ip, gone) k
    | inr (item, here) ↦
        rw (get_cache_domain_ip, here)
          (keep_or_erase-IsTaken host e item s k
            (All-find (IsKept s.log) host s.dns_cache item k here))
  ]

  keep_answer-IsResolved :
      (host : Bytes) (r : Request) (a : Option (List AddrInfo) × Net)
      → IsAsked host a
      → IsResolved host r (keep_answer sys host r a.0 a.1).0 (keep_answer sys host r a.0 a.1).1
  unfolding keep_answer set_cache_domain_ip use_item call
  keep_answer-IsResolved host r (none, s) k = k
  keep_answer-IsResolved host r (some [], s) k = k.0
  keep_answer-IsResolved host r (some (a ∷ next), s) k =
      let now = sys.answer s.log time in
      (
        (
          inl (refl, refl, k.1),
          All-erase (IsKept ((time, now) ∷ s.log)) host s.dns_cache (IsKnown-call time s k.0),
        ),
        a ∷ next,
        use_item-IsChosen r a next,
        (refl, inl k.1),
      )

  ask_system-IsResolved :
      (fuel : ℕ) (host : Bytes) (r : Request) (t : List AddrInfo × Net)
      → IsTaken host r.expire_sec t
      → IsResolved host r
          (ask_system sys fuel host r t.0 t.1).0
          (ask_system sys fuel host r t.0 t.1).1
  unfolding ask_system use_item
  ask_system-IsResolved fuel host r ([], s) k =
      keep_answer-IsResolved host r (get_system_domain_ip sys fuel host s)
        (get_system_domain_ip-IsAsked fuel host s k)
  ask_system-IsResolved fuel host r (a ∷ next, s) k =
      (k.0, a ∷ next, use_item-IsChosen r a next, k.1)

  -- For a host that is no address, the DNS cache keeps only answers of the system, each with the time
  -- at which it was kept; and an address that is given out is the preferred one of an answer which the
  -- system has given for this host in this call, or that was kept no longer ago than the request
  -- allows by the clock.
  pub cache_get_domain_ip-IsResolved :
      (fuel : ℕ) (host : Bytes) (r : Request) (s : Net)
      → make_sockaddr sys host 0 ≡ none
      → IsKnown s
      → IsResolved host r
          (cache_get_domain_ip sys fuel host r s).0
          (cache_get_domain_ip sys fuel host r s).1
  unfolding cache_get_domain_ip
  cache_get_domain_ip-IsResolved fuel host r s e k =
      rw (cache_get_domain_ip, e)
        (ask_system-IsResolved fuel host r (get_cache_domain_ip sys host r.expire_sec s)
          (get_cache_domain_ip-IsTaken host r.expire_sec s k))
