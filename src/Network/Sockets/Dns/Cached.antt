-- ===== src/Network/Sockets/Dns/Cached.antt =====
-- What a look for a host leaves in the DNS cache of src/Network/sockutil.cpp, and what the next look finds.
use ffzkit.Base.{
  Bytes, same_bytes, same_bytes_refl, same_bytes-eq, ℕ, zero, suc, ◌+◌, ◌≤◌, ◌<◌, ◌⊎◌, ◌≡◌, ◌≢◌,
  refl, sym, ap, ◌∙◌, subst, inl, inr, false, List, [], ◌∷◌, Option, none, some, ltb, Bool-cases,
  Option-cases, arith,
}
use native.Mathlib.Decide.{dec_le}
use ffzkit.Network.Sockets.{Sockaddr, AddrInfo, getaddrinfo, time, System, DnsItem, Net, call}
use ffzkit.Network.Sockets.Addresses.{make_sockaddr}
use ffzkit.Network.Sockets.Dns.{
  find_host, erase_host, is_eintr, Request, seconds, Resolved, found, failed, ran_out, use_item,
  keep_or_erase, get_cache_domain_ip, set_cache_domain_ip, get_system_domain_ip, keep_answer,
  ask_system, cache_get_domain_ip,
}

module _ {ℓ} {V : Type ℓ} where
  find_host-erase_same :
      (host : Bytes) (m : List (Bytes × V)) → find_host host (erase_host host m) ≡ none
  unfolding find_host erase_host
  find_host-erase_same host [] = refl
  find_host-erase_same host ((k, v) ∷ m) = elim (Bool-cases (same_bytes k host)) [
    | inl e ↦ rw e (find_host-erase_same host m)
    | inr e ↦ rw (e, find_host, e) (find_host-erase_same host m)
  ]

  find_host-erase_other :
      (host k : Bytes) (m : List (Bytes × V))
      → same_bytes host k ≡ false
      → find_host k (erase_host host m) ≡ find_host k m
  unfolding find_host erase_host
  find_host-erase_other host k [] d = refl
  find_host-erase_other host k ((j, v) ∷ m) d = elim (Bool-cases (same_bytes j host)) [
    | inl e ↦
        let j' = same_bytes-eq j host e in
        let other : same_bytes j k ≡ false = subst (λ x. same_bytes x k ≡ false) (sym j') d in
        rw (e, find_host, other) (find_host-erase_other host k m d)
    | inr e ↦ elim (Bool-cases (same_bytes j k)) [
      | inl f ↦ rw (e, find_host, f) refl
      | inr f ↦ rw (e, find_host, f) (find_host-erase_other host k m d)
    ]
  ]

module _ (sys : System) (host : Bytes) where
  -- The entries of the other hosts stay as they are.
  abbrev KeepsOthers : Net → Net → Type 0
  KeepsOthers s u =
      (k : Bytes) → same_bytes host k ≡ false → find_host k u.dns_cache ≡ find_host k s.dns_cache

  -- The item of the host behind a look, by its result.
  abbrev IsLeft : Request → Resolved → Net → Type 0
  IsLeft r (found addr) u =
      (item : DnsItem) × (find_host host u.dns_cache ≡ some item)
      × (use_item r item.addr_info ≡ found addr)
  IsLeft r failed u = find_host host u.dns_cache ≡ none
  IsLeft r ran_out u = find_host host u.dns_cache ≡ none

  get_system_domain_ip-cache :
      (fuel : ℕ) (s : Net) → (get_system_domain_ip sys fuel host s).1.dns_cache ≡ s.dns_cache
  unfolding get_system_domain_ip call
  get_system_domain_ip-cache zero s = refl
  get_system_domain_ip-cache (suc fuel) s =
      let next = (call sys (getaddrinfo host) s).1 in
      elim (Option-cases (sys.answer s.log (getaddrinfo host))) [
        | inr (n, a) ↦ rw (get_system_domain_ip, a) refl
        | inl a ↦ elim (Bool-cases (is_eintr (sys.errno next.log))) [
          | inl again ↦ rw (get_system_domain_ip, a, again) (get_system_domain_ip-cache fuel next)
          | inr ended ↦ rw (get_system_domain_ip, a, ended) refl
        ]
      ]

  keep_answer-IsLeft :
      (r : Request) (o : Option (List AddrInfo)) (s u : Net)
      → KeepsOthers s u
      → find_host host u.dns_cache ≡ none
      → KeepsOthers s (keep_answer sys host r o u).1
        × IsLeft r (keep_answer sys host r o u).0 (keep_answer sys host r o u).1
  unfolding keep_answer set_cache_domain_ip use_item find_host call
  keep_answer-IsLeft r none s u o g = (o, g)
  keep_answer-IsLeft r (some []) s u o g = (o, g)
  keep_answer-IsLeft r (some (a ∷ next)) s u o g =
      let item : DnsItem = record {
        addr_info = a ∷ next;
        create_time = seconds (sys.answer u.log time);
      } in
      let here : find_host host ((host, item) ∷ erase_host host u.dns_cache) ≡ some item =
        rw (find_host, same_bytes_refl host) refl in
      (
        λ k d.
            let skip : find_host k ((host, item) ∷ erase_host host u.dns_cache)
                ≡ find_host k (erase_host host u.dns_cache) =
              rw (find_host, d) refl in
            skip ∙ find_host-erase_other host k u.dns_cache d ∙ o k d,
        (item, here, refl),
      )

  -- The item of the host, if there is one, is no null pointer.
  abbrev pub HasAnswer : Net → Type 0
  HasAnswer s = (item : DnsItem) → find_host host s.dns_cache ≡ some item → item.addr_info ≢ []

  -- A look at the cache gives the host's answer, or leaves no entry of the host.
  abbrev IsLooked : Net → List AddrInfo × Net → Type 0
  IsLooked s ([], u) = KeepsOthers s u × (find_host host u.dns_cache ≡ none)
  IsLooked s (a ∷ next, u) =
      KeepsOthers s u
      × (item : DnsItem) × (find_host host u.dns_cache ≡ some item)
      × (item.addr_info ≡ a ∷ next)

  looked :
      (s u : Net) (item : DnsItem) (info : List AddrInfo)
      → KeepsOthers s u
      → find_host host u.dns_cache ≡ some item
      → item.addr_info ≡ info
      → info ≢ []
      → IsLooked s (info, u)
  looked s u item [] o f e ne = absurd (ne refl)
  looked s u item (a ∷ next) o f e ne = (o, item, f, e)

  get_cache_domain_ip-IsLooked :
      (e : ℕ) (s : Net) → HasAnswer s → IsLooked s (get_cache_domain_ip sys host e s)
  unfolding get_cache_domain_ip keep_or_erase call
  get_cache_domain_ip-IsLooked e s filled = elim (Option-cases (find_host host s.dns_cache)) [
    | inl gone ↦ rw (get_cache_domain_ip, gone) (λ k d. refl, gone)
    | inr (item, here) ↦
        elim (Bool-cases (ltb (item.create_time + e) (seconds (sys.answer s.log time)))) [
          | inl late ↦
              rw (get_cache_domain_ip, here, keep_or_erase, late)
                (
                  λ k d. find_host-erase_other host k s.dns_cache d,
                  find_host-erase_same host s.dns_cache,
                )
          | inr fresh ↦
              let t : IsLooked s (item.addr_info, (call sys time s).1) =
                looked s (call sys time s).1 item item.addr_info (λ k d. refl) here refl
                  (filled item here) in
              let eq : get_cache_domain_ip sys host e s ≡ (item.addr_info, (call sys time s).1) =
                rw (get_cache_domain_ip, here, keep_or_erase, fresh) refl in
              subst (IsLooked s) (sym eq) t
        ]
  ]

  ask_system-IsLeft :
      (fuel : ℕ) (r : Request) (s : Net) (t : List AddrInfo × Net)
      → IsLooked s t
      → KeepsOthers s (ask_system sys fuel host r t.0 t.1).1
        × IsLeft r (ask_system sys fuel host r t.0 t.1).0 (ask_system sys fuel host r t.0 t.1).1
  unfolding ask_system use_item
  ask_system-IsLeft fuel r s ([], u) k =
      let a = get_system_domain_ip sys fuel host u in
      let c = sym (get_system_domain_ip-cache fuel u) in
      keep_answer-IsLeft r a.0 s a.1
        (λ j d. subst (λ m. find_host j m ≡ find_host j s.dns_cache) c (k.0 j d))
        (subst (λ m. find_host host m ≡ none) c k.1)
  ask_system-IsLeft fuel r s (a ∷ next, u) k = (k.0, (k.1, k.2, ap (use_item r) k.3))

  cache_get_domain_ip-IsLeft :
      (fuel : ℕ) (r : Request) (s : Net)
      → make_sockaddr sys host 0 ≡ none
      → HasAnswer s
      → KeepsOthers s (cache_get_domain_ip sys fuel host r s).1
        × IsLeft r
            (cache_get_domain_ip sys fuel host r s).0
            (cache_get_domain_ip sys fuel host r s).1
  unfolding cache_get_domain_ip
  cache_get_domain_ip-IsLeft fuel r s e filled =
      rw (cache_get_domain_ip, e)
        (ask_system-IsLeft fuel r s (get_cache_domain_ip sys host r.expire_sec s)
          (get_cache_domain_ip-IsLooked r.expire_sec s filled))

  ask_system-used :
      (fuel : ℕ) (r : Request) (info : List AddrInfo) (u : Net)
      → info ≢ []
      → ask_system sys fuel host r info u ≡ (use_item r info, u)
  unfolding ask_system
  ask_system-used fuel r [] u ne = absurd (ne refl)
  ask_system-used fuel r (a ∷ next) u ne = refl

  -- Within its time an item is used.
  cache_get_domain_ip-fresh :
      (fuel : ℕ) (r : Request) (s : Net) (item : DnsItem)
      → make_sockaddr sys host 0 ≡ none
      → find_host host s.dns_cache ≡ some item
      → seconds (sys.answer s.log time) ≤ item.create_time + r.expire_sec
      → item.addr_info ≢ []
      → cache_get_domain_ip sys fuel host r s ≡ (use_item r item.addr_info, (call sys time s).1)
  unfolding cache_get_domain_ip get_cache_domain_ip keep_or_erase call
  cache_get_domain_ip-fresh fuel r s item e here le ne =
      let fresh : ltb (item.create_time + r.expire_sec) (seconds (sys.answer s.log time)) ≡ false =
        ground arith in
      rw (cache_get_domain_ip, e, get_cache_domain_ip, here, keep_or_erase, fresh)
        (ask_system-used fuel r item.addr_info (call sys time s).1 ne)

  filled_item :
      (r : Request) (info : List AddrInfo) (addr : Sockaddr)
      → use_item r info ≡ found addr
      → info ≢ []
  unfolding use_item
  filled_item r [] addr e = cc
  filled_item r (a ∷ next) addr e = λ f. cc

  -- When a host that is no address has been resolved, the cache has an item of this host, and the
  -- address was taken from it. Unless the clock is past its time by then, the next call for this
  -- host, whatever it prefers, takes its address from that item and makes no call of the system but
  -- that of the clock.
  pub resolved_once :
      (fuel fuel2 : ℕ) (r r2 : Request) (s : Net) (addr : Sockaddr)
      → make_sockaddr sys host 0 ≡ none
      → HasAnswer s
      → (cache_get_domain_ip sys fuel host r s).0 ≡ found addr
      → let u = (cache_get_domain_ip sys fuel host r s).1 in
        (item : DnsItem) × (find_host host u.dns_cache ≡ some item)
        × (use_item r item.addr_info ≡ found addr)
        × ((item.create_time + r2.expire_sec < seconds (sys.answer u.log time))
            ⊎ (cache_get_domain_ip sys fuel2 host r2 u
                ≡ (use_item r2 item.addr_info, (call sys time u).1)))
  resolved_once fuel fuel2 r r2 s addr e filled done =
      let u = (cache_get_domain_ip sys fuel host r s).1 in
      let left = (cache_get_domain_ip-IsLeft fuel r s e filled).1 in
      let l : IsLeft r (found addr) u = subst (λ x. IsLeft r x u) done left in
      (
        l.0,
        l.1,
        l.2,
        elim (dec_le (seconds (sys.answer u.log time)) (l.0.create_time + r2.expire_sec)) [
          | yes le ↦ inr (
              cache_get_domain_ip-fresh fuel2 r2 u l.0 e l.1 le
                (filled_item r l.0.addr_info addr l.2))
          | no past ↦ inl (omega arith)
        ],
      )
