-- ===== src/Network/Sockets/Dns.antt =====
-- DnsCache and SockUtil::getDomainIP of src/Network/sockutil.cpp. The mutex makes each look at the cache
-- one step; the calls here come one after the other.
pub mod Chosen
pub mod Known
pub mod Cached
use ffzkit.Base.{
  Bytes, same_bytes, ℕ, zero, suc, ◌+◌, Bool, true, false, ◌&&◌, List, [], ◌∷◌, Option, none, some,
  ltb, ◌==◌, if◌then◌else◌,
}
use ffzkit.Network.Sockets.{
  Sockaddr, in4, in6, unspecified, unknown, Family, SockType, stream, Protocol, tcp, Errno,
  AddrInfo, getaddrinfo, time, System, DnsItem, Net, M, pure, ◌>>=◌, ◌>>◌, call,
}
use ffzkit.Network.Sockets.Addresses.{make_sockaddr}

module _ {ℓ} {V : Type ℓ} where
  unfoldable pub find_host : Bytes → List (Bytes × V) → Option V
  find_host host [] = none
  find_host host ((k, v) ∷ m) = if same_bytes k host then some v else find_host host m

  unfoldable pub erase_host : Bytes → List (Bytes × V) → List (Bytes × V)
  erase_host host [] = []
  erase_host host ((k, v) ∷ m) =
      let rest = erase_host host m in if same_bytes k host then rest else (k, v) ∷ rest

unfoldable pub same_family : Family → Family → Bool
same_family Family.inet Family.inet = true
same_family Family.inet6 Family.inet6 = true
same_family Family.unspec Family.unspec = true
same_family (Family.other n) (Family.other m) = n == m
same_family a b = false

unfoldable pub same_socktype : SockType → SockType → Bool
same_socktype stream stream = true
same_socktype SockType.dgram SockType.dgram = true
same_socktype (SockType.raw n) (SockType.raw m) = n == m
same_socktype a b = false

unfoldable pub same_protocol : Protocol → Protocol → Bool
same_protocol tcp tcp = true
same_protocol Protocol.udp Protocol.udp = true
same_protocol (Protocol.ip n) (Protocol.ip m) = n == m
same_protocol a b = false

unfoldable pub is_eintr : Errno → Bool
is_eintr Errno.eintr = true
is_eintr e = false

-- The family, the type and the protocol that a caller prefers, and how long an item is kept.
pub record Request : Type 0 where
  pub ai_family : Family
  pub ai_socktype : SockType
  pub ai_protocol : Protocol
  pub expire_sec : ℕ

unfoldable pub is_preferred : Request → AddrInfo → Bool
unfolding same_family same_socktype same_protocol
is_preferred r a =
    same_family a.ai_family r.ai_family
    && same_socktype a.ai_socktype r.ai_socktype
    && same_protocol a.ai_protocol r.ai_protocol

unfoldable pub first_preferred : Request → List AddrInfo → Option AddrInfo
unfolding is_preferred
first_preferred r [] = none
first_preferred r (a ∷ next) = if is_preferred r a then some a else first_preferred r next

-- The answer is the head of its list, and is not null.
unfoldable pub get_preferred_address : Request → AddrInfo → List AddrInfo → AddrInfo
unfolding first_preferred
get_preferred_address r answer next = elim (first_preferred r (answer ∷ next)) [
  | none ↦ answer
  | some a ↦ a
]

-- What the last call of `time` answered.
abbrev pub seconds : Option ℕ → ℕ
seconds none = 0
seconds (some t) = t

unfoldable pub set_port : ℕ → Sockaddr → Sockaddr
set_port port (in4 a p) = in4 a port
set_port port (in6 a p) = in6 a port
set_port port unspecified = unspecified
set_port port (unknown n) = unknown n

-- A list of answers that is empty is a null pointer.
pub data Resolved : Type 0 where
  found : Sockaddr → Resolved
  failed : Resolved
  ran_out : Resolved

unfoldable pub use_item : Request → List AddrInfo → Resolved
unfolding get_preferred_address
use_item r [] = failed
use_item r (a ∷ next) = found (get_preferred_address r a next).ai_addr

unfoldable pub with_port : ℕ → Resolved → Resolved
unfolding set_port
with_port port (found addr) = found (set_port port addr)
with_port port failed = failed
with_port port ran_out = ran_out

module _ (sys : System) where
  unfoldable pub keep_or_erase : Bytes → ℕ → DnsItem → Option ℕ → M (List AddrInfo)
  unfolding erase_host
  keep_or_erase host expire_sec item now s =
      if ltb (item.create_time + expire_sec) (seconds now)
      then ([], record s { dns_cache = erase_host host s.dns_cache })
      else (item.addr_info, s)

  unfoldable pub get_cache_domain_ip : Bytes → ℕ → M (List AddrInfo)
  unfolding find_host keep_or_erase call
  get_cache_domain_ip host expire_sec s = elim (find_host host s.dns_cache) [
    | none ↦ ([], s)
    | some item ↦ let r = call sys time s in keep_or_erase host expire_sec item r.0 r.1
  ]

  unfoldable pub set_cache_domain_ip : Bytes → List AddrInfo → M (Unit {0})
  unfolding erase_host call
  set_cache_domain_ip host info s =
      let r = call sys time s in
      let item : DnsItem = record { addr_info = info; create_time = seconds r.0 } in
      (tt, record r.1 { dns_cache = (host, item) ∷ erase_host host r.1.dns_cache })

  -- The calls of getaddrinfo until one is not interrupted, where `none` is fuel that has run out.
  unfoldable pub get_system_domain_ip : ℕ → Bytes → M (Option (List AddrInfo))
  unfolding is_eintr call
  get_system_domain_ip zero host s = (none, s)
  get_system_domain_ip (suc fuel) host s =
      let r = call sys (getaddrinfo host) s in
      let again = get_system_domain_ip fuel host r.1 in
      let answer : Option (List AddrInfo) × Net = (some (sys.addresses r.1.log), r.1) in
      elim r.0 [ none ↦ if is_eintr (sys.errno r.1.log) then again else answer | some ret ↦ answer ]

  unfoldable pub keep_answer : Bytes → Request → Option (List AddrInfo) → M Resolved
  unfolding set_cache_domain_ip use_item
  keep_answer host r none = pure ran_out
  keep_answer host r (some []) = pure failed
  keep_answer host r (some (a ∷ next)) = do
    set_cache_domain_ip host (a ∷ next)
    pure (use_item r (a ∷ next))

  unfoldable pub ask_system : ℕ → Bytes → Request → List AddrInfo → M Resolved
  unfolding get_system_domain_ip keep_answer use_item
  ask_system fuel host r [] = do answer ← get_system_domain_ip fuel host; keep_answer host r answer
  ask_system fuel host r (a ∷ next) = pure (use_item r (a ∷ next))

  unfoldable pub cache_get_domain_ip : ℕ → Bytes → Request → M Resolved
  unfolding make_sockaddr get_cache_domain_ip ask_system
  cache_get_domain_ip fuel host r s = elim (make_sockaddr sys host 0) [
    | some addr ↦ (found addr, s)
    | none ↦
        let item = get_cache_domain_ip host r.expire_sec s in ask_system fuel host r item.0 item.1
  ]

  unfoldable pub get_domain_ip : ℕ → Bytes → ℕ → Request → M Resolved
  unfolding cache_get_domain_ip with_port
  get_domain_ip fuel host port r = do
    addr ← cache_get_domain_ip fuel host r
    pure (with_port (sys.htons port) addr)
