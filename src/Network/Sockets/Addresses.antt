-- ===== src/Network/Sockets/Addresses.antt =====
-- Addresses and their texts: inet_ntoa, inet_port, is_ipv4, is_ipv6, make_sockaddr and the addresses of a
-- socket of src/Network/sockutil.cpp.
use ffzkit.Base.{
  Bytes, same_bytes, ℕ, Bool, [], ◌∷◌, ◌++◌, Option, none, some, if◌then◌else◌, take, drop,
  replicate, is_some,
}
use ffzkit.Network.Sockets.{
  Sockaddr, in4, in6, unspecified, unknown, System, Log, getsockname, getpeername, M, pure, ◌>>=◌,
  call, Call,
}

-- The macro IN6_IS_ADDR_V4MAPPED: ten bytes 0 and two bytes 0xFF in front.
pub is_v4mapped : Bytes → Bool
is_v4mapped addr = same_bytes (take 12 addr) (replicate 10 0 ++ 255 ∷ 255 ∷ [])

unfoldable pub my_inet_ntop : Option Bytes → Bytes
my_inet_ntop none = []
my_inet_ntop (some text) = text

module _ (sys : System) where
  unfoldable pub inet_ntoa : Sockaddr → Bytes
  unfolding my_inet_ntop is_v4mapped
  inet_ntoa (in4 addr port) = my_inet_ntop (sys.inet_ntop4 addr)
  inet_ntoa (in6 addr port) =
      if is_v4mapped addr
      then my_inet_ntop (sys.inet_ntop4 (take 4 (drop 12 addr)))
      else my_inet_ntop (sys.inet_ntop6 addr)
  inet_ntoa unspecified = []
  inet_ntoa (unknown n) = []

  unfoldable pub inet_port : Sockaddr → ℕ
  inet_port (in4 addr port) = sys.ntohs port
  inet_port (in6 addr port) = sys.ntohs port
  inet_port unspecified = 0
  inet_port (unknown n) = 0

  unfoldable pub is_ipv4 : Bytes → Bool
  unfolding is_some
  is_ipv4 host = is_some (sys.inet_pton4 host)

  unfoldable pub is_ipv6 : Bytes → Bool
  unfolding is_some
  is_ipv6 host = is_some (sys.inet_pton6 host)

  -- `none` is the exception.
  unfoldable pub make_sockaddr : Bytes → ℕ → Option Sockaddr
  make_sockaddr host port = elim (sys.inet_pton4 host) [
    | some addr ↦ some (in4 addr (sys.htons port))
    | none ↦ elim (sys.inet_pton6 host) [
      | some addr6 ↦ some (in6 addr6 (sys.htons port))
      | none ↦ none
    ]
  ]

  -- The function that is passed is the call, with what it gives out.
  unfoldable pub get_socket_addr : Call → (Log → Sockaddr) → M (Option Sockaddr)
  unfolding call
  get_socket_addr func out s =
      let r = call sys func s in
      elim r.0 [ none ↦ (none, r.1) | some ret ↦ (some (out r.1.log), r.1) ]

  unfoldable pub ip_of : Option Sockaddr → Bytes
  unfolding inet_ntoa
  ip_of none = []
  ip_of (some addr) = inet_ntoa addr

  unfoldable pub port_of : Option Sockaddr → ℕ
  unfolding inet_port
  port_of none = 0
  port_of (some addr) = inet_port addr

  unfoldable pub get_socket_ip : Call → (Log → Sockaddr) → M Bytes
  unfolding get_socket_addr ip_of
  get_socket_ip func out = do addr ← get_socket_addr func out; pure (ip_of addr)

  unfoldable pub get_socket_port : Call → (Log → Sockaddr) → M ℕ
  unfolding get_socket_addr port_of
  get_socket_port func out = do addr ← get_socket_addr func out; pure (port_of addr)

  abbrev pub get_local_ip : ℕ → M Bytes
  get_local_ip fd = get_socket_ip (getsockname fd) sys.local_addr

  abbrev pub get_peer_ip : ℕ → M Bytes
  get_peer_ip fd = get_socket_ip (getpeername fd) sys.peer_addr

  abbrev pub get_local_port : ℕ → M ℕ
  get_local_port fd = get_socket_port (getsockname fd) sys.local_addr

  abbrev pub get_peer_port : ℕ → M ℕ
  get_peer_port fd = get_socket_port (getpeername fd) sys.peer_addr
