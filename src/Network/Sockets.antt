-- ===== src/Network/Sockets.antt =====
-- The calls of the operating system that src/Network/sockutil.cpp and src/Poller/PipeWrap.cpp make, as they
-- are built on Linux. What the system answers is a parameter: each answer may depend on all calls that
-- were made before, and the calls are kept in a log. A result of -1 is `none`.
pub mod Options
pub mod Addresses
pub mod Dns
pub mod Streams
pub mod Datagrams
pub mod Kept
pub mod Opened
pub mod Bound
pub mod Adapters
mod Tests
use ffzkit.Base.Ints.{ℤ}
use ffzkit.Base.{Bytes, ℕ, Bool, List, ◌∷◌, Option}

-- The addresses that a sockaddr_storage holds, their bytes and their ports in network order.
pub data Sockaddr : Type 0 where
  in4 : Bytes → ℕ → Sockaddr
  in6 : Bytes → ℕ → Sockaddr
  unspecified : Sockaddr
  unknown : ℕ → Sockaddr

pub data Family : Type 0 where
  inet inet6 unspec : Family
  other : ℕ → Family

unfoldable pub family_of : Sockaddr → Family
family_of (in4 a p) = inet
family_of (in6 a p) = inet6
family_of unspecified = unspec
family_of (unknown n) = other n

pub data SockType : Type 0 where
  stream dgram : SockType
  raw : ℕ → SockType

pub data Protocol : Type 0 where
  tcp udp : Protocol
  ip : ℕ → Protocol

pub data SockOption : Type 0 where
  so_reuseaddr so_reuseport so_keepalive so_rcvbuf so_sndbuf : SockOption
  tcp_nodelay tcp_keepidle tcp_keepintvl tcp_keepcnt ipv6_v6only : SockOption

-- The errors that the code tells apart.
pub data Errno : Type 0 where
  eintr eagain ewouldblock einprogress enobufs eafnosupport : Errno
  another : ℕ → Errno

pub record AddrInfo : Type 0 where
  pub ai_family : Family
  pub ai_socktype : SockType
  pub ai_protocol : Protocol
  pub ai_addr : Sockaddr

pub record Ifreq : Type 0 where
  pub ifr_name : Bytes
  pub ifr_addr : Sockaddr

pub data Call : Type 0 where
  socket : Family → SockType → Protocol → Call
  close : ℕ → Call
  setsockopt : ℕ → SockOption → ℤ → Call
  set_linger : ℕ → Bool → ℤ → Call
  getsockopt_error : ℕ → Call
  fcntl_getfd : ℕ → Call
  fcntl_setfd : ℕ → ℕ → Call
  ioctl_fionbio : ℕ → Bool → Call
  ioctl_siocgifconf : ℕ → Call
  bind : ℕ → Sockaddr → Call
  connect : ℕ → Sockaddr → Call
  listen : ℕ → ℤ → Call
  getsockname getpeername : ℕ → Call
  getaddrinfo : Bytes → Call
  time : Call
  pipe : Call
  read : ℕ → ℕ → Call
  write : ℕ → Bytes → Call
  ioctl_fionread : ℕ → Call

abbrev pub Log : Type 0
Log = List (Call × Option ℕ)

-- `answer` is the result of a call, `errno` what the last call left, and the next eight are the data
-- that a call gives out. The others are functions of the C library.
pub record System : Type 0 where
  pub answer : Log → Call → Option ℕ
  pub errno : Log → Errno
  pub addresses : Log → List AddrInfo
  pub adapters : Log → List Ifreq
  pub so_error : Log → Option Errno
  pub local_addr : Log → Sockaddr
  pub peer_addr : Log → Sockaddr
  pub pipe_fds : Log → ℕ × ℕ
  pub received : Log → Bytes
  pub nread : Log → ℕ
  pub inet_pton4 : Bytes → Option Bytes
  pub inet_pton6 : Bytes → Option Bytes
  pub inet_ntop4 : Bytes → Option Bytes
  pub inet_ntop6 : Bytes → Option Bytes
  pub inet_addr : Bytes → ℕ
  pub htons : ℕ → ℕ
  pub ntohs : ℕ → ℕ
  pub htonl : ℕ → ℕ

-- The item of the DNS cache: the answer of the system and the time it was kept.
pub record DnsItem : Type 0 where
  pub addr_info : List AddrInfo
  pub create_time : ℕ

-- The calls that were made, the flag that support_ipv6 keeps, and the map of the DNS cache.
pub record Net : Type 0 where
  pub log : Log
  pub ipv6_flag : Option Bool
  pub dns_cache : List (Bytes × DnsItem)

abbrev pub M : Type 0 → Type 0
M A = Net → A × Net

abbrev pub pure : {A : Type 0} → A → M A
pure a s = (a, s)

infixl 5 ◌>>=◌ ◌>>◌
abbrev pub ◌>>=◌ : {A B : Type 0} → M A → (A → M B) → M B
◌>>=◌ m f s = f (m s).0 (m s).1

abbrev pub ◌>>◌ : {A B : Type 0} → M A → M B → M B
m >> k = m >>= λ _. k

unfoldable pub call : System → Call → M (Option ℕ)
call sys c s = (sys.answer s.log c, record s { log = (c, sys.answer s.log c) ∷ s.log })
