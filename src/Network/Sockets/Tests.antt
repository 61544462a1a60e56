-- ===== src/Network/Sockets/Tests.antt =====
-- Sockets over a small system: each socket is 7, the clock shows 100, every host is 9.9.9.9, and the
-- only texts that are addresses are "1.2.3.4" and those of the adapters.
use ffzkit.Base.Ints.{pos}
use ffzkit.Base.{
  ◌+◌, ◌<◌, ◌⊎◌, Bytes, codes, same_bytes, ℕ, ◌≡◌, refl, true, false, [], ◌∷◌, Option, none, some,
  or_else, if◌then◌else◌, is_some,
}
use ffzkit.Util.Text.Find.{find}
use ffzkit.Network.Sockets.{
  Sockaddr, in4, in6, Family, stream, tcp, einprogress, AddrInfo, Call, time, Log, System,
  family_of, DnsItem, Net, call,
}
use ffzkit.Network.Sockets.Addresses.{make_sockaddr}
use ffzkit.Network.Sockets.Dns.{
  found, seconds, find_host, use_item, cache_get_domain_ip, get_domain_ip,
}
use ffzkit.Network.Sockets.Dns.Known.{IsResolved, cache_get_domain_ip-IsResolved}
use ffzkit.Network.Sockets.Dns.Cached.{resolved_once}
use ffzkit.Network.Sockets.Streams.{connected, refused, tcp4, connect_host, listen_on, support_ipv6}
use ffzkit.Network.Sockets.Datagrams.{bind_udp_sock}
use ffzkit.Network.Sockets.Opened.{opened, with_fd, with_connected, no_socket_leak}
use ffzkit.Network.Sockets.Bound.{IsListening, local_address, listen_on-IsListening}
use ffzkit.Network.Sockets.Bound.Connecting.{IsConnected, connect_host-IsConnected}
use ffzkit.Network.Sockets.Adapters.{get_local_ip, loopback}
use ffzkit.Network.Sockets.Adapters.Local.{
  value_or, first_private, last_usable, listed, get_local_ip_lem,
}

-- A connect is under way, and all else succeeds.
abbrev answer : Log → Call → Option ℕ
answer h (Call.socket f t p) = some 7
answer h (Call.connect fd a) = none
answer h Call.time = some 100
answer h c = some 0

abbrev four : Bytes
four = 1 ∷ 2 ∷ 3 ∷ 4 ∷ []

abbrev nine : AddrInfo
nine = record {
  ai_family = Family.inet;
  ai_socktype = stream;
  ai_protocol = tcp;
  ai_addr = in4 (9 ∷ 9 ∷ 9 ∷ 9 ∷ []) 0;
}

abbrev six : AddrInfo
six = record nine { ai_family = Family.inet6; ai_addr = in6 [] 0 }

abbrev net : System
net = record {
  answer = answer;
  errno = λ h. einprogress;
  addresses = λ h. six ∷ nine ∷ [];
  adapters = λ h.
      record { ifr_name = codes "lo"; ifr_addr = in4 (codes "127.0.0.1") 0 }
      ∷ record { ifr_name = codes "docker0"; ifr_addr = in4 (codes "172.17.0.1") 0 }
      ∷ record { ifr_name = codes "eth0"; ifr_addr = in4 (codes "10.0.0.5") 0 }
      ∷ record { ifr_name = codes "eth1"; ifr_addr = in4 (codes "192.168.0.5") 0 }
      ∷ [];
  so_error = λ h. none;
  local_addr = λ h. in4 four 0;
  peer_addr = λ h. in4 four 0;
  pipe_fds = λ h. (3, 4);
  received = λ h. [];
  nread = λ h. 0;
  inet_pton4 = λ t. if same_bytes t (codes "1.2.3.4") then some four else none;
  inet_pton6 = λ t. none;
  inet_ntop4 = λ a. some a;
  inet_ntop6 = λ a. none;
  inet_addr = λ t. if same_bytes t (codes "192.168.0.5") then 0xC0A80005 else 0x0A000005;
  htons = λ p. p;
  ntohs = λ p. p;
  htonl = λ n. n;
}

abbrev start : Net
start = record { log = []; ipv6_flag = none; dns_cache = [] }

abbrev host : Bytes
host = codes "host"

connects : (connect_host net 1 host 80 true (codes "::") 0 start).0 ≡ connected 7
unfolding connect_host same_bytes
connects = refl

-- A call that waits takes the same answer for a failure, and closes its socket.
connects_not :
    ((connect_host net 1 host 80 false (codes "::") 0 start).0 ≡ refused)
    × (opened (connect_host net 1 host 80 false (codes "::") 0 start).1.log ≡ [])
unfolding connect_host same_bytes opened
connects_not = (refl, refl)

local_ip_found : (get_local_ip net start).0 ≡ codes "192.168.0.5"
unfolding get_local_ip same_bytes find is_some
local_ip_found = refl

get_local_ip_lem_example :
    (get_local_ip net start).0
    ≡ value_or
        (or_else (first_private net (listed net [])) (last_usable net (listed net [])))
        loopback
get_local_ip_lem_example = get_local_ip_lem net start

no_socket_leak_example :
    (opened (connect_host net 1 host 80 true (codes "::") 0 start).1.log
      ≡ with_connected (connect_host net 1 host 80 true (codes "::") 0 start).0 (opened []))
    × (opened (listen_on net 80 (codes "::") (pos 5) start).1.log
        ≡ with_fd (listen_on net 80 (codes "::") (pos 5) start).0 (opened []))
    × (opened (bind_udp_sock net 80 (codes "::") true start).1.log
        ≡ with_fd (bind_udp_sock net 80 (codes "::") true start).0 (opened []))
no_socket_leak_example = no_socket_leak net start 1 host (codes "::") 80 0 true true (pos 5)

listen_on-IsListening_example :
    IsListening net 7
      (some (in4 four 80))
      (pos 5)
      (listen_on net 80 (codes "1.2.3.4") (pos 5) start).1.log
unfolding listen_on support_ipv6 same_bytes
listen_on-IsListening_example =
    listen_on-IsListening net (λ h fd b. (0, refl)) 7 80 (codes "1.2.3.4") (pos 5) start refl

connect_host-IsConnected_example :
    (addr : Sockaddr) × ((get_domain_ip net 1 host 80 tcp4 start).0 ≡ found addr)
    × IsConnected net 7 addr
        (local_address net (codes "::") 0 (family_of addr))
        true
        (connect_host net 1 host 80 true (codes "::") 0 start).1.log
unfolding connect_host same_bytes
connect_host-IsConnected_example =
    connect_host-IsConnected net (λ h fd b. (0, refl)) 1 7 80 0 host (codes "::") true start refl

cache_get_domain_ip-IsResolved_example :
    IsResolved net host tcp4
      (cache_get_domain_ip net 1 host tcp4 start).0
      (cache_get_domain_ip net 1 host tcp4 start).1
unfolding make_sockaddr same_bytes
cache_get_domain_ip-IsResolved_example =
    cache_get_domain_ip-IsResolved net 1 host tcp4 start refl tt

-- The second call needs no fuel.
resolved_once_example :
    let u = (cache_get_domain_ip net 1 host tcp4 start).1 in
    (item : DnsItem) × (find_host host u.dns_cache ≡ some item)
    × (use_item tcp4 item.addr_info ≡ found (in4 (9 ∷ 9 ∷ 9 ∷ 9 ∷ []) 0))
    × ((item.create_time + tcp4.expire_sec < seconds (net.answer u.log time))
        ⊎ (cache_get_domain_ip net 0 host tcp4 u
            ≡ (use_item tcp4 item.addr_info, (call net time u).1)))
unfolding cache_get_domain_ip find_host same_bytes
resolved_once_example =
    resolved_once net host 1 0 tcp4 tcp4 start (in4 (9 ∷ 9 ∷ 9 ∷ 9 ∷ []) 0) refl (λ item e. cc) refl
