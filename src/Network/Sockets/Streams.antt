-- ===== src/Network/Sockets/Streams.antt =====
-- bind_sock, connect, listen, bindUdpSock, dissolveUdpSock and getSockError of src/Network/sockutil.cpp.
use ffzkit.Base.Ints.{ℤ, pos}
use ffzkit.Base.{
  Bytes, ℕ, ◌==◌, Bool, true, false, ◌&&◌, Option, none, some, if◌then◌else◌, replicate,
}
use ffzkit.Network.Sockets.{
  Sockaddr, in4, in6, Family, stream, tcp, family_of, ipv6_v6only, Errno, eagain, socket, close,
  setsockopt, bind, connect, listen, System, M, pure, ◌>>=◌, ◌>>◌, call,
}
use ffzkit.Network.Sockets.Options.{
  int_of, default_buf_size, set_close_wait, set_no_delay, set_reuseable, set_clo_exec,
  set_no_blocked, set_recv_buf, set_send_buf, set_no_sigpipe,
}
use ffzkit.Network.Sockets.Addresses.{is_ipv4}
use ffzkit.Network.Sockets.Dns.{Request, Resolved, found, failed, ran_out, get_domain_ip}

-- uv_translate_posix_error of src/Util/uv_errno.cpp, on the errors that are told apart.
unfoldable pub translate : Errno → Errno
translate Errno.enobufs = eagain
translate Errno.einprogress = eagain
translate Errno.ewouldblock = eagain
translate e = e

unfoldable pub is_eagain : Errno → Bool
is_eagain Errno.eagain = true
is_eagain e = false

unfoldable pub is_eafnosupport : Errno → Bool
is_eafnosupport Errno.eafnosupport = true
is_eafnosupport e = false

abbrev pub any4 : Bytes
any4 = replicate 4 0

abbrev pub any6 : Bytes
any6 = replicate 16 0

unfoldable pub or_any : Bytes → Option Bytes → Bytes
or_any any none = any
or_any any (some addr) = addr

unfoldable pub is_zero : Option ℕ → Bool
is_zero none = false
is_zero (some ret) = ret == 0

unfoldable pub bind_result : Option ℕ → Option ℕ
bind_result none = none
bind_result (some ret) = some 0

-- -1, or a descriptor; the last where the resolution of the name ran out of fuel.
pub data Connected : Type 0 where
  connected : ℕ → Connected
  refused : Connected
  endless : Connected

abbrev pub as_connected : Option ℕ → Connected
as_connected none = refused
as_connected (some fd) = connected fd

-- connect prefers an IPv4 address, and keeps an item for the 60 seconds of the default.
abbrev pub tcp4 : Request
tcp4 = record { ai_family = Family.inet; ai_socktype = stream; ai_protocol = tcp; expire_sec = 60 }

module _ (sys : System) where
  unfoldable pub probe_result : Option ℕ → M Bool
  unfolding call
  probe_result none = pure false
  probe_result (some fd) = do call sys (close fd); pure true

  unfoldable pub support_ipv6_l : M Bool
  unfolding probe_result call
  support_ipv6_l = do fd ← call sys (socket Family.inet6 stream tcp); probe_result fd

  unfoldable pub keep_flag : Option Bool → M Bool
  unfolding support_ipv6_l
  keep_flag none s = let r = support_ipv6_l s in (r.0, record r.1 { ipv6_flag = some r.0 })
  keep_flag (some flag) s = (flag, s)

  unfoldable pub support_ipv6 : M Bool
  unfolding keep_flag
  support_ipv6 s = keep_flag s.ipv6_flag s

  unfoldable pub bind_sock4 : ℕ → Bytes → ℕ → M (Option ℕ)
  unfolding or_any bind_result call
  bind_sock4 fd ifr_ip port = do
    ret ← call sys (bind fd (in4 (or_any any4 (sys.inet_pton4 ifr_ip)) (sys.htons port)))
    pure (bind_result ret)

  unfoldable pub bind_sock6 : ℕ → Bytes → ℕ → M (Option ℕ)
  unfolding or_any bind_result call
  bind_sock6 fd ifr_ip port = do
    call sys (setsockopt fd ipv6_v6only (int_of false))
    ret ← call sys (bind fd (in6 (or_any any6 (sys.inet_pton6 ifr_ip)) (sys.htons port)))
    pure (bind_result ret)

  unfoldable pub bind_sock : ℕ → Bytes → ℕ → Family → M (Option ℕ)
  unfolding bind_sock4 bind_sock6
  bind_sock fd ifr_ip port Family.inet = bind_sock4 fd ifr_ip port
  bind_sock fd ifr_ip port Family.inet6 = bind_sock6 fd ifr_ip port
  bind_sock fd ifr_ip port Family.unspec = pure none
  bind_sock fd ifr_ip port (Family.other n) = pure none

  unfoldable pub close_failed : ℕ → M (Option ℕ)
  unfolding call
  close_failed fd = do call sys (close fd); pure none

  unfoldable pub finish_connect : ℕ → Bool → Option ℕ → M (Option ℕ)
  unfolding is_zero is_eagain translate close_failed
  finish_connect fd async ret s =
      if is_zero ret
      then (some fd, s)
      else if async && is_eagain (translate (sys.errno s.log))
      then (some fd, s)
      else close_failed fd s

  unfoldable pub connect_bound : ℕ → Sockaddr → Bool → Option ℕ → M (Option ℕ)
  unfolding close_failed finish_connect call
  connect_bound fd addr async none = close_failed fd
  connect_bound fd addr async (some bound) = do
    ret ← call sys (connect fd addr)
    finish_connect fd async ret

  unfoldable pub set_connect_options : ℕ → Bool → M (Option ℕ)
  unfolding set_reuseable set_no_blocked set_no_delay set_send_buf set_recv_buf set_close_wait
      set_clo_exec
  set_connect_options fd async = do
    set_reuseable sys fd true true
    set_no_sigpipe fd
    set_no_blocked sys fd async
    set_no_delay sys fd true
    set_send_buf sys fd default_buf_size
    set_recv_buf sys fd default_buf_size
    set_close_wait sys fd (pos 0)
    set_clo_exec sys fd true

  unfoldable pub connect_with : Sockaddr → Bool → Bytes → ℕ → Option ℕ → M (Option ℕ)
  unfolding set_connect_options bind_sock connect_bound family_of
  connect_with addr async local_ip local_port none = pure none
  connect_with addr async local_ip local_port (some sockfd) = do
    set_connect_options sockfd async
    bound ← bind_sock sockfd local_ip local_port (family_of addr)
    connect_bound sockfd addr async bound

  unfoldable pub connect_to : Bool → Bytes → ℕ → Resolved → M Connected
  unfolding connect_with family_of call
  connect_to async local_ip local_port (found addr) = do
    sockfd ← call sys (socket (family_of addr) stream tcp)
    fd ← connect_with addr async local_ip local_port sockfd
    pure (as_connected fd)
  connect_to async local_ip local_port failed = pure refused
  connect_to async local_ip local_port ran_out = pure endless

  -- `fuel` bounds the interrupted calls of getaddrinfo.
  unfoldable pub connect_host : ℕ → Bytes → ℕ → Bool → Bytes → ℕ → M Connected
  unfolding get_domain_ip connect_to
  connect_host fuel host port async local_ip local_port = do
    addr ← get_domain_ip sys fuel host port tcp4
    connect_to async local_ip local_port addr

  unfoldable pub family_for : Bytes → Bool → Family
  unfolding is_ipv4
  family_for local_ip support =
      if support then (if is_ipv4 sys local_ip then Family.inet else Family.inet6) else Family.inet

  unfoldable pub listen_result : ℕ → Option ℕ → M (Option ℕ)
  unfolding close_failed
  listen_result fd none = close_failed fd
  listen_result fd (some ret) = pure (some fd)

  unfoldable pub listen_bound : ℕ → ℤ → Option ℕ → M (Option ℕ)
  unfolding close_failed listen_result call
  listen_bound fd back_log none = close_failed fd
  listen_bound fd back_log (some bound) = do
    ret ← call sys (listen fd back_log)
    listen_result fd ret

  unfoldable pub set_listen_options : ℕ → M (Option ℕ)
  unfolding set_reuseable set_no_blocked set_clo_exec
  set_listen_options fd = do
    set_reuseable sys fd true false
    set_no_blocked sys fd true
    set_clo_exec sys fd true

  unfoldable pub listen_with : ℕ → Bytes → ℤ → Family → Option ℕ → M (Option ℕ)
  unfolding set_listen_options bind_sock listen_bound
  listen_with port local_ip back_log family none = pure none
  listen_with port local_ip back_log family (some fd) = do
    set_listen_options fd
    bound ← bind_sock fd local_ip port family
    listen_bound fd back_log bound

  unfoldable pub listen_on : ℕ → Bytes → ℤ → M (Option ℕ)
  unfolding support_ipv6 family_for listen_with call
  listen_on port local_ip back_log = do
    support ← support_ipv6
    fd ← call sys (socket (family_for local_ip support) stream tcp)
    listen_with port local_ip back_log (family_for local_ip support) fd
