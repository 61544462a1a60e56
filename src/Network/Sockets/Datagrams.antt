-- ===== src/Network/Sockets/Datagrams.antt =====
-- bindUdpSock, dissolveUdpSock and getSockError of src/Network/sockutil.cpp.
use ffzkit.Base.Ints.{pos}
use ffzkit.Base.{Bytes, ℕ, Bool, true, not, Option, none, some, if◌then◌else◌}
use ffzkit.Network.Sockets.{
  unspecified, Family, dgram, udp, Errno, socket, getsockopt_error, connect, getsockname, System, M,
  pure, ◌>>=◌, ◌>>◌, call,
}
use ffzkit.Network.Sockets.Options.{
  default_buf_size, set_close_wait, set_reuseable, set_clo_exec, set_no_blocked, set_recv_buf,
  set_send_buf, set_no_sigpipe,
}
use ffzkit.Network.Sockets.Streams.{
  translate, is_eafnosupport, support_ipv6, family_for, bind_sock, close_failed,
}

module _ (sys : System) where
  unfoldable pub udp_bound : ℕ → Option ℕ → M (Option ℕ)
  unfolding close_failed
  udp_bound fd none = close_failed sys fd
  udp_bound fd (some bound) = pure (some fd)

  unfoldable pub reuse_if : ℕ → Bool → M (Option ℕ)
  unfolding set_reuseable
  reuse_if fd enable_reuse = if enable_reuse then set_reuseable sys fd true true else pure (some 0)

  unfoldable pub set_udp_options : ℕ → Bool → M (Option ℕ)
  unfolding reuse_if set_no_blocked set_send_buf set_recv_buf set_close_wait set_clo_exec
  set_udp_options fd enable_reuse = do
    reuse_if fd enable_reuse
    set_no_sigpipe fd
    set_no_blocked sys fd true
    set_send_buf sys fd default_buf_size
    set_recv_buf sys fd default_buf_size
    set_close_wait sys fd (pos 0)
    set_clo_exec sys fd true

  unfoldable pub udp_with : ℕ → Bytes → Bool → Family → Option ℕ → M (Option ℕ)
  unfolding set_udp_options bind_sock udp_bound
  udp_with port local_ip enable_reuse family none = pure none
  udp_with port local_ip enable_reuse family (some fd) = do
    set_udp_options fd enable_reuse
    bound ← bind_sock sys fd local_ip port family
    udp_bound fd bound

  unfoldable pub bind_udp_sock : ℕ → Bytes → Bool → M (Option ℕ)
  unfolding support_ipv6 family_for udp_with call
  bind_udp_sock port local_ip enable_reuse = do
    support ← support_ipv6 sys
    fd ← call sys (socket (family_for sys local_ip support) dgram udp)
    udp_with port local_ip enable_reuse (family_for sys local_ip support) fd

  unfoldable pub dissolved : Option ℕ → M (Option ℕ)
  unfolding translate is_eafnosupport
  dissolved none s =
      if not (is_eafnosupport (translate (sys.errno s.log))) then (none, s) else (some 0, s)
  dissolved (some ret) s = (some 0, s)

  unfoldable pub dissolve_named : ℕ → Option ℕ → M (Option ℕ)
  unfolding dissolved call
  dissolve_named fd none = pure none
  dissolve_named fd (some named) = do ret ← call sys (connect fd unspecified); dissolved ret

  unfoldable pub dissolve_udp_sock : ℕ → M (Option ℕ)
  unfolding dissolve_named call
  dissolve_udp_sock fd = do named ← call sys (getsockname fd); dissolve_named fd named

  -- `none` is 0, no error. The option that the call gives out is such a number, too.
  unfoldable pub sock_error : Option Errno → Option ℕ → M (Option Errno)
  unfolding translate
  sock_error opt none s = (some (translate (sys.errno s.log)), s)
  sock_error none (some ret) s = (none, s)
  sock_error (some e) (some ret) s = (some (translate e), s)

  unfoldable pub get_sock_error : ℕ → M (Option Errno)
  unfolding sock_error call
  get_sock_error fd s =
      let r = call sys (getsockopt_error fd) s in sock_error (sys.so_error r.1.log) r.0 r.1
