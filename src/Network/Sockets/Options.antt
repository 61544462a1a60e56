-- ===== src/Network/Sockets/Options.antt =====
-- The options of a socket: the set functions of src/Network/sockutil.cpp. SO_NOSIGPIPE is not there
-- on Linux, and SO_REUSEPORT is.
use ffzkit.Base.Ints.{ℤ, pos, is_positive}
use ffzkit.Base.{ℕ, ◌+◌, ◌*◌, ◌/◌, Bool, true, false, ◌&&◌, Option, none, some, if◌then◌else◌}
use ffzkit.Network.Sockets.{
  System, so_reuseaddr, so_reuseport, so_keepalive, so_rcvbuf, so_sndbuf, tcp_nodelay, tcp_keepidle,
  tcp_keepintvl, tcp_keepcnt, setsockopt, set_linger, fcntl_getfd, fcntl_setfd, ioctl_fionbio, M,
  pure, ◌>>=◌, ◌>>◌, call,
}

abbrev pub int_of : Bool → ℤ
int_of true = pos 1
int_of false = pos 0

abbrev pub default_buf_size : ℤ
default_buf_size = pos (256 * 1024)

pub fd_cloexec_on : ℕ → ℕ
fd_cloexec_on flags = flags / 2 * 2 + 1

pub fd_cloexec_off : ℕ → ℕ
fd_cloexec_off flags = flags / 2 * 2

module _ (sys : System) (fd : ℕ) where
  unfoldable pub set_close_wait : ℤ → M (Option ℕ)
  unfolding call
  set_close_wait second = call sys (set_linger fd (is_positive second) second)

  unfoldable pub set_no_delay : Bool → M (Option ℕ)
  unfolding call
  set_no_delay on = call sys (setsockopt fd tcp_nodelay (int_of on))

  unfoldable pub reuse_port_too : Bool → Bool → Option ℕ → M (Option ℕ)
  unfolding call
  reuse_port_too on reuse_port none = pure none
  reuse_port_too on reuse_port (some ret) =
      if reuse_port then call sys (setsockopt fd so_reuseport (int_of on)) else pure (some ret)

  unfoldable pub set_reuseable : Bool → Bool → M (Option ℕ)
  unfolding reuse_port_too call
  set_reuseable on reuse_port = do
    ret ← call sys (setsockopt fd so_reuseaddr (int_of on))
    reuse_port_too on reuse_port ret

  unfoldable pub keep_alive_params : Bool → ℤ → ℤ → ℤ → Option ℕ → M (Option ℕ)
  unfolding call
  keep_alive_params on interval idle times none = pure none
  keep_alive_params on interval idle times (some ret) =
      if on && is_positive interval
      then (do
        call sys (setsockopt fd tcp_keepidle idle)
        call sys (setsockopt fd tcp_keepintvl interval)
        call sys (setsockopt fd tcp_keepcnt times))
      else pure (some ret)

  unfoldable pub set_keep_alive : Bool → ℤ → ℤ → ℤ → M (Option ℕ)
  unfolding keep_alive_params call
  set_keep_alive on interval idle times = do
    ret ← call sys (setsockopt fd so_keepalive (int_of on))
    keep_alive_params on interval idle times ret

  unfoldable pub put_flags : Bool → Option ℕ → M (Option ℕ)
  unfolding call fd_cloexec_on fd_cloexec_off
  put_flags on none = pure none
  put_flags on (some flags) =
      call sys (fcntl_setfd fd (if on then fd_cloexec_on flags else fd_cloexec_off flags))

  unfoldable pub set_clo_exec : Bool → M (Option ℕ)
  unfolding put_flags call
  set_clo_exec on = do flags ← call sys (fcntl_getfd fd); put_flags on flags

  unfoldable pub set_no_blocked : Bool → M (Option ℕ)
  unfolding call
  set_no_blocked noblock = call sys (ioctl_fionbio fd noblock)

  unfoldable pub set_recv_buf : ℤ → M (Option ℕ)
  unfolding call
  set_recv_buf size =
      if is_positive size then call sys (setsockopt fd so_rcvbuf size) else pure (some 0)

  unfoldable pub set_send_buf : ℤ → M (Option ℕ)
  unfolding call
  set_send_buf size =
      if is_positive size then call sys (setsockopt fd so_sndbuf size) else pure (some 0)

abbrev pub set_no_sigpipe : ℕ → M (Option ℕ)
set_no_sigpipe fd = pure none
