-- ===== src/Poller/Pipe.antt =====
-- PipeWrap and Pipe of src/Poller/PipeWrap.cpp and Pipe.cpp, as they are built on Linux, over the calls of
-- Network/Sockets.
pub mod Ends
pub mod Callback
mod Tests
use ffzkit.Base.{
  Bytes, ℕ, zero, suc, ◌+◌, Bool, true, false, List, [], ◌∷◌, ◌++◌, Option, none, some,
  if◌then◌else◌, length, drop, map, replicate,
}
use ffzkit.Network.Sockets.{
  close, pipe, read, write, ioctl_fionread, System, Net, M, pure, ◌>>=◌, ◌>>◌, call,
}
use ffzkit.Network.Sockets.Options.{set_clo_exec, set_no_blocked}
use ffzkit.Network.Sockets.Dns.{is_eintr}

-- `_pipe_fd`, where `none` is -1.
pub record PipeWrap : Type 0 where
  pub read_fd : Option ℕ
  pub write_fd : Option ℕ

abbrev pub no_pipe : PipeWrap
no_pipe = record { read_fd = none; write_fd = none }

-- The bytes that can be read, or 1024 where the call fails.
unfoldable pub available : Option ℕ → ℕ → ℕ
available none nread = 1024
available (some ret) nread = nread

-- A byte that nobody has written is `none`.
unfoldable pub empty_buf : ℕ → List (Option ℕ)
empty_buf nread = replicate nread none ++ (some 0 ∷ [])

unfoldable pub overwrite : Bytes → List (Option ℕ) → List (Option ℕ)
overwrite bytes buf = map some bytes ++ drop (length bytes) buf

module _ (sys : System) where
  unfoldable pub close_fd : Option ℕ → M (Option ℕ)
  unfolding call
  close_fd none = pure none
  close_fd (some fd) = call sys (close fd)

  unfoldable pub clear_fd : PipeWrap → M PipeWrap
  unfolding close_fd
  clear_fd p = do close_fd p.read_fd; close_fd p.write_fd; pure no_pipe

  unfoldable pub set_pipe : ℕ × ℕ → M (Bool × PipeWrap)
  unfolding set_no_blocked set_clo_exec
  set_pipe (rd, wr) = do
    set_no_blocked sys rd true
    set_no_blocked sys wr false
    set_clo_exec sys rd true
    set_clo_exec sys wr true
    pure (true, record { read_fd = some rd; write_fd = some wr })

  -- `false` is the exception, behind which the object keeps no descriptor.
  unfoldable pub with_pipe : Option ℕ → M (Bool × PipeWrap)
  unfolding set_pipe
  with_pipe none s = ((false, no_pipe), s)
  with_pipe (some ret) s = set_pipe (sys.pipe_fds s.log) s

  unfoldable pub re_open : PipeWrap → M (Bool × PipeWrap)
  unfolding clear_fd with_pipe call
  re_open p = do clear_fd p; ret ← call sys pipe; with_pipe ret

  -- The calls until one is not interrupted, where the outer `none` is fuel that has run out.
  unfoldable pub write_loop : ℕ → ℕ → Bytes → M (Option (Option ℕ))
  unfolding is_eintr call
  write_loop zero fd buf s = (none, s)
  write_loop (suc fuel) fd buf s =
      let r = call sys (write fd buf) s in
      let again = write_loop fuel fd buf r.1 in
      let ended : Option (Option ℕ) × Net = (some r.0, r.1) in
      elim r.0 [ none ↦ if is_eintr (sys.errno r.1.log) then again else ended | some n ↦ ended ]

  unfoldable pub read_loop : ℕ → ℕ → ℕ → M (Option (Option ℕ))
  unfolding is_eintr call
  read_loop zero fd n s = (none, s)
  read_loop (suc fuel) fd n s =
      let r = call sys (read fd n) s in
      let again = read_loop fuel fd n r.1 in
      let ended : Option (Option ℕ) × Net = (some r.0, r.1) in
      elim r.0 [ none ↦ if is_eintr (sys.errno r.1.log) then again else ended | some k ↦ ended ]

  -- What the callback of a Pipe is given: the result of read, and the buffer.
  unfoldable pub given : ℕ → Option (Option ℕ) → M (Option (Option ℕ × List (Option ℕ)))
  unfolding empty_buf overwrite
  given nread none s = (none, s)
  given nread (some none) s = (some (none, empty_buf nread), s)
  given nread (some (some n)) s =
      (some (some n, overwrite (sys.received s.log) (empty_buf nread)), s)

  unfoldable pub on_read : ℕ → ℕ → M (Option (Option ℕ × List (Option ℕ)))
  unfolding available read_loop given call
  on_read fuel fd s =
      let r = call sys (ioctl_fionread fd) s in
      let nread = available r.0 (sys.nread r.1.log) in
      let got = read_loop fuel fd (nread + 1) r.1 in given nread got.0 got.1
