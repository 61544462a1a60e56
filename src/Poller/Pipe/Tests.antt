-- ===== src/Poller/Pipe/Tests.antt =====
-- A pipe with the ends 3 and 4, beside a descriptor 9. Three bytes are announced, and one more comes in
-- before they are read.
use ffzkit.Base.{
  ◌≤◌, ◌≡◌, refl, [], ◌∷◌, Option, none, some, some-inj, ltb, if◌then◌else◌, true, codes, map, ℕ,
  arith,
}
use ffzkit.Network.Sockets.{eintr, unspecified, Call, Log, System, Net}
use ffzkit.Poller.Pipe.{no_pipe, re_open, clear_fd, on_read}
use ffzkit.Poller.Pipe.Ends.{held, with_ends, re_open-Holds}
use ffzkit.Poller.Pipe.Callback.{IsGiven, on_read_lem}

-- The first call of read is interrupted.
abbrev read_answer : Log → ℕ → Option ℕ
read_answer ((Call.ioctl_fionread fd, r) ∷ h) n = none
read_answer h n = some (if ltb n 4 then n else 4)

abbrev answer : Log → Call → Option ℕ
answer h (Call.read fd n) = read_answer h n
answer h c = some 0

abbrev sys : System
sys = record {
  answer = answer;
  errno = λ h. eintr;
  addresses = λ h. [];
  adapters = λ h. [];
  so_error = λ h. none;
  local_addr = λ h. unspecified;
  peer_addr = λ h. unspecified;
  pipe_fds = λ h. (3, 4);
  received = λ h. codes "four";
  nread = λ h. 3;
  inet_pton4 = λ t. none;
  inet_pton6 = λ t. none;
  inet_ntop4 = λ a. none;
  inet_ntop6 = λ a. none;
  inet_addr = λ t. 0;
  htons = λ p. p;
  ntohs = λ p. p;
  htonl = λ n. n;
}

abbrev start : Net
start = record { log = []; ipv6_flag = none; dns_cache = [] }

opened : (re_open sys no_pipe start).0 ≡ (true, record { read_fd = some 3; write_fd = some 4 })
unfolding re_open
opened = refl

re_open-Holds_example :
    let r = re_open sys no_pipe start in
    (held sys r.1.log ≡ with_ends r.0.1 []) × (held sys (clear_fd sys r.0.1 r.1).1.log ≡ [])
unfolding held
re_open-Holds_example = re_open-Holds sys no_pipe [] start refl

reads_within : (h : Log) (m k : ℕ) → sys.answer h (Call.read 3 m) ≡ some k → k ≤ m
reads_within [] m k e = let e' = some-inj e in ground arith
reads_within ((Call.ioctl_fionread fd, r) ∷ h) m k e = cc
reads_within ((c, r) ∷ h) m k e = let e' = some-inj e in ground arith

on_read_lem_example :
    ((h : Log) × ((on_read sys 2 3 start).1.log ≡ (Call.read 3 4, some 4) ∷ h))
    × IsGiven sys 3 4 (codes "four") (map some (codes "four"))
unfolding on_read
on_read_lem_example = on_read_lem sys 2 3 4 start (map some (codes "four")) reads_within refl refl
