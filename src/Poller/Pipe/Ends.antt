-- ===== src/Poller/Pipe/Ends.antt =====
-- Which ends of pipes a PipeWrap of src/Poller/PipeWrap.cpp holds open.
use ffzkit.Base.{
  ℕ, ◌≡◌, refl, ap, ◌∙◌, inl, inr, true, false, List, [], ◌∷◌, Option, none, some, ◌==◌,
  if◌then◌else◌, Option-cases, arith,
}
use ffzkit.Network.Sockets.{Call, pipe, Log, System, Net, call}
use ffzkit.Network.Sockets.Options.{set_clo_exec, set_no_blocked}
use ffzkit.Network.Sockets.Kept.{is_quiet, IsStable, set_no_blocked-Keeps, set_clo_exec-Keeps}
use ffzkit.Poller.Pipe.{PipeWrap, close_fd, clear_fd, set_pipe, with_pipe, re_open}

remove_end : ℕ → List ℕ → List ℕ
remove_end fd [] = []
remove_end fd (x ∷ fds) = let rest = remove_end fd fds in if x == fd then fds else x ∷ rest

remove_end_head : (fd : ℕ) (fds : List ℕ) → remove_end fd (fd ∷ fds) ≡ fds
unfolding remove_end
remove_end_head fd fds = let e : (fd == fd) ≡ true = ground arith in rw e refl

-- In front of other descriptors, those of a PipeWrap.
abbrev pub with_end : Option ℕ → List ℕ → List ℕ
with_end none fds = fds
with_end (some fd) fds = fd ∷ fds

abbrev pub with_ends : PipeWrap → List ℕ → List ℕ
with_ends p fds = with_end p.read_fd (with_end p.write_fd fds)

module _ (sys : System) where
  -- The ends that the calls of a log have made and not closed, the latest first.
  unfoldable pub held : Log → List ℕ
  unfolding remove_end
  held [] = []
  held ((Call.pipe, none) ∷ h) = held h
  held ((Call.pipe, some ret) ∷ h) =
      let fds = sys.pipe_fds ((Call.pipe, some ret) ∷ h) in fds.0 ∷ fds.1 ∷ held h
  held ((Call.close fd, r) ∷ h) = remove_end fd (held h)
  held ((c, r) ∷ h) = held h

  abbrev Holds : List ℕ → Log → Type 0
  Holds fds h = held h ≡ fds

  Holds-IsStable : (fds : List ℕ) → IsStable (Holds fds)
  unfolding held is_quiet
  Holds-IsStable fds (Call.socket f t p) r h q k = k
  Holds-IsStable fds Call.pipe r h q k = absurd (let bad : false ≡ true = q in cc)
  Holds-IsStable fds (Call.close fd) r h q k = absurd (let bad : false ≡ true = q in cc)
  Holds-IsStable fds c r h q k = k

  close_fd-Holds :
      (o : Option ℕ) (fds : List ℕ) (s : Net)
      → Holds (with_end o fds) s.log
      → Holds fds (close_fd sys o s).1.log
  unfolding close_fd held call
  close_fd-Holds none fds s k = k
  close_fd-Holds (some fd) fds s k = ap (remove_end fd) k ∙ remove_end_head fd fds

  clear_fd-Holds :
      (p : PipeWrap) (fds : List ℕ) (s : Net)
      → Holds (with_ends p fds) s.log
      → Holds fds (clear_fd sys p s).1.log
  unfolding clear_fd
  clear_fd-Holds p fds s k =
      close_fd-Holds p.write_fd fds (close_fd sys p.read_fd s).1
        (close_fd-Holds p.read_fd (with_end p.write_fd fds) s k)

  set_pipe-Holds :
      (ends : ℕ × ℕ) (fds : List ℕ) (s : Net)
      → Holds (ends.0 ∷ ends.1 ∷ fds) s.log
      → ((set_pipe sys ends s).0.0 ≡ true)
        × Holds (with_ends (set_pipe sys ends s).0.1 fds) (set_pipe sys ends s).1.log
  unfolding set_pipe held
  set_pipe-Holds (rd, wr) fds s k =
      let Q = Holds (rd ∷ wr ∷ fds) in
      let st = Holds-IsStable (rd ∷ wr ∷ fds) in
      let a = (set_no_blocked sys rd true s).1 in
      let ka : Q a.log = set_no_blocked-Keeps sys Q st (λ f b r u g. g) rd true s k in
      let b = (set_no_blocked sys wr false a).1 in
      let kb : Q b.log = set_no_blocked-Keeps sys Q st (λ f b r u g. g) wr false a ka in
      let c = (set_clo_exec sys rd true b).1 in
      let kc : Q c.log = set_clo_exec-Keeps sys Q st rd true b kb in
      (refl, set_clo_exec-Keeps sys Q st wr true c kc)

  opened_again :
      (p : PipeWrap) (fds : List ℕ) (s : Net)
      → Holds (with_ends p fds) s.log
      → Holds (with_ends (re_open sys p s).0.1 fds) (re_open sys p s).1.log
  unfolding re_open with_pipe held call
  opened_again p fds s k =
      let u = (clear_fd sys p s).1 in
      let cleared = clear_fd-Holds p fds s k in
      elim (Option-cases (sys.answer u.log pipe)) [
        | inl e ↦ rw e cleared
        | inr (ret, e) ↦
            let h = (pipe, some ret) ∷ u.log in
            let fds' = sys.pipe_fds h in
            rw e
              (set_pipe-Holds fds' fds (record u { log = h })
                (ap (λ x. fds'.0 ∷ fds'.1 ∷ x) cleared)).1
      ]

  -- A PipeWrap that holds its ends, and in front of other descriptors, still does so when it has been
  -- opened again, whether the call of pipe succeeds or makes it throw: the old ends are closed, the
  -- object has the new ones, or none behind the exception, and nothing else is opened or closed; and
  -- when it is destroyed, all its ends are closed.
  pub re_open-Holds :
      (p : PipeWrap) (fds : List ℕ) (s : Net)
      → held s.log ≡ with_ends p fds
      → (held (re_open sys p s).1.log ≡ with_ends (re_open sys p s).0.1 fds)
        × (held (clear_fd sys (re_open sys p s).0.1 (re_open sys p s).1).1.log ≡ fds)
  re_open-Holds p fds s k =
      let again = opened_again p fds s k in
      (again, clear_fd-Holds (re_open sys p s).0.1 fds (re_open sys p s).1 again)
