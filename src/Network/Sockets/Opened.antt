-- ===== src/Network/Sockets/Opened.antt =====
-- Which descriptors the socket functions of src/Network/sockutil.cpp leave open.
use ffzkit.Base.Ints.{ℤ}
use ffzkit.Base.{
  Bytes, ℕ, ◌&&◌, ◌≡◌, refl, ◌∙◌, ap, inl, inr, Bool, true, false, List, [], ◌∷◌, Option, none,
  some, ◌==◌, if◌then◌else◌, Bool-cases, Option-cases, arith,
}
use ffzkit.Network.Sockets.{
  Sockaddr, Family, SockType, Protocol, socket, close, Call, Log, System, Net, M, ◌>>=◌, call,
  stream, dgram, tcp, udp, family_of,
}
use ffzkit.Network.Sockets.Dns.{Resolved, get_domain_ip}
use ffzkit.Network.Sockets.Streams.{
  Connected, connected, refused, endless, as_connected, tcp4, probe_result, support_ipv6_l,
  keep_flag, support_ipv6, bind_sock, close_failed, finish_connect, connect_bound,
  set_connect_options, connect_with, connect_to, connect_host, family_for, listen_result,
  listen_bound, set_listen_options, listen_with, listen_on, is_zero, is_eagain, translate,
}
use ffzkit.Network.Sockets.Datagrams.{udp_bound, set_udp_options, udp_with, bind_udp_sock}
use ffzkit.Network.Sockets.Kept.{
  is_quiet, IsStable, IsModal, Keeps, bind_sock-Keeps, get_domain_ip-Keeps,
  set_connect_options-Keeps, set_listen_options-Keeps, set_udp_options-Keeps,
}

remove_fd : ℕ → List ℕ → List ℕ
remove_fd fd [] = []
remove_fd fd (x ∷ fds) = let rest = remove_fd fd fds in if x == fd then fds else x ∷ rest

abbrev pub with_fd : Option ℕ → List ℕ → List ℕ
with_fd none fds = fds
with_fd (some fd) fds = fd ∷ fds

abbrev pub with_connected : Connected → List ℕ → List ℕ
with_connected (connected fd) fds = fd ∷ fds
with_connected refused fds = fds
with_connected endless fds = fds

with_fd-connected :
    (o : Option ℕ) (fds : List ℕ) → with_fd o fds ≡ with_connected (as_connected o) fds
with_fd-connected none fds = refl
with_fd-connected (some fd) fds = refl

-- What a call does to the open descriptors.
after_call : Call → Option ℕ → List ℕ → List ℕ
unfolding remove_fd
after_call (Call.socket f t p) r fds = with_fd r fds
after_call (Call.close fd) r fds = remove_fd fd fds
after_call c r fds = fds

-- The sockets that the calls of a log have made and not closed, the latest first.
unfoldable pub opened : Log → List ℕ
unfolding after_call
opened [] = []
opened ((c, r) ∷ h) = after_call c r (opened h)

remove_fd_head : (fd : ℕ) (fds : List ℕ) → remove_fd fd (fd ∷ fds) ≡ fds
unfolding remove_fd
remove_fd_head fd fds = let e : (fd == fd) ≡ true = ground arith in rw e refl

abbrev Leaves : List ℕ → Log → Type 0
Leaves fds h = opened h ≡ fds

Leaves-IsStable : (fds : List ℕ) → IsStable (Leaves fds)
unfolding opened is_quiet
Leaves-IsStable fds (Call.socket f t p) r h q k = absurd (let bad : false ≡ true = q in cc)
Leaves-IsStable fds (Call.close fd) r h q k = absurd (let bad : false ≡ true = q in cc)
Leaves-IsStable fds c r h q k = k

module _ (sys : System) where
  close-Leaves :
      (fds : List ℕ) (fd : ℕ) (s : Net)
      → Leaves (fd ∷ fds) s.log
      → Leaves fds (call sys (close fd) s).1.log
  unfolding opened call
  close-Leaves fds fd s k = ap (remove_fd fd) k ∙ remove_fd_head fd fds

  -- The descriptors behind a function that gives out one, or none.
  abbrev Gives : List ℕ → M (Option ℕ) → Net → Type 0
  Gives fds m s = opened (m s).1.log ≡ with_fd (m s).0 fds

  close_failed-Gives :
      (fds : List ℕ) (fd : ℕ) (s : Net)
      → Leaves (fd ∷ fds) s.log
      → Gives fds (close_failed sys fd) s
  unfolding close_failed
  close_failed-Gives fds fd s k = close-Leaves fds fd s k

  finish_connect-Gives :
      (fds : List ℕ) (fd : ℕ) (async : Bool) (r : Option ℕ) (s : Net)
      → Leaves (fd ∷ fds) s.log
      → Gives fds (finish_connect sys fd async r) s
  unfolding finish_connect
  finish_connect-Gives fds fd async r s k = elim (Bool-cases (is_zero r)) [
    | inl e ↦ rw e k
    | inr e ↦ elim (Bool-cases (async && is_eagain (translate (sys.errno s.log)))) [
      | inl f ↦ rw (e, f) k
      | inr f ↦ rw (e, f) (close_failed-Gives fds fd s k)
    ]
  ]

  connect_bound-Gives :
      (fds : List ℕ) (fd : ℕ) (addr : Sockaddr) (async : Bool) (b : Option ℕ) (s : Net)
      → Leaves (fd ∷ fds) s.log
      → Gives fds (connect_bound sys fd addr async b) s
  unfolding connect_bound call opened
  connect_bound-Gives fds fd addr async none s k = close_failed-Gives fds fd s k
  connect_bound-Gives fds fd addr async (some b) s k =
      finish_connect-Gives fds fd async (call sys (Call.connect fd addr) s).0
        (call sys (Call.connect fd addr) s).1 k

  -- What the options and the binding leave, for a descriptor that was just made.
  set_up-Leaves :
      (fds : List ℕ) (m : M (Option ℕ)) (fd : ℕ) (ip : Bytes) (port : ℕ) (family : Family)
      → ((Q : Log → Type 0) → IsStable Q → IsModal Q → Keeps Q m)
      → (s : Net) → Leaves fds s.log
      → Leaves fds (bind_sock sys fd ip port family (m s).1).1.log
  unfolding opened
  set_up-Leaves fds m fd ip port family k s h =
      bind_sock-Keeps sys (Leaves fds) (Leaves-IsStable fds) fd ip port family (m s).1
        (k (Leaves fds) (Leaves-IsStable fds) (λ f b r u g. g) s h)

  connect_with-Gives :
      (fds : List ℕ) (addr : Sockaddr) (async : Bool) (ip : Bytes) (port : ℕ) (o : Option ℕ)
      (s : Net)
      → Leaves (with_fd o fds) s.log
      → Gives fds (connect_with sys addr async ip port o) s
  unfolding connect_with
  connect_with-Gives fds addr async ip port none s k = k
  connect_with-Gives fds addr async ip port (some fd) s k =
      connect_bound-Gives fds fd addr async _ _ (
        set_up-Leaves (fd ∷ fds) (set_connect_options sys fd async) fd ip port (family_of addr)
          (λ Q st m. set_connect_options-Keeps sys Q st m fd async) s k)

  listen_bound-Gives :
      (fds : List ℕ) (fd : ℕ) (back_log : ℤ) (b : Option ℕ) (s : Net)
      → Leaves (fd ∷ fds) s.log
      → Gives fds (listen_bound sys fd back_log b) s
  unfolding listen_bound listen_result call opened
  listen_bound-Gives fds fd back_log none s k = close_failed-Gives fds fd s k
  listen_bound-Gives fds fd back_log (some b) s k =
      elim (Option-cases (sys.answer s.log (Call.listen fd back_log))) [
        | inl e ↦ rw e (
            close_failed-Gives fds fd (record s { log = (Call.listen fd back_log, none) ∷ s.log })
              k)
        | inr (r, e) ↦ rw e k
      ]

  listen_with-Gives :
      (fds : List ℕ) (port : ℕ) (ip : Bytes) (back_log : ℤ) (family : Family) (o : Option ℕ)
      (s : Net)
      → Leaves (with_fd o fds) s.log
      → Gives fds (listen_with sys port ip back_log family o) s
  unfolding listen_with
  listen_with-Gives fds port ip back_log family none s k = k
  listen_with-Gives fds port ip back_log family (some fd) s k =
      listen_bound-Gives fds fd back_log _ _ (
        set_up-Leaves (fd ∷ fds) (set_listen_options sys fd) fd ip port family
          (λ Q st m. set_listen_options-Keeps sys Q st m fd) s k)

  udp_with-Gives :
      (fds : List ℕ) (port : ℕ) (ip : Bytes) (b : Bool) (family : Family) (o : Option ℕ) (s : Net)
      → Leaves (with_fd o fds) s.log
      → Gives fds (udp_with sys port ip b family o) s
  unfolding udp_with udp_bound
  udp_with-Gives fds port ip b family none s k = k
  udp_with-Gives fds port ip b family (some fd) s k =
      let up = set_udp_options sys fd b s in
      let ready =
        set_up-Leaves (fd ∷ fds) (set_udp_options sys fd b) fd ip port family
          (λ Q st m. set_udp_options-Keeps sys Q st m fd b) s k in
      elim (Option-cases (bind_sock sys fd ip port family up.1).0) [
        | inl e ↦
            rw (e, udp_bound)
              (close_failed-Gives fds fd (bind_sock sys fd ip port family up.1).1 ready)
        | inr (r, e) ↦ rw (e, udp_bound) ready
      ]

  support_ipv6_l-Leaves : (s : Net) → opened (support_ipv6_l sys s).1.log ≡ opened s.log
  unfolding support_ipv6_l probe_result call opened
  support_ipv6_l-Leaves s =
      elim (Option-cases (sys.answer s.log (socket Family.inet6 stream tcp))) [
        | inl e ↦ rw e refl
        | inr (fd, e) ↦ rw e (remove_fd_head fd (opened s.log))
      ]

  keep_flag-Leaves : (o : Option Bool) (s : Net) → opened (keep_flag sys o s).1.log ≡ opened s.log
  unfolding keep_flag
  keep_flag-Leaves none s = support_ipv6_l-Leaves s
  keep_flag-Leaves (some b) s = refl

  -- The call of socket pushes what it gives.
  socket-Leaves :
      (fds : List ℕ) (f : Family) (s : Net) (t : SockType) (p : Protocol)
      → Leaves fds s.log
      → Leaves (with_fd (call sys (socket f t p) s).0 fds) (call sys (socket f t p) s).1.log
  unfolding call opened
  socket-Leaves fds f s t p k = ap (with_fd (sys.answer s.log (socket f t p))) k

  -- The family is a function of the answer of support_ipv6.
  behind_support-Gives :
      (f : Bool → Family) (t : SockType) (p : Protocol) (k : Bool → Option ℕ → M (Option ℕ))
      (s : Net)
      → ((fds : List ℕ) (b : Bool) (o : Option ℕ) (u : Net)
          → Leaves (with_fd o fds) u.log
          → Gives fds (k b o) u)
      → Gives (opened s.log) (do b ← support_ipv6 sys; fd ← call sys (socket (f b) t p); k b fd) s
  unfolding support_ipv6
  behind_support-Gives f t p k s gives =
      let r = support_ipv6 sys s in
      let made = call sys (socket (f r.0) t p) r.1 in
      gives (opened s.log) r.0 made.0 made.1
        (socket-Leaves (opened s.log) (f r.0) r.1 t p (keep_flag-Leaves s.ipv6_flag s))

  connect_to-Leaves :
      (fds : List ℕ) (async : Bool) (ip : Bytes) (port : ℕ) (a : Resolved) (s : Net)
      → Leaves fds s.log
      → opened (connect_to sys async ip port a s).1.log
        ≡ with_connected (connect_to sys async ip port a s).0 fds
  unfolding connect_to
  connect_to-Leaves fds async ip port (Resolved.found addr) s k =
      let made = call sys (socket (family_of addr) stream tcp) s in
      connect_with-Gives fds addr async ip port made.0 made.1
        (socket-Leaves fds (family_of addr) s stream tcp k)
      ∙ with_fd-connected (connect_with sys addr async ip port made.0 made.1).0 fds
  connect_to-Leaves fds async ip port Resolved.failed s k = k
  connect_to-Leaves fds async ip port Resolved.ran_out s k = k

  -- Whatever the system answers, a socket that connect, listen or bindUdpSock has made is open behind the
  -- call exactly if the call returns it, and no other descriptor is closed: every error path closes
  -- the socket, and the probe of support_ipv6 leaves none.
  pub no_socket_leak :
      (s : Net) (fuel : ℕ) (host local_ip : Bytes) (port local_port : ℕ) (async enable_reuse : Bool)
      (back_log : ℤ)
      → (opened (connect_host sys fuel host port async local_ip local_port s).1.log
          ≡ with_connected
              (connect_host sys fuel host port async local_ip local_port s).0
              (opened s.log))
        × (opened (listen_on sys port local_ip back_log s).1.log
            ≡ with_fd (listen_on sys port local_ip back_log s).0 (opened s.log))
        × (opened (bind_udp_sock sys port local_ip enable_reuse s).1.log
            ≡ with_fd (bind_udp_sock sys port local_ip enable_reuse s).0 (opened s.log))
  unfolding connect_host listen_on bind_udp_sock
  no_socket_leak s fuel host local_ip port local_port async enable_reuse back_log =
      let fds = opened s.log in
      let r = get_domain_ip sys fuel host port tcp4 s in
      (
        connect_to-Leaves fds async local_ip local_port r.0 r.1
            (get_domain_ip-Keeps sys (Leaves fds) (Leaves-IsStable fds) fuel host port tcp4 s refl),
        behind_support-Gives (family_for sys local_ip) stream tcp
            (λ b. listen_with sys port local_ip back_log (family_for sys local_ip b)) s
            (λ fds b. listen_with-Gives fds port local_ip back_log (family_for sys local_ip b)),
        behind_support-Gives (family_for sys local_ip) dgram udp
            (λ b. udp_with sys port local_ip enable_reuse (family_for sys local_ip b)) s
            (λ fds b. udp_with-Gives fds port local_ip enable_reuse (family_for sys local_ip b)),
      )
