-- ===== src/Network/Sockets/Kept.antt =====
-- What the calls that neither make nor close a socket leave as it is, through the options, the
-- resolution of a name and the binding of src/Network/sockutil.cpp.
use ffzkit.Base.Ints.{ℤ, pos, is_positive}
use ffzkit.Base.{
  Bytes, ℕ, zero, suc, ◌+◌, ◌≡◌, refl, inl, inr, Bool, true, false, List, [], ◌∷◌, Option, none,
  some, ltb, if◌then◌else◌, Bool-cases, Option-cases,
}
use ffzkit.Network.Sockets.{
  Family, setsockopt, so_reuseaddr, fcntl_getfd, ipv6_v6only, AddrInfo, Call, Log, System, DnsItem,
  Net, M, pure, ◌>>=◌, call, time, getaddrinfo,
}
use ffzkit.Network.Sockets.Options.{
  int_of, default_buf_size, set_close_wait, set_no_delay, reuse_port_too, set_reuseable, put_flags,
  set_clo_exec, set_no_blocked, set_recv_buf, set_send_buf,
}
use ffzkit.Network.Sockets.Addresses.{make_sockaddr}
use ffzkit.Network.Sockets.Dns.{
  find_host, is_eintr, seconds, Request, keep_or_erase, get_cache_domain_ip, set_cache_domain_ip,
  get_system_domain_ip, keep_answer, ask_system, cache_get_domain_ip, get_domain_ip,
}
use ffzkit.Network.Sockets.Streams.{
  set_connect_options, set_listen_options, bind_sock4, bind_sock6, bind_sock,
}
use ffzkit.Network.Sockets.Datagrams.{reuse_if, set_udp_options}

unfoldable pub is_quiet : Call → Bool
is_quiet (Call.socket f t p) = false
is_quiet (Call.close fd) = false
is_quiet Call.pipe = false
is_quiet (Call.ioctl_fionbio fd b) = false
is_quiet c = true

abbrev pub IsStable : (Log → Type 0) → Type 0
IsStable Q = (c : Call) (r : Option ℕ) (h : Log) → is_quiet c ≡ true → Q h → Q ((c, r) ∷ h)

-- It does not depend on the mode of a descriptor.
abbrev pub IsModal : (Log → Type 0) → Type 0
IsModal Q =
    (fd : ℕ) (b : Bool) (r : Option ℕ) (h : Log) → Q h → Q ((Call.ioctl_fionbio fd b, r) ∷ h)

abbrev pub Keeps : {A : Type 0} → (Log → Type 0) → M A → Type 0
Keeps Q m = (s : Net) → Q s.log → Q (m s).1.log

module _ (sys : System) (Q : Log → Type 0) (stable : IsStable Q) where
  pub call-Keeps : (c : Call) → is_quiet c ≡ true → Keeps Q (call sys c)
  unfolding call
  call-Keeps c e s h = stable c (sys.answer s.log c) s.log e h

  pub bind-Keeps :
      {A B : Type 0} (m : M A) (f : A → M B)
      → Keeps Q m
      → ((a : A) → Keeps Q (f a))
      → Keeps Q (m >>= f)
  bind-Keeps m f hm hf s h = hf (m s).0 (m s).1 (hm s h)

  if-Keeps :
      {A : Type 0} (b : Bool) (m n : M A) → Keeps Q m → Keeps Q n → Keeps Q (if b then m else n)
  if-Keeps true m n hm hn = hm
  if-Keeps false m n hm hn = hn

  if_set-Keeps :
      (b : Bool) (c : Call) (o : Option ℕ)
      → is_quiet c ≡ true
      → Keeps Q (if b then call sys c else pure o)
  if_set-Keeps b c o e = if-Keeps b (call sys c) (pure o) (call-Keeps c e) (λ s h. h)

  reuse_port_too-Keeps :
      (fd : ℕ) (on reuse_port : Bool) (r : Option ℕ)
      → Keeps Q (reuse_port_too sys fd on reuse_port r)
  unfolding reuse_port_too is_quiet
  reuse_port_too-Keeps fd on reuse_port none = λ s h. h
  reuse_port_too-Keeps fd on reuse_port (some ret) = if_set-Keeps reuse_port _ _ refl

  pub set_reuseable-Keeps :
      (fd : ℕ) (on reuse_port : Bool) → Keeps Q (set_reuseable sys fd on reuse_port)
  unfolding set_reuseable is_quiet
  set_reuseable-Keeps fd on reuse_port =
      bind-Keeps (call sys (setsockopt fd so_reuseaddr (int_of on)))
        (reuse_port_too sys fd on reuse_port) (call-Keeps _ refl)
        (reuse_port_too-Keeps fd on reuse_port)

  pub set_no_blocked-Keeps : IsModal Q → (fd : ℕ) (b : Bool) → Keeps Q (set_no_blocked sys fd b)
  unfolding set_no_blocked call
  set_no_blocked-Keeps m fd b s h = m fd b _ s.log h

  pub set_no_delay-Keeps : (fd : ℕ) (b : Bool) → Keeps Q (set_no_delay sys fd b)
  unfolding set_no_delay is_quiet
  set_no_delay-Keeps fd b = call-Keeps _ refl

  pub set_close_wait-Keeps : (fd : ℕ) (n : ℤ) → Keeps Q (set_close_wait sys fd n)
  unfolding set_close_wait is_quiet
  set_close_wait-Keeps fd n = call-Keeps _ refl

  pub set_send_buf-Keeps : (fd : ℕ) (n : ℤ) → Keeps Q (set_send_buf sys fd n)
  unfolding set_send_buf is_quiet
  set_send_buf-Keeps fd n = if_set-Keeps (is_positive n) _ _ refl

  pub set_recv_buf-Keeps : (fd : ℕ) (n : ℤ) → Keeps Q (set_recv_buf sys fd n)
  unfolding set_recv_buf is_quiet
  set_recv_buf-Keeps fd n = if_set-Keeps (is_positive n) _ _ refl

  put_flags-Keeps : (fd : ℕ) (on : Bool) (r : Option ℕ) → Keeps Q (put_flags sys fd on r)
  unfolding put_flags is_quiet
  put_flags-Keeps fd on none = λ s h. h
  put_flags-Keeps fd on (some flags) = call-Keeps _ refl

  pub set_clo_exec-Keeps : (fd : ℕ) (on : Bool) → Keeps Q (set_clo_exec sys fd on)
  unfolding set_clo_exec is_quiet
  set_clo_exec-Keeps fd on =
      bind-Keeps (call sys (fcntl_getfd fd)) (put_flags sys fd on) (call-Keeps _ refl)
        (put_flags-Keeps fd on)

  pub bind_sock-Keeps :
      (fd : ℕ) (ip : Bytes) (port : ℕ) (family : Family) → Keeps Q (bind_sock sys fd ip port family)
  unfolding bind_sock bind_sock4 bind_sock6 call is_quiet
  bind_sock-Keeps fd ip port Family.inet = λ s h. stable _ _ s.log refl h
  bind_sock-Keeps fd ip port Family.inet6 = λ s h.
      stable _ _ (call sys (setsockopt fd ipv6_v6only (int_of false)) s).1.log refl
        (stable _ _ s.log refl h)
  bind_sock-Keeps fd ip port Family.unspec = λ s h. h
  bind_sock-Keeps fd ip port (Family.other n) = λ s h. h

  keep_or_erase-Keeps :
      (host : Bytes) (e : ℕ) (item : DnsItem) (now : Option ℕ)
      → Keeps Q (keep_or_erase sys host e item now)
  unfolding keep_or_erase
  keep_or_erase-Keeps host e item now s h =
      elim (Bool-cases (ltb (item.create_time + e) (seconds now))) [
        | inl late ↦ rw late h
        | inr fresh ↦ rw fresh h
      ]

  get_cache_domain_ip-Keeps : (host : Bytes) (e : ℕ) → Keeps Q (get_cache_domain_ip sys host e)
  unfolding get_cache_domain_ip is_quiet
  get_cache_domain_ip-Keeps host e s h = elim (Option-cases (find_host host s.dns_cache)) [
    | inl gone ↦ rw (get_cache_domain_ip, gone) h
    | inr (item, here) ↦
        rw (get_cache_domain_ip, here)
          (keep_or_erase-Keeps host e item (call sys time s).0 (call sys time s).1
            (call-Keeps time refl s h))
  ]

  set_cache_domain_ip-Keeps :
      (host : Bytes) (info : List AddrInfo) → Keeps Q (set_cache_domain_ip sys host info)
  unfolding set_cache_domain_ip is_quiet
  set_cache_domain_ip-Keeps host info s h = call-Keeps time refl s h

  get_system_domain_ip-Keeps :
      (fuel : ℕ) (host : Bytes) → Keeps Q (get_system_domain_ip sys fuel host)
  unfolding get_system_domain_ip is_quiet
  get_system_domain_ip-Keeps zero host s h = h
  get_system_domain_ip-Keeps (suc fuel) host s h =
      let r = call sys (getaddrinfo host) s in
      let k : Q r.1.log = call-Keeps (getaddrinfo host) refl s h in
      elim (Option-cases r.0) [
        | inr (ret, e) ↦ rw e k
        | inl e ↦ elim (Bool-cases (is_eintr (sys.errno r.1.log))) [
          | inl again ↦ rw (e, again) (get_system_domain_ip-Keeps fuel host r.1 k)
          | inr ended ↦ rw (e, ended) k
        ]
      ]

  keep_answer-Keeps :
      (host : Bytes) (r : Request) (o : Option (List AddrInfo)) → Keeps Q (keep_answer sys host r o)
  unfolding keep_answer
  keep_answer-Keeps host r none = λ s h. h
  keep_answer-Keeps host r (some []) = λ s h. h
  keep_answer-Keeps host r (some (a ∷ next)) = set_cache_domain_ip-Keeps host (a ∷ next)

  ask_system-Keeps :
      (fuel : ℕ) (host : Bytes) (r : Request) (item : List AddrInfo)
      → Keeps Q (ask_system sys fuel host r item)
  unfolding ask_system
  ask_system-Keeps fuel host r [] =
      bind-Keeps (get_system_domain_ip sys fuel host) (keep_answer sys host r)
        (get_system_domain_ip-Keeps fuel host) (keep_answer-Keeps host r)
  ask_system-Keeps fuel host r (a ∷ next) = λ s h. h

  cache_get_domain_ip-Keeps :
      (fuel : ℕ) (host : Bytes) (r : Request) → Keeps Q (cache_get_domain_ip sys fuel host r)
  unfolding cache_get_domain_ip
  cache_get_domain_ip-Keeps fuel host r s h = elim (Option-cases (make_sockaddr sys host 0)) [
    | inr (addr, e) ↦ rw (cache_get_domain_ip, e) h
    | inl e ↦
        let item = get_cache_domain_ip sys host r.expire_sec s in
        rw (cache_get_domain_ip, e)
          (ask_system-Keeps fuel host r item.0 item.1
            (get_cache_domain_ip-Keeps host r.expire_sec s h))
  ]

  pub get_domain_ip-Keeps :
      (fuel : ℕ) (host : Bytes) (port : ℕ) (r : Request)
      → Keeps Q (get_domain_ip sys fuel host port r)
  unfolding get_domain_ip
  get_domain_ip-Keeps fuel host port r = cache_get_domain_ip-Keeps fuel host r

  pub set_connect_options-Keeps :
      IsModal Q → (fd : ℕ) (async : Bool) → Keeps Q (set_connect_options sys fd async)
  unfolding set_connect_options
  set_connect_options-Keeps m fd async s h =
      let a = (set_reuseable sys fd true true s).1 in
      let ka : Q a.log = set_reuseable-Keeps fd true true s h in
      let b = (set_no_blocked sys fd async a).1 in
      let kb : Q b.log = set_no_blocked-Keeps m fd async a ka in
      let c = (set_no_delay sys fd true b).1 in
      let kc : Q c.log = set_no_delay-Keeps fd true b kb in
      let d = (set_send_buf sys fd default_buf_size c).1 in
      let kd : Q d.log = set_send_buf-Keeps fd default_buf_size c kc in
      let e = (set_recv_buf sys fd default_buf_size d).1 in
      let ke : Q e.log = set_recv_buf-Keeps fd default_buf_size d kd in
      let f = (set_close_wait sys fd (pos 0) e).1 in
      let kf : Q f.log = set_close_wait-Keeps fd (pos 0) e ke in set_clo_exec-Keeps fd true f kf

  pub set_listen_options-Keeps : IsModal Q → (fd : ℕ) → Keeps Q (set_listen_options sys fd)
  unfolding set_listen_options
  set_listen_options-Keeps m fd s h =
      let a = (set_reuseable sys fd true false s).1 in
      let ka : Q a.log = set_reuseable-Keeps fd true false s h in
      let b = (set_no_blocked sys fd true a).1 in
      let kb : Q b.log = set_no_blocked-Keeps m fd true a ka in set_clo_exec-Keeps fd true b kb

  reuse_if-Keeps : (fd : ℕ) (b : Bool) → Keeps Q (reuse_if sys fd b)
  unfolding reuse_if
  reuse_if-Keeps fd true = set_reuseable-Keeps fd true true
  reuse_if-Keeps fd false = λ s h. h

  pub set_udp_options-Keeps : IsModal Q → (fd : ℕ) (b : Bool) → Keeps Q (set_udp_options sys fd b)
  unfolding set_udp_options
  set_udp_options-Keeps m fd b s h =
      let a = (reuse_if sys fd b s).1 in
      let ka : Q a.log = reuse_if-Keeps fd b s h in
      let b = (set_no_blocked sys fd true a).1 in
      let kb : Q b.log = set_no_blocked-Keeps m fd true a ka in
      let c = (set_send_buf sys fd default_buf_size b).1 in
      let kc : Q c.log = set_send_buf-Keeps fd default_buf_size b kb in
      let d = (set_recv_buf sys fd default_buf_size c).1 in
      let kd : Q d.log = set_recv_buf-Keeps fd default_buf_size c kc in
      let e = (set_close_wait sys fd (pos 0) d).1 in
      let ke : Q e.log = set_close_wait-Keeps fd (pos 0) d kd in set_clo_exec-Keeps fd true e ke
