-- ===== src/Network/Sockets/Bound.antt =====
-- To what a socket of src/Network/sockutil.cpp is bound, in which mode, and what listen returns.
pub mod Connecting
use ffzkit.Base.Ints.{ℤ, pos}
use ffzkit.Base.{
  Bytes, ℕ, ◌≡◌, ◌≢◌, refl, sym, ap, ◌∙◌, ◌⊎◌, inl, inr, Bool, true, false, ◌&&◌, List, [], ◌∷◌,
  Option, none, some, ◌==◌, if◌then◌else◌, Bool-cases, Option-cases, some-inj, arith, subst,
}
use ffzkit.Network.Sockets.{
  Sockaddr, in4, in6, Family, socket, bind, connect, listen, ioctl_fionbio, setsockopt, ipv6_v6only,
  Call, Log, System, Net, M, call, stream, tcp, family_of,
}
use ffzkit.Network.Sockets.Options.{
  int_of, default_buf_size, set_reuseable, set_no_blocked, set_no_delay, set_send_buf, set_recv_buf,
  set_close_wait, set_clo_exec,
}
use ffzkit.Network.Sockets.Addresses.{is_ipv4}
use ffzkit.Network.Sockets.Dns.{Resolved, found, get_domain_ip}
use ffzkit.Network.Sockets.Streams.{
  Connected, connected, as_connected, tcp4, any4, any6, or_any, support_ipv6, bind_result,
  bind_sock4, bind_sock6, bind_sock, close_failed, finish_connect, connect_bound,
  set_connect_options, connect_with, connect_to, connect_host, family_for, listen_result,
  listen_bound, set_listen_options, listen_with, listen_on, is_zero, is_eagain, translate,
}
use ffzkit.Network.Sockets.Kept.{
  is_quiet, IsStable, Keeps, set_no_delay-Keeps, set_close_wait-Keeps, set_send_buf-Keeps,
  set_recv_buf-Keeps, set_clo_exec-Keeps,
}

-- Whether a descriptor does not block: it is what the last FIONBIO that succeeded has said, and a socket
-- blocks when it is made.
unfoldable pub mode_of : ℕ → Log → Option Bool
mode_of fd [] = none
mode_of fd ((Call.ioctl_fionbio f b, some r) ∷ h) =
    let rest = mode_of fd h in if f == fd then some b else rest
mode_of fd ((Call.socket f t p, some r) ∷ h) =
    let rest = mode_of fd h in if r == fd then some false else rest
mode_of fd ((c, r) ∷ h) = mode_of fd h

abbrev pub HasMode : ℕ → Bool → Log → Type 0
HasMode fd b h = mode_of fd h ≡ some b

pub HasMode-IsStable : (fd : ℕ) (b : Bool) → IsStable (HasMode fd b)
unfolding mode_of is_quiet
HasMode-IsStable fd b (Call.ioctl_fionbio f m) r h q k = absurd (let bad : false ≡ true = q in cc)
HasMode-IsStable fd b (Call.socket f t p) r h q k = absurd (let bad : false ≡ true = q in cc)
HasMode-IsStable fd b c r h q k = k

-- The call that sets the mode of an open socket succeeds.
abbrev pub SetsMode : System → Type 0
SetsMode sys =
    (h : Log) (fd : ℕ) (noblock : Bool)
    → (n : ℕ) × (sys.answer h (ioctl_fionbio fd noblock) ≡ some n)

bound_result : (r : Option ℕ) (b : ℕ) → bind_result r ≡ some b → (n : ℕ) × (r ≡ some n)
unfolding bind_result
bound_result none b e = cc
bound_result (some n) b e = (n, refl)

module _ (sys : System) where
  -- The address that a text and a family name: the wildcard, if the text is no such address.
  unfoldable pub local_address : Bytes → ℕ → Family → Option Sockaddr
  unfolding or_any
  local_address local_ip port Family.inet =
      some (in4 (or_any any4 (sys.inet_pton4 local_ip)) (sys.htons port))
  local_address local_ip port Family.inet6 =
      some (in6 (or_any any6 (sys.inet_pton6 local_ip)) (sys.htons port))
  local_address local_ip port Family.unspec = none
  local_address local_ip port (Family.other n) = none

  -- The last call was a bind of the descriptor to that address, which succeeded, and its mode was set
  -- before.
  pub record IsBound (fd : ℕ) (local : Option Sockaddr) (noblock : Bool) (h : Log) : Type 0 where
    pub address : Sockaddr
    pub answer : ℕ
    pub before : Log
    pub is_local : local ≡ some address
    pub is_last : h ≡ (bind fd address, some answer) ∷ before
    pub has_mode : HasMode fd noblock before

  pub bind_sock-IsBound :
      (fd : ℕ) (ip : Bytes) (port : ℕ) (family : Family) (noblock : Bool) (b : ℕ) (s : Net)
      → HasMode fd noblock s.log
      → (bind_sock sys fd ip port family s).0 ≡ some b
      → IsBound fd (local_address ip port family) noblock (bind_sock sys fd ip port family s).1.log
  unfolding bind_sock bind_sock4 bind_sock6 local_address call mode_of
  bind_sock-IsBound fd ip port Family.inet noblock b s k e =
      let a : Sockaddr = in4 (or_any any4 (sys.inet_pton4 ip)) (sys.htons port) in
      let r = bound_result (sys.answer s.log (bind fd a)) b e in
      record {
        address = a;
        answer = r.0;
        before = s.log;
        is_local = refl;
        is_last = ap (λ x. (bind fd a, x) ∷ s.log) r.1;
        has_mode = k;
      }
  bind_sock-IsBound fd ip port Family.inet6 noblock b s k e =
      let a : Sockaddr = in6 (or_any any6 (sys.inet_pton6 ip)) (sys.htons port) in
      let u = (call sys (setsockopt fd ipv6_v6only (int_of false)) s).1.log in
      let r = bound_result (sys.answer u (bind fd a)) b e in
      record {
        address = a;
        answer = r.0;
        before = u;
        is_local = refl;
        is_last = ap (λ x. (bind fd a, x) ∷ u) r.1;
        has_mode = k;
      }
  bind_sock-IsBound fd ip port Family.unspec noblock b s k e = cc
  bind_sock-IsBound fd ip port (Family.other n) noblock b s k e = cc

  pub set_no_blocked-HasMode :
      SetsMode sys → (fd : ℕ) (b : Bool) (s : Net) → HasMode fd b (set_no_blocked sys fd b s).1.log
  unfolding set_no_blocked call mode_of
  set_no_blocked-HasMode m fd b s =
      let (n, e) = m s.log fd b in
      let same : (fd == fd) ≡ true = ground arith in rw (e, mode_of, same) refl

  set_listen_options-HasMode :
      SetsMode sys → (fd : ℕ) (s : Net) → HasMode fd true (set_listen_options sys fd s).1.log
  unfolding set_listen_options
  set_listen_options-HasMode m fd s =
      let a = (set_reuseable sys fd true false s).1 in
      set_clo_exec-Keeps sys (HasMode fd true) (HasMode-IsStable fd true) fd true
        (set_no_blocked sys fd true a).1 (set_no_blocked-HasMode m fd true a)

  -- The listener does not block, is bound, and the last call was a listen that succeeded.
  pub record IsListening (fd : ℕ) (local : Option Sockaddr) (back_log : ℤ) (h : Log) : Type 0 where
    pub answer : ℕ
    pub before : Log
    pub is_last : h ≡ (listen fd back_log, some answer) ∷ before
    pub is_bound : IsBound fd local true before

  listen_bound-IsListening :
      (fd made : ℕ) (local : Option Sockaddr) (back_log : ℤ) (b : Option ℕ) (s : Net)
      → ((n : ℕ) → b ≡ some n → IsBound made local true s.log)
      → (listen_bound sys made back_log b s).0 ≡ some fd
      → IsListening fd local back_log (listen_bound sys made back_log b s).1.log
  unfolding listen_bound listen_result close_failed call
  listen_bound-IsListening fd made local back_log none s k e = cc
  listen_bound-IsListening fd made local back_log (some n) s k e =
      elim (Option-cases (sys.answer s.log (listen made back_log))) [
        | inl f ↦ let e' = rw f at e in cc
        | inr (r, f) ↦
            let same : made ≡ fd = some-inj (rw f at e) in
            rw (← same, f)
              (record { answer = r; before = s.log; is_last = refl; is_bound = k n refl })
      ]

  listen_with-IsListening :
      SetsMode sys
      → (fd port : ℕ) (ip : Bytes) (back_log : ℤ) (family : Family) (o : Option ℕ) (s : Net)
      → (listen_with sys port ip back_log family o s).0 ≡ some fd
      → IsListening fd
          (local_address ip port family)
          back_log
          (listen_with sys port ip back_log family o s).1.log
  unfolding listen_with
  listen_with-IsListening m fd port ip back_log family none s e = cc
  listen_with-IsListening m fd port ip back_log family (some made) s e =
      let up = (set_listen_options sys made s).1 in
      let b = bind_sock sys made ip port family up in
      listen_bound-IsListening fd made (local_address ip port family) back_log b.0 b.1
        (λ n. bind_sock-IsBound made ip port family true n up (set_listen_options-HasMode m made s))
        e

  family_for-local :
      (ip : Bytes) (port : ℕ) (support : Bool)
      → local_address ip port (family_for sys ip support) ≡ (
          if support
          then (elim (sys.inet_pton4 ip) [
            | some a ↦ some (in4 a (sys.htons port))
            | none ↦ some (in6 (or_any any6 (sys.inet_pton6 ip)) (sys.htons port))
          ])
          else some (in4 (or_any any4 (sys.inet_pton4 ip)) (sys.htons port)))
  unfolding family_for is_ipv4 local_address
  family_for-local ip port false = refl
  family_for-local ip port true = elim (Option-cases (sys.inet_pton4 ip)) [
    | inl e ↦ rw e refl
    | inr (a, e) ↦ rw (e, local_address, e) refl
  ]

  -- On a system where FIONBIO does not fail, a descriptor that listen returns does not block, by the last
  -- such call, is bound and listens. With IPv6 it is bound to
  -- the IPv4 address of the text, to its IPv6 address, or, if it is neither, to the IPv6 wildcard;
  -- without IPv6 to the IPv4 address or the IPv4 wildcard.
  pub listen_on-IsListening :
      SetsMode sys
      → (fd port : ℕ) (local_ip : Bytes) (back_log : ℤ) (s : Net)
      → (listen_on sys port local_ip back_log s).0 ≡ some fd
      → IsListening fd
          (if (support_ipv6 sys s).0
            then (elim (sys.inet_pton4 local_ip) [
              | some a ↦ some (in4 a (sys.htons port))
              | none ↦ some (in6 (or_any any6 (sys.inet_pton6 local_ip)) (sys.htons port))
            ])
            else some (in4 (or_any any4 (sys.inet_pton4 local_ip)) (sys.htons port)))
          back_log
          (listen_on sys port local_ip back_log s).1.log
  unfolding listen_on
  listen_on-IsListening m fd port local_ip back_log s e =
      let r = support_ipv6 sys s in
      let family = family_for sys local_ip r.0 in
      let made = call sys (socket family stream tcp) r.1 in
      subst (λ a. IsListening fd a back_log (listen_on sys port local_ip back_log s).1.log)
        (family_for-local local_ip port r.0)
        (listen_with-IsListening m fd port local_ip back_log family made.0 made.1 e)
