-- ===== src/Network/Sockets/Bound/Connecting.antt =====
-- What a socket that connect of src/Network/sockutil.cpp returns is connected and bound to.
use ffzkit.Base.Ints.{pos}
use ffzkit.Base.{
  Bytes, ℕ, ◌≡◌, refl, sym, ap, ◌⊎◌, inl, inr, Bool, true, false, ◌&&◌, ◌∷◌, Option, none, some,
  Bool-cases, Option-cases, some-inj, arith, subst,
}
use ffzkit.Network.Sockets.{
  Errno, Sockaddr, socket, connect, Log, System, Net, call, stream, tcp, family_of,
}
use ffzkit.Network.Sockets.Options.{
  default_buf_size, set_reuseable, set_no_blocked, set_no_delay, set_send_buf, set_recv_buf,
  set_close_wait,
}
use ffzkit.Network.Sockets.Dns.{Resolved, found, get_domain_ip}
use ffzkit.Network.Sockets.Streams.{
  connected, as_connected, tcp4, bind_sock, close_failed, finish_connect, connect_bound,
  set_connect_options, connect_with, connect_to, connect_host, is_zero, is_eagain, translate,
}
use ffzkit.Network.Sockets.Kept.{
  set_no_delay-Keeps, set_close_wait-Keeps, set_send_buf-Keeps, set_recv_buf-Keeps,
  set_clo_exec-Keeps,
}
use ffzkit.Network.Sockets.Bound.{
  SetsMode, HasMode, HasMode-IsStable, set_no_blocked-HasMode, local_address, IsBound,
  bind_sock-IsBound,
}

both : (a b : Bool) → (a && b) ≡ true → (a ≡ true) × (b ≡ true)
both true b e = (refl, e)
both false b e = cc

-- The errors that the code takes for a connect which goes on.
abbrev pub IsPending : Errno → Type 0
IsPending e =
    (e ≡ Errno.einprogress) ⊎ (e ≡ Errno.eagain) ⊎ (e ≡ Errno.ewouldblock) ⊎ (e ≡ Errno.enobufs)

translate-IsPending : (e : Errno) → is_eagain (translate e) ≡ true → IsPending e
unfolding translate is_eagain
translate-IsPending Errno.einprogress h = inl refl
translate-IsPending Errno.eagain h = inr (inl refl)
translate-IsPending Errno.ewouldblock h = inr (inr (inl refl))
translate-IsPending Errno.enobufs h = inr (inr (inr refl))
translate-IsPending Errno.eintr h = cc
translate-IsPending Errno.eafnosupport h = cc
translate-IsPending (Errno.another n) h = cc

module _ (sys : System) where
  set_connect_options-HasMode :
      SetsMode sys
      → (fd : ℕ) (async : Bool) (s : Net)
      → HasMode fd async (set_connect_options sys fd async s).1.log
  unfolding set_connect_options set_no_blocked call
  set_connect_options-HasMode m fd async s =
      let Q = HasMode fd async in
      let st = HasMode-IsStable fd async in
      let a = (set_no_blocked sys fd async (set_reuseable sys fd true true s).1).1 in
      let ka : Q a.log =
        set_no_blocked-HasMode sys m fd async (set_reuseable sys fd true true s).1 in
      let b = (set_no_delay sys fd true a).1 in
      let kb : Q b.log = set_no_delay-Keeps sys Q st fd true a ka in
      let c = (set_send_buf sys fd default_buf_size b).1 in
      let kc : Q c.log = set_send_buf-Keeps sys Q st fd default_buf_size b kb in
      let d = (set_recv_buf sys fd default_buf_size c).1 in
      let kd : Q d.log = set_recv_buf-Keeps sys Q st fd default_buf_size c kc in
      let e = (set_close_wait sys fd (pos 0) d).1 in
      let ke : Q e.log = set_close_wait-Keeps sys Q st fd (pos 0) d kd in
      set_clo_exec-Keeps sys Q st fd true e ke

  -- The connection is made, or is under way and the call does not wait for it.
  abbrev IsUnderWay : Bool → Option ℕ → Log → Type 0
  IsUnderWay async r h = (r ≡ some 0) ⊎ ((async ≡ true) × IsPending (sys.errno h))

  -- The last call was a connect to the address, and the socket is bound to an address of its family.
  pub record IsConnected (fd : ℕ) (addr : Sockaddr) (local : Option Sockaddr) (async : Bool)
      (h : Log) : Type 0 where
    pub answer : Option ℕ
    pub before : Log
    pub is_last : h ≡ (connect fd addr, answer) ∷ before
    pub is_under_way : IsUnderWay async answer h
    pub is_bound : IsBound sys fd local async before

  zero_result : (r : Option ℕ) → is_zero r ≡ true → r ≡ some 0
  unfolding is_zero
  zero_result none e = cc
  zero_result (some n) e = ap some (ground arith)

  finish_connect-IsUnderWay :
      (fd made : ℕ) (async : Bool) (r : Option ℕ) (s : Net)
      → (finish_connect sys made async r s).0 ≡ some fd
      → (made ≡ fd) × ((finish_connect sys made async r s).1.log ≡ s.log) × IsUnderWay async r s.log
  unfolding finish_connect close_failed
  finish_connect-IsUnderWay fd made async r s e = elim (Bool-cases (is_zero r)) [
    | inl z ↦ rw z (some-inj (rw z at e), refl, inl (zero_result r z))
    | inr z ↦ elim (Bool-cases (async && is_eagain (translate (sys.errno s.log)))) [
      | inl w ↦
          rw (z, w)
            (
              some-inj (rw (z, w) at e),
              refl,
              inr (
                  let (on, p) = both async (is_eagain (translate (sys.errno s.log))) w in
                  (on, translate-IsPending (sys.errno s.log) p)),
            )
      | inr w ↦ absurd (let e' = rw (z, w) at e in cc)
    ]
  ]

  connect_with-IsConnected :
      SetsMode sys
      → (fd : ℕ) (addr : Sockaddr) (async : Bool) (ip : Bytes) (port : ℕ) (o : Option ℕ) (s : Net)
      → (connect_with sys addr async ip port o s).0 ≡ some fd
      → IsConnected fd addr
          (local_address sys ip port (family_of addr))
          async
          (connect_with sys addr async ip port o s).1.log
  unfolding connect_with connect_bound close_failed call
  connect_with-IsConnected m fd addr async ip port none s e = cc
  connect_with-IsConnected m fd addr async ip port (some made) s e =
      let up = (set_connect_options sys made async s).1 in
      let b = bind_sock sys made ip port (family_of addr) up in
      elim (Option-cases b.0) [
        | inl f ↦ absurd (let e' = rw (f, connect_bound) at e in cc)
        | inr (n, f) ↦
            let r = call sys (connect made addr) b.1 in
            let w =
              finish_connect-IsUnderWay fd made async r.0 r.1
                (subst (λ x. (connect_bound sys made addr async x b.1).0 ≡ some fd) f e) in
            rw f (
              subst
                (λ x.
                  IsConnected x addr (local_address sys ip port (family_of addr)) async
                    (finish_connect sys made async r.0 r.1).1.log)
                w.0
                (record {
                  answer = r.0;
                  before = b.1.log;
                  is_last = w.1;
                  is_under_way = subst (IsUnderWay async r.0) (sym w.1) w.2;
                  is_bound =
                      bind_sock-IsBound sys made ip port (family_of addr) async n up
                        (set_connect_options-HasMode m made async s) f;
                }))
      ]

  connected_inj : (o : Option ℕ) (fd : ℕ) → as_connected o ≡ connected fd → o ≡ some fd
  connected_inj none fd e = cc
  connected_inj (some made) fd e = cc

  connect_to-IsConnected :
      SetsMode sys
      → (fd port : ℕ) (ip : Bytes) (async : Bool) (a : Resolved) (s : Net)
      → (connect_to sys async ip port a s).0 ≡ connected fd
      → (addr : Sockaddr) × (a ≡ found addr)
        × IsConnected fd addr
            (local_address sys ip port (family_of addr))
            async
            (connect_to sys async ip port a s).1.log
  unfolding connect_to
  connect_to-IsConnected m fd port ip async (found addr) s e =
      let made = call sys (socket (family_of addr) stream tcp) s in
      (
        addr,
        refl,
        connect_with-IsConnected m fd addr async ip port made.0 made.1
            (connected_inj (connect_with sys addr async ip port made.0 made.1).0 fd e),
      )
  connect_to-IsConnected m fd port ip async Resolved.failed s e = cc
  connect_to-IsConnected m fd port ip async Resolved.ran_out s e = cc

  -- On a system where FIONBIO does not fail, a descriptor that connect returns blocks unless `async` is
  -- set, by the last such call; it is bound to the local address of the
  -- family that the resolved address has, or to the wildcard of that family; and the last call was
  -- the connect to that address, which succeeded, or behind which `async` is set and the error is
  -- EINPROGRESS, EAGAIN, EWOULDBLOCK or ENOBUFS.
  pub connect_host-IsConnected :
      SetsMode sys
      → (fuel fd port local_port : ℕ) (host local_ip : Bytes) (async : Bool) (s : Net)
      → (connect_host sys fuel host port async local_ip local_port s).0 ≡ connected fd
      → (addr : Sockaddr) × ((get_domain_ip sys fuel host port tcp4 s).0 ≡ found addr)
        × IsConnected fd addr
            (local_address sys local_ip local_port (family_of addr))
            async
            (connect_host sys fuel host port async local_ip local_port s).1.log
  unfolding connect_host
  connect_host-IsConnected m fuel fd port local_port host local_ip async s e =
      let r = get_domain_ip sys fuel host port tcp4 s in
      connect_to-IsConnected m fd local_port local_ip async r.0 r.1 e
