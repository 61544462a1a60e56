-- ===== src/Poller/Events/Rounds.antt =====
-- The rounds of runLoop of src/Poller/EventPoller.cpp: which callbacks one round calls.
use ffzkit.Poller.Events.Maps.{IsValid, run_acts-IsValid}
use ffzkit.Base.{
  lookup, is_some, ℕ, ◌≤◌, ◌≡◌, ◌≢◌, refl, inl, inr, Bool, true, false, List, [], ◌∷◌, ◌++◌, Option,
  none, some, ltb, ◌==◌, if◌then◌else◌, All, arith, Bool-cases, Option-cases,
}
use ffzkit.Poller.Events.{
  contains, Poller, add_event, erase_event, Act, adds, dels, run_act, run_acts, Record, Invoked,
  to_poller, epoll_events, epoll_round, collect, select_calls, select_round, has, watch, max_fd,
}

module _ {ℓ} {V : Type ℓ} (fd : ℕ) where
  -- A descriptor that was deleted in this round stays in the cache until the next one.
  run_act-expired :
      (a : Act V) (p : Poller V)
      → contains fd p.expired ≡ true
      → contains fd (run_act p a).expired ≡ true
  unfolding run_act add_event erase_event
  run_act-expired (adds j v true) p h = h
  run_act-expired (adds j v false) p h = h
  run_act-expired (dels j ctl) p h = elim (Bool-cases (is_some (lookup j p.event_map))) [
    | inl e ↦ rw (run_act, erase_event, e) (ground arith)
    | inr e ↦ rw (run_act, erase_event, e) h
  ]

  run_acts-expired :
      (acts : List (Act V)) (p : Poller V)
      → contains fd p.expired ≡ true
      → contains fd (run_acts p acts).expired ≡ true
  unfolding run_acts
  run_acts-expired [] p h = h
  run_acts-expired (a ∷ acts) p h = run_acts-expired acts (run_act p a) (run_act-expired a p h)

  -- A callback that deletes a watched descriptor leaves it in the cache, whatever it does besides.
  run_acts-deletes :
      (before after : List (Act V)) (ctl : Bool) (p : Poller V)
      → is_some (lookup fd (run_acts p before).event_map) ≡ true
      → contains fd (run_acts p (before ++ dels fd ctl ∷ after)).expired ≡ true
  unfolding run_acts run_act erase_event
  run_acts-deletes [] after ctl p h =
      run_acts-expired after (erase_event ctl fd p).1 (rw (erase_event, h) (ground arith))
  run_acts-deletes (a ∷ before) after ctl p h = run_acts-deletes before after ctl (run_act p a) h

contains-distinct :
    {b : ℕ} (a : ℕ) (xs : List ℕ) → contains a xs ≡ false → contains b xs ≡ true → a ≢ b
contains-distinct a xs e h q = cc

called-kept {ℓ} :
    {C : Type ℓ} (b : Bool) (o : Option C) (cb : C) → (if b then none else o) ≡ some cb → b ≡ false
called-kept true o cb e = cc
called-kept false o cb e = refl

module _ {ℓ} {C : Type ℓ} where
  epoll_events-expired :
      (behave : C → ℕ → List (Act C)) (fd : ℕ) (evs : List (ℕ × ℕ)) (p : Poller C)
      → contains fd p.expired ≡ true
      → All (λ c. c.fd ≢ fd) (epoll_events behave evs p).invoked
  unfolding epoll_events
  epoll_events-expired behave fd [] p h = tt
  epoll_events-expired behave fd ((j, ev) ∷ evs) p h =
      elim (Option-cases (if contains j p.expired then none else lookup j p.event_map)) [
        | inl e ↦ rw (epoll_events, e) (epoll_events-expired behave fd evs p h)
        | inr (cb, e) ↦
            rw (epoll_events, e)
              (
                contains-distinct j p.expired (called-kept _ (lookup j p.event_map) cb e) h,
                epoll_events-expired behave fd evs _
                    (run_acts-expired fd (behave cb (to_poller ev)) p h),
              )
      ]

  select_calls-expired :
      (behave : C → ℕ → List (Act (Record C))) (fd : ℕ) (cs : List (Invoked C))
      (p : Poller (Record C))
      → contains fd p.expired ≡ true
      → All (λ c. c.fd ≢ fd) (select_calls behave cs p).invoked
  unfolding select_calls
  select_calls-expired behave fd [] p h = tt
  select_calls-expired behave fd (c ∷ cs) p h = elim (Bool-cases (contains c.fd p.expired)) [
    | inl e ↦ rw (select_calls, e) (select_calls-expired behave fd cs p h)
    | inr e ↦
        rw (select_calls, e)
          (
            contains-distinct c.fd p.expired e h,
            select_calls-expired behave fd cs _
                (run_acts-expired fd (behave c.call_back c.events) p h),
          )
  ]

  -- `max_fd`, with which select is told how far to look, is at least every descriptor of the sets.
  max_fd-ge : (top : ℕ) (m : List (ℕ × Record C)) → top ≤ max_fd top m
  unfolding max_fd
  max_fd-ge top [] = omega arith
  max_fd-ge top ((fd, r) ∷ m) = ground (arith, max_fd-ge (if ltb top fd then fd else top) m)

  max_fd-watch :
      (mask top : ℕ) (m : List (ℕ × Record C)) → All (λ fd. fd ≤ max_fd top m) (watch mask m)
  unfolding watch max_fd
  max_fd-watch mask top [] = tt
  max_fd-watch mask top ((fd, r) ∷ m) =
      let g = max_fd-ge (if ltb top fd then fd else top) m in
      elim (Bool-cases (has r.event mask)) [
        | inl e ↦ rw e (ground (arith, g), max_fd-watch mask (if ltb top fd then fd else top) m)
        | inr e ↦ rw e (max_fd-watch mask (if ltb top fd then fd else top) m)
      ]

  -- With epoll: when a callback deletes a watched descriptor, no callback of that descriptor is
  -- called any more in this round, whatever events are left, also if it was added again.
  pub epoll_events-delete :
      (behave : C → ℕ → List (Act C)) (fd : ℕ) (before after : List (Act C)) (ctl : Bool)
      (evs : List (ℕ × ℕ)) (p : Poller C)
      → is_some (lookup fd (run_acts p before).event_map) ≡ true
      → All
          (λ c. c.fd ≢ fd)
          (epoll_events behave evs (run_acts p (before ++ dels fd ctl ∷ after))).invoked
  epoll_events-delete behave fd before after ctl evs p h =
      epoll_events-expired behave fd evs _ (run_acts-deletes fd before after ctl p h)

  -- The same with select.
  pub select_calls-delete :
      (behave : C → ℕ → List (Act (Record C))) (fd : ℕ) (before after : List (Act (Record C)))
      (ctl : Bool) (cs : List (Invoked C)) (p : Poller (Record C))
      → is_some (lookup fd (run_acts p before).event_map) ≡ true
      → All
          (λ c. c.fd ≢ fd)
          (select_calls behave cs (run_acts p (before ++ dels fd ctl ∷ after))).invoked
  select_calls-delete behave fd before after ctl cs p h =
      select_calls-expired behave fd cs _ (run_acts-deletes fd before after ctl p h)

  epoll_events-IsValid :
      (behave : C → ℕ → List (Act C)) (evs : List (ℕ × ℕ)) (p : Poller C)
      → IsValid p
      → IsValid (epoll_events behave evs p).after
  unfolding epoll_events
  epoll_events-IsValid behave [] p h = h
  epoll_events-IsValid behave ((j, ev) ∷ evs) p h =
      elim (Option-cases (if contains j p.expired then none else lookup j p.event_map)) [
        | inl e ↦ rw (epoll_events, e) (epoll_events-IsValid behave evs p h)
        | inr (cb, e) ↦
            rw (epoll_events, e)
              (epoll_events-IsValid behave evs _ (run_acts-IsValid (behave cb (to_poller ev)) p h))
      ]

  select_calls-IsValid :
      (behave : C → ℕ → List (Act (Record C))) (cs : List (Invoked C)) (p : Poller (Record C))
      → IsValid p
      → IsValid (select_calls behave cs p).after
  unfolding select_calls
  select_calls-IsValid behave [] p h = h
  select_calls-IsValid behave (c ∷ cs) p h = elim (Bool-cases (contains c.fd p.expired)) [
    | inl e ↦ rw (select_calls, e) (select_calls-IsValid behave cs p h)
    | inr e ↦
        rw (select_calls, e)
          (select_calls-IsValid behave cs _ (run_acts-IsValid (behave c.call_back c.events) p h))
  ]

  -- A round, with epoll or with select, keeps the map without a descriptor twice and `fd_count_`
  -- its size, whatever the callbacks add and delete.
  pub round-IsValid :
      (behave : C → ℕ → List (Act C)) (behave' : C → ℕ → List (Act (Record C))) (evs : List (ℕ × ℕ))
      (ready : ℕ → ℕ) (p : Poller C) (q : Poller (Record C))
      → IsValid p
      → IsValid q
      → IsValid (epoll_round behave evs p).after × IsValid (select_round behave' ready q).after
  unfolding epoll_round select_round
  round-IsValid behave behave' evs ready p q hp hq = (
    epoll_events-IsValid behave evs _ (record { distinct = hp.distinct; counted = hp.counted }),
    select_calls-IsValid behave' (collect ready q.event_map) _
        (record { distinct = hq.distinct; counted = hq.counted }),
  )

  collect-ready :
      (ready : ℕ → ℕ) (m : List (ℕ × Record C))
      → All (λ c. (c.events ≡ ready c.fd) × (c.events ≢ 0)) (collect ready m)
  unfolding collect
  collect-ready ready [] = tt
  collect-ready ready ((fd, r) ∷ m) = elim (Bool-cases (ready fd == 0)) [
    | inl e ↦ rw e (collect-ready ready m)
    | inr e ↦ rw e ((refl, ground arith), collect-ready ready m)
  ]

  All-invoked {κ} :
      (P : Invoked C → Type κ) (behave : C → ℕ → List (Act (Record C))) (cs : List (Invoked C))
      (p : Poller (Record C))
      → All P cs
      → All P (select_calls behave cs p).invoked
  unfolding select_calls
  All-invoked P behave [] p h = tt
  All-invoked P behave (c ∷ cs) p h = elim (Bool-cases (contains c.fd p.expired)) [
    | inl e ↦ rw (select_calls, e) (All-invoked P behave cs p h.1)
    | inr e ↦ rw (select_calls, e) (h.0, All-invoked P behave cs _ h.1)
  ]

  -- A round with select calls a callback only for a descriptor that select found ready, with just
  -- the events found; and every descriptor that is put into a set is at most `max_fd`, so select
  -- is told to look far enough.
  pub select_round-ready :
      (behave : C → ℕ → List (Act (Record C))) (ready : ℕ → ℕ) (mask : ℕ) (p : Poller (Record C))
      → All (λ c. (c.events ≡ ready c.fd) × (c.events ≢ 0)) (select_round behave ready p).invoked
        × All (λ fd. fd ≤ max_fd 0 p.event_map) (watch mask p.event_map)
  unfolding select_round
  select_round-ready behave ready mask p = (
    All-invoked _ behave (collect ready p.event_map) _ (collect-ready ready p.event_map),
    max_fd-watch mask 0 p.event_map,
  )
