-- ===== src/Poller/Events/Maps.antt =====
-- The map of the watched descriptors behind addEvent and delEvent of
-- src/Poller/EventPoller.cpp.
use ffzkit.Base.{
  ℕ, ◌≡◌, ◌≢◌, refl, inl, inr, Bool, true, false, ◌&&◌, List, [], ◌∷◌, none, some, if◌then◌else◌,
  length, arith, Bool-cases, Option-cases, lookup, is_some, emplace, IsDistinct, lookup-erase_same,
  lookup-erase_other, erase-IsDistinct, emplace-IsDistinct,
}
use ffzkit.Poller.Events.{
  Poller, to_ret, add_event, erase_event, del_event, Act, adds, dels, run_act, run_acts,
}

module _ {ℓ} {V : Type ℓ} where
  -- The counter that other threads read is the size of the map, and no descriptor is twice in it.
  pub record IsValid (p : Poller V) : Type ℓ where
    pub distinct : IsDistinct p.event_map
    pub counted : p.fd_count ≡ length p.event_map

  add_event-IsValid :
      (has_cb current ctl : Bool) (fd : ℕ) (v : V) (p : Poller V)
      → IsValid p
      → IsValid (add_event has_cb current ctl fd v p).poller
  unfolding add_event
  add_event-IsValid false current ctl fd v p h = h
  add_event-IsValid true false ctl fd v p h = h
  add_event-IsValid true true false fd v p h = record { distinct = h.distinct; counted = refl }
  add_event-IsValid true true true fd v p h = record {
    distinct = emplace-IsDistinct fd v p.event_map h.distinct;
    counted = refl;
  }

  erase_event-IsValid :
      (ctl : Bool) (fd : ℕ) (p : Poller V) → IsValid p → IsValid (erase_event ctl fd p).1
  unfolding erase_event
  erase_event-IsValid ctl fd p h = elim (Bool-cases (is_some (lookup fd p.event_map))) [
    | inl e ↦
        rw e (record { distinct = erase-IsDistinct fd p.event_map h.distinct; counted = refl })
    | inr e ↦ rw e (record { distinct = h.distinct; counted = refl })
  ]

  -- Whatever a callback adds and deletes, behind it no descriptor is twice in the map, and
  -- `fd_count_` is the size of the map, if that was so before.
  pub run_acts-IsValid :
      (acts : List (Act V)) (p : Poller V) → IsValid p → IsValid (run_acts p acts)
  unfolding run_acts run_act
  run_acts-IsValid [] p h = h
  run_acts-IsValid (adds fd v ctl ∷ acts) p h =
      run_acts-IsValid acts _ (add_event-IsValid true true ctl fd v p h)
  run_acts-IsValid (dels fd ctl ∷ acts) p h =
      run_acts-IsValid acts _ (erase_event-IsValid ctl fd p h)

  -- On the thread of the loop delEvent returns 0, and tells its callback of success, exactly if the
  -- descriptor was watched and the kernel let it go. Behind it the descriptor is not watched, every
  -- other one is as it was, and one that was watched gets no more events of this round.
  pub del_event_lem :
      (ctl : Bool) (fd : ℕ) (p : Poller V)
      → IsValid p
      → let watched = is_some (lookup fd p.event_map) in
        let c = del_event true ctl fd p in
        (c.ret ≡ to_ret (watched && ctl))
        × (c.success ≡ some (watched && ctl))
        × (lookup fd c.poller.event_map ≡ none)
        × ((j : ℕ) → j ≢ fd → lookup j c.poller.event_map ≡ lookup j p.event_map)
        × (c.poller.expired ≡ (if watched then fd ∷ p.expired else p.expired))
  unfolding del_event erase_event is_some
  del_event_lem ctl fd p h = elim (Option-cases (lookup fd p.event_map)) [
    | inl e ↦ rw e (refl, refl, e, (λ j ne. refl), refl)
    | inr (w, e) ↦ rw e (
      refl,
      refl,
      lookup-erase_same fd p.event_map h.distinct,
      (λ j ne. lookup-erase_other j fd p.event_map (ground arith)),
      refl,
    )
  ]

  -- On the thread of the loop, addEvent with a callback returns 0 exactly if the kernel took the
  -- descriptor. The callback that was there before stays; a descriptor that was not watched is
  -- watched with the new one behind a success, and every other one is as it was.
  pub add_event_lem :
      (ctl : Bool) (fd : ℕ) (v : V) (p : Poller V)
      → let c = add_event true true ctl fd v p in
        (c.ret ≡ to_ret ctl)
        × ((w : V) → lookup fd p.event_map ≡ some w → c.poller.event_map ≡ p.event_map)
        × (lookup fd p.event_map ≡ none
            → lookup fd c.poller.event_map ≡ (if ctl then some v else none))
        × ((j : ℕ) → j ≢ fd → lookup j c.poller.event_map ≡ lookup j p.event_map)
  unfolding add_event emplace is_some lookup
  add_event_lem false fd v p = (refl, (λ w e. refl), (λ e. e), λ j ne. refl)
  add_event_lem true fd v p =
      (refl, (λ w e. rw e refl), (λ e. rw e (ground arith)), λ j ne. ground arith)
