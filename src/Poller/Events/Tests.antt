-- ===== src/Poller/Events/Tests.antt =====
-- Callback 1 deletes descriptor 7 and adds it again; the others do nothing.
use ffzkit.Base.{lookup, is_some, ℕ, zero, suc, ◌≡◌, ◌≢◌, refl, true, List, [], ◌∷◌, All, ◌==◌}
use ffzkit.Poller.Events.Maps.{IsValid}
use ffzkit.Poller.Events.Rounds.{epoll_events-delete}
use ffzkit.Poller.Events.{
  Poller, add_event_select, modify_event_select, Act, adds, dels, Record, run_acts, to_poller,
  to_epoll, epoll_events, epoll_round, ready_events, select_round, zero_ret, minus_one_ret,
}

behave : ℕ → ℕ → List (Act ℕ)
behave (suc zero) e = dels 7 true ∷ adds 7 3 true ∷ []
behave c e = []

abbrev record_of : ℕ → Record ℕ
record_of c = record { event = 5; call_back = c }

behave_select : ℕ → ℕ → List (Act (Record ℕ))
behave_select (suc zero) e = dels 7 true ∷ adds 7 (record_of 3) true ∷ []
behave_select c e = []

abbrev two : Poller ℕ
two = record { event_map = (4, 1) ∷ (7, 2) ∷ []; fd_count = 2; expired = [] }

abbrev two_records : Poller (Record ℕ)
two_records = record {
  event_map = (4, record_of 1) ∷ (7, record_of 2) ∷ [];
  fd_count = 2;
  expired = [];
}

-- Descriptor 7 is added again in the round, and its event of this round is not told to anyone.
epoll_run : epoll_round behave ((4, 1) ∷ (7, 4) ∷ []) two ≡ record {
  invoked = record { fd = 4; call_back = 1; events = 1 } ∷ [];
  after = record { event_map = (7, 3) ∷ (4, 1) ∷ []; fd_count = 2; expired = 7 ∷ [] };
}
unfolding epoll_round behave
epoll_run = refl

abbrev found : ℕ → ℕ
found = ready_events (λ fd. fd == 4) (λ fd. fd == 7) (λ fd. fd == 7)

select_run : select_round behave_select found two_records ≡ record {
  invoked = record { fd = 4; call_back = 1; events = 1 } ∷ [];
  after = record {
    event_map = (7, record_of 3) ∷ (4, record_of 1) ∷ [];
    fd_count = 2;
    expired = 7 ∷ [];
  };
}
unfolding select_round behave_select ready_events
select_run = refl

modified : (modify_event_select true 7 1 two_records).ret ≡ zero_ret
unfolding modify_event_select
modified = refl

too_big : (add_event_select 1024 true true 1024 (record_of 1) two_records).ret ≡ minus_one_ret
unfolding add_event_select
too_big = refl

-- EPOLLIN, EPOLLOUT and EPOLLET, and the way back.
masks : (to_epoll 2147483648 3 ≡ 2147483653) × (to_poller 24 ≡ 5)
unfolding to_epoll to_poller
masks = (refl, refl)

two-IsValid : IsValid two
unfolding lookup
two-IsValid = record { distinct = (refl, (refl, tt)); counted = refl }

two_records-IsValid : IsValid two_records
unfolding lookup
two_records-IsValid = record { distinct = (refl, (refl, tt)); counted = refl }

epoll_events-delete_example :
    All
      (λ c. c.fd ≢ 7)
      (epoll_events behave
        ((7, 4) ∷ (4, 1) ∷ [])
        (run_acts two (dels 7 true ∷ adds 7 3 true ∷ []))).invoked
epoll_events-delete_example =
    epoll_events-delete behave 7 [] (adds 7 3 true ∷ []) true ((7, 4) ∷ (4, 1) ∷ []) two watched
  where
    watched : is_some (lookup 7 (run_acts two []).event_map) ≡ true
    watched = unfold is_some lookup run_acts in refl
