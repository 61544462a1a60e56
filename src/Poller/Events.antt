-- ===== src/Poller/Events.antt =====
-- addEvent, delEvent, modifyEvent and the rounds of runLoop, src/Poller/EventPoller.cpp, in the two
-- builds: with epoll (HAS_EPOLL) and with select. The kernel is a parameter: what `epoll_ctl`
-- returned is an argument of each call, true unless it is -1, and what epoll_wait and select found
-- is a list and a function.
pub mod Maps
pub mod Rounds
mod Tests
use Prim.Native.Nat.{bit_and, bit_or}
use ffzkit.Base.{
  ℕ, ◌+◌, Bool, true, false, not, ◌&&◌, ◌||◌, List, [], ◌∷◌, Option, none, some, leb, ltb, ◌==◌,
  if◌then◌else◌, length, lookup, is_some, emplace, erase,
}

abbrev pub contains : ℕ → List ℕ → Bool
contains a [] = false
contains a (x ∷ xs) = x == a || contains a xs

-- What the functions return: 0 or -1.
pub data Ret : Type 0 where
  zero_ret minus_one_ret : Ret

abbrev pub to_ret : Bool → Ret
to_ret true = zero_ret
to_ret false = minus_one_ret

pub record Poller {ℓ} (V : Type ℓ) : Type ℓ where
  pub event_map : List (ℕ × V)
  pub fd_count : ℕ
  pub expired : List ℕ

-- A call from the thread of the loop is done; one from another thread is handed to `async`, with
-- the same arguments. `success` is what the completion callback is called with.
pub record Called {ℓ} (V : Type ℓ) : Type ℓ where
  pub ret : Ret
  pub poller : Poller V
  pub handed_over : Bool
  pub success : Option Bool

module _ {ℓ} {V : Type ℓ} where
  abbrev pub hand_over : Poller V → Called V
  hand_over p = record { ret = zero_ret; poller = p; handed_over = true; success = none }

  -- `fd_count_ = event_map_.size()`.
  abbrev pub recount : Poller V → Poller V
  recount p = record p { fd_count = length p.event_map }

  -- addEvent with epoll; `has_cb` is false for an empty callback.
  pub add_event : Bool → Bool → Bool → ℕ → V → Poller V → Called V
  unfolding emplace
  add_event has_cb current ctl fd v p =
      if not has_cb
      then record { ret = minus_one_ret; poller = p; handed_over = false; success = none }
      else if current
      then record {
        ret = to_ret ctl;
        poller = recount (if ctl then record p { event_map = emplace fd v p.event_map } else p);
        handed_over = false;
        success = none;
      }
      else hand_over p

  -- addEvent with select, which can watch the descriptors below `FD_SETSIZE`.
  pub add_event_select : ℕ → Bool → Bool → ℕ → V → Poller V → Called V
  unfolding add_event
  add_event_select fd_setsize has_cb current fd v p =
      if has_cb && current && leb fd_setsize fd
      then record { ret = minus_one_ret; poller = p; handed_over = false; success = none }
      else add_event has_cb current true fd v p

  -- The part of delEvent on the thread of the loop, both builds: `ctl` is true with select.
  pub erase_event : Bool → ℕ → Poller V → Bool × Poller V
  unfolding lookup is_some erase
  erase_event ctl fd p =
      if is_some (lookup fd p.event_map)
      then (ctl, recount (record p { event_map = erase fd p.event_map; expired = fd ∷ p.expired }))
      else (false, recount p)

  pub del_event : Bool → Bool → ℕ → Poller V → Called V
  unfolding erase_event
  del_event current ctl fd p =
      if current
      then (let (ok, p') = erase_event ctl fd p in
          record { ret = to_ret ok; poller = p'; handed_over = false; success = some ok })
      else hand_over p

  -- modifyEvent with epoll changes the kernel's interest only.
  pub modify_event : Bool → Bool → Poller V → Called V
  modify_event current ctl p =
      if current
      then record { ret = to_ret ctl; poller = p; handed_over = false; success = some ctl }
      else hand_over p

-- Poll_Record of the select build.
pub record Record {ℓ} (C : Type ℓ) : Type ℓ where
  pub event : ℕ
  pub call_back : C

set_event {ℓ} : {C : Type ℓ} → ℕ → ℕ → List (ℕ × Record C) → List (ℕ × Record C)
set_event fd event [] = []
set_event fd event ((j, r) ∷ m) =
    let rest = set_event fd event m in
    if j == fd then (j, record r { event = event }) ∷ m else (j, r) ∷ rest

-- modifyEvent with select.
pub modify_event_select {ℓ} : {C : Type ℓ} → Bool → ℕ → ℕ → Poller (Record C) → Called (Record C)
unfolding lookup is_some set_event
modify_event_select current fd event p =
    if current
    then (let found = is_some (lookup fd p.event_map) in
        record {
          ret = to_ret found;
          poller = record p { event_map = set_event fd event p.event_map };
          handed_over = false;
          success = some found;
        })
    else hand_over p

-- What a callback does to the poller: calls of addEvent and delEvent on the thread of the loop, with
-- what the kernel answers. A std::exception ends the calls and is caught.
pub data Act {ℓ} (V : Type ℓ) : Type ℓ where
  adds : ℕ → V → Bool → Act V
  dels : ℕ → Bool → Act V

pub record Invoked {ℓ} (C : Type ℓ) : Type ℓ where
  pub fd : ℕ
  pub call_back : C
  pub events : ℕ

-- The callbacks that a round has called, in order, and the poller behind it.
pub record Round {ℓ} (C : Type ℓ) (V : Type ℓ) : Type ℓ where
  pub invoked : List (Invoked C)
  pub after : Poller V

module _ {ℓ} {V : Type ℓ} where
  pub run_act : Poller V → Act V → Poller V
  unfolding add_event erase_event
  run_act p (adds fd v ctl) = (add_event true true ctl fd v p).poller
  run_act p (dels fd ctl) = (erase_event ctl fd p).1

  pub run_acts : Poller V → List (Act V) → Poller V
  unfolding run_act
  run_acts p [] = p
  run_acts p (a ∷ rest) = run_acts (run_act p a) rest

-- Poll_Event, and the events of epoll of src/win32/wepoll.h; src/win32/sys/epoll.h defines
-- EPOLLET as 0.
abbrev pub event_read : ℕ
event_read = 1

abbrev pub event_write : ℕ
event_write = 2

abbrev pub event_error : ℕ
event_error = 4

abbrev pub event_lt : ℕ
event_lt = 8

abbrev pub has : ℕ → ℕ → Bool
has e mask = not (bit_and e mask == 0)

pub to_epoll : ℕ → ℕ → ℕ
to_epoll epollet event =
    bit_or
      (bit_or
        (bit_or (if has event event_read then 1 else 0) (if has event event_write then 4 else 0))
        (if has event event_error then 24 else 0))
      (if has event event_lt then 0 else epollet)

pub to_poller : ℕ → ℕ
to_poller e =
    bit_or
      (bit_or (bit_or (if has e 81 then event_read else 0) (if has e 260 then event_write else 0))
        (if has e 16 then event_error else 0))
      (if has e 8 then event_error else 0)

-- The events of a descriptor by the three sets that select has filled.
pub ready_events : (ℕ → Bool) → (ℕ → Bool) → (ℕ → Bool) → ℕ → ℕ
ready_events in_read in_write in_err fd =
    (if in_read fd then event_read else 0)
    + ((if in_write fd then event_write else 0) + (if in_err fd then event_error else 0))

module _ {ℓ} {C : Type ℓ} where
  -- The `for` loop over the events of one epoll_wait. Nothing is called for a descriptor that was
  -- deleted in this round, or that is not in the map.
  pub epoll_events : (C → ℕ → List (Act C)) → List (ℕ × ℕ) → Poller C → Round C C
  unfolding lookup run_acts to_poller
  epoll_events behave [] p = record { invoked = []; after = p }
  epoll_events behave ((fd, ev) ∷ evs) p =
      elim (if contains fd p.expired then none else lookup fd p.event_map) [
        | none ↦ epoll_events behave evs p
        | some cb ↦
            let r = epoll_events behave evs (run_acts p (behave cb (to_poller ev))) in
            record r {
              invoked = record { fd = fd; call_back = cb; events = to_poller ev } ∷ r.invoked;
            }
      ]

  -- One round of the loop with epoll, behind an epoll_wait that did not fail.
  pub epoll_round : (C → ℕ → List (Act C)) → List (ℕ × ℕ) → Poller C → Round C C
  unfolding epoll_events
  epoll_round behave evs p = epoll_events behave evs (record p { expired = [] })

  -- The loop that fills `callback_list`.
  pub collect : (ℕ → ℕ) → List (ℕ × Record C) → List (Invoked C)
  collect ready [] = []
  collect ready ((fd, r) ∷ m) =
      let rest = collect ready m in
      if ready fd == 0
      then rest
      else record { fd = fd; call_back = r.call_back; events = ready fd } ∷ rest

  -- The `for_each` over it.
  pub select_calls :
      (C → ℕ → List (Act (Record C))) → List (Invoked C) → Poller (Record C) → Round C (Record C)
  unfolding run_acts
  select_calls behave [] p = record { invoked = []; after = p }
  select_calls behave (c ∷ cs) p = elim (contains c.fd p.expired) [
    | true ↦ select_calls behave cs p
    | false ↦
        let r = select_calls behave cs (run_acts p (behave c.call_back c.events)) in
        record r { invoked = c ∷ r.invoked }
  ]

  -- One round of the loop with select, behind a select that did not fail.
  pub select_round :
      (C → ℕ → List (Act (Record C))) → (ℕ → ℕ) → Poller (Record C) → Round C (Record C)
  unfolding collect select_calls
  select_round behave ready p =
      select_calls behave (collect ready p.event_map) (record p { expired = [] })

  -- The descriptors that are put into the sets, and `max_fd`.
  pub watch : ℕ → List (ℕ × Record C) → List ℕ
  watch mask [] = []
  watch mask ((fd, r) ∷ m) = let rest = watch mask m in if has r.event mask then fd ∷ rest else rest

  pub max_fd : ℕ → List (ℕ × Record C) → ℕ
  max_fd top [] = top
  max_fd top ((fd, r) ∷ m) = max_fd (if ltb top fd then fd else top) m
