-- ===== src/Util/NoticeCenter.antt =====
-- EventDispatcher and NoticeCenter of src/Util/NoticeCenter.h. The names of the events and the tags
-- are numbers: the code only tells them apart. A dispatcher is shared, so it is an address into
-- `heap`. The order of the list is that in
-- which the multimap of listeners happens to keep them. `F` is a listener's function.
mod Tests
pub mod Listeners
pub mod Placed
pub mod Emit
pub mod Refine
use mathlib.Core.List.{Permᴰ}
use ffzkit.Base.{
  ℕ, suc, Bool, true, false, not, ◌&&◌, List, [], ◌∷◌, ◌++◌, Option, none, some, ◌==◌,
  if◌then◌else◌, lookup, emplace, erase,
}

-- What an Any holds: the type it was set with, and the function.
pub record Listener {ℓ} (F : Type ℓ) : Type ℓ where
  pub type : ℕ
  pub fn : F

abbrev pub Listeners {ℓ} : Type ℓ → Type ℓ
Listeners F = List (ℕ × Listener F)

-- `empty` of a list.
abbrev pub empty {ℓ} : {A : Type ℓ} → List A → Bool
empty [] = true
empty (x ∷ xs) = false

-- `erase(tag)` of the multimap: every listener of the tag goes.
pub erase_all {ℓ} : {A : Type ℓ} → ℕ → List (ℕ × A) → List (ℕ × A)
erase_all tag [] = []
erase_all tag ((t, l) ∷ rest) =
    let rest' = erase_all tag rest in if t == tag then rest' else (t, l) ∷ rest'

-- The state of the centre: `map_listener` is `_mapListener`, and `next` is an address that is free.
pub record Center {ℓ} (F : Type ℓ) : Type ℓ where
  pub map_listener : List (ℕ × ℕ)
  pub heap : ℕ → Listeners F
  pub next : ℕ

-- Where the multimap puts a listener among those that it holds. It is an unordered one, so this is not
-- known; it may also give the others new places.
abbrev pub Place {ℓ} : Type ℓ → Type ℓ
Place F = ℕ × Listener F → Listeners F → Listeners F

-- Whatever it does, it then holds the new listener and the old ones, each as often.
abbrev pub IsPlacing {ℓ} : {F : Type ℓ} → Place F → Type ℓ
IsPlacing {F} place = (x : ℕ × Listener F) (ls : Listeners F) → Permᴰ (place x ls) (x ∷ ls)

module _ {ℓ} {F : Type ℓ} where
  abbrev pub store : ℕ → Listeners F → Center F → Center F
  store d ls c = record c { heap = λ i. if i == d then ls else c.heap i }

  -- getDispatcher, without and with `create`.
  pub find_dispatcher : ℕ → Center F → Option ℕ
  unfolding lookup
  find_dispatcher event c = lookup event c.map_listener

  pub create_dispatcher : ℕ → Option ℕ → Center F → ℕ × Center F
  unfolding emplace lookup
  create_dispatcher event (some d) c = (d, c)
  create_dispatcher event none c = (
    c.next,
    record c {
      map_listener = emplace event c.next c.map_listener;
      heap = λ i. if i == c.next then [] else c.heap i;
      next = suc c.next;
    },
  )

  pub get_dispatcher : ℕ → Center F → ℕ × Center F
  unfolding find_dispatcher create_dispatcher
  get_dispatcher event c = create_dispatcher event (find_dispatcher event c) c

  -- EventDispatcher::addListener and EventDispatcher::delListener.
  pub dispatcher_add : Place F → ℕ → ℕ → Listener F → Center F → Center F
  dispatcher_add place d tag l c = store d (place (tag, l) (c.heap d)) c

  pub dispatcher_del : ℕ → ℕ → Center F → Bool × Center F
  unfolding erase_all
  dispatcher_del d tag c = let left = erase_all tag (c.heap d) in (empty left, store d left c)

  -- delDispatcher: the entry goes if it is still the same dispatcher.
  pub del_dispatcher : ℕ → ℕ → Center F → Center F
  unfolding lookup erase
  del_dispatcher event d c = elim (lookup event c.map_listener) [
    | none ↦ c
    | some d' ↦ if d' == d then record c { map_listener = erase event c.map_listener } else c
  ]

  -- NoticeCenter::addListener, NoticeCenter::delListener and clearAll.
  pub add_listener : Place F → ℕ → ℕ → Listener F → Center F → Center F
  unfolding get_dispatcher dispatcher_add
  add_listener place tag event l c =
      let (d, c') = get_dispatcher event c in dispatcher_add place d tag l c'

  pub del_listener : ℕ → ℕ → Center F → Center F
  unfolding find_dispatcher dispatcher_del del_dispatcher
  del_listener tag event c = elim (find_dispatcher event c) [
    | none ↦ c
    | some d ↦
        let (gone, c') = dispatcher_del d tag c in if gone then del_dispatcher event d c' else c'
  ]

  pub clear_all : Center F → Center F
  clear_all c = record c { map_listener = [] }

-- How the call of a listener ends: it returns, it throws InterruptException, or it throws something
-- else.
pub data Ending : Type 0 where
  returns interrupts throws : Ending

-- `state` is all that a listener can change, this centre included. `undefined` is the call through
-- an Any of another type, when `safe` is false; `thrown` is an exception that leaves emitEvent.
pub data Emitted {κ} (S : Type κ) : Type κ where
  emitted : ℕ → S → Emitted S
  thrown : S → Emitted S
  undefined : Emitted S

module _ {ℓ κ} {F : Type ℓ} {S : Type κ} (call : F → S → Ending × S) where
  -- The loop of EventDispatcher::emitEvent over the copy, with `ret` so far.
  pub emit_loop : Bool → ℕ → Listeners F → ℕ → S → Emitted S
  emit_loop safe type [] ret s = emitted ret s
  emit_loop safe type ((tag, l) ∷ rest) ret s =
      let (e, s') = call l.fn s in
      let go = emit_loop safe type rest (suc ret) s' in
      if l.type == type
      then elim e [ returns ↦ go | interrupts ↦ emitted (suc ret) s' | throws ↦ thrown s' ]
      else if safe
      then thrown s
      else undefined

  -- emitEvent_l: no dispatcher, no call. `type` is the type of the arguments.
  pub emit_event : Bool → ℕ → ℕ → Center F → S → Emitted S
  unfolding find_dispatcher emit_loop
  emit_event safe type event c s = elim (find_dispatcher event c) [
    | none ↦ emitted 0 s
    | some d ↦ emit_loop safe type (c.heap d) 0 s
  ]
