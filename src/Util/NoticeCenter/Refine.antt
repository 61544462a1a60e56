-- ===== src/Util/NoticeCenter/Refine.antt =====
-- addListener, delListener and clearAll of src/Util/NoticeCenter.h against the plain view of a
-- notice centre: a list of listeners for each event.
use mathlib.Core.List.{Permᴰ}
use ffzkit.Base.{
  ℕ, ◌≡◌, ◌≢◌, refl, sym, ap, ◌∙◌, subst, inl, inr, true, false, List, [], ◌∷◌, some, ◌==◌,
  if◌then◌else◌, lookup, emplace, erase, is_some, IsDistinct, lookup-erase_same, arith, Bool-cases,
  Option-cases,
}
use ffzkit.Util.NoticeCenter.Listeners.{
  listeners_of, IsValid, fresh, Holds, store-Holds, erase-Holds, create-Holds, listeners_of-some,
  listeners_of-none,
}
use ffzkit.Util.NoticeCenter.Placed.{same_one, erase_all-cons, erase_all-same, empty-place}
use ffzkit.Util.NoticeCenter.{
  Place, IsPlacing, Listener, Listeners, empty, erase_all, Center, find_dispatcher,
  create_dispatcher, get_dispatcher, dispatcher_add, dispatcher_del, del_dispatcher, add_listener,
  del_listener, clear_all,
}

module _ {ℓ} {F : Type ℓ} (place : Place F) (placed : IsPlacing place) where
  place_first : (x : ℕ × Listener F) → place x [] ≡ x ∷ []
  place_first x = same_one (placed x []) refl

  pub add_listener-Holds :
      (tag event : ℕ) (l : Listener F) (c : Center F)
      → IsValid c
      → Holds event (place (tag, l) (listeners_of event c)) c (add_listener place tag event l c)
  unfolding add_listener get_dispatcher dispatcher_add find_dispatcher create_dispatcher emplace
      is_some
  add_listener-Holds tag event l c v = elim (Option-cases (lookup event c.map_listener)) [
    | inl e ↦
        let same : (c.next == c.next) ≡ true = ground arith in
        rw
          (
            listeners_of-none event c e,
            e,
            create_dispatcher,
            emplace,
            e,
            same,
            place_first (tag, l),
          )
          (create-Holds event (tag, l) c v e)
    | inr (d, e) ↦
        rw (listeners_of-some event d c e, e)
          (store-Holds event d (place (tag, l) (c.heap d)) c v e
            (empty-place place placed (tag, l) (c.heap d)))
  ]

module _ {ℓ} {F : Type ℓ} where
  -- delListener with an addListener of another thread between its two locks.
  abbrev pub del_listener_raced : ℕ → ℕ → ℕ → (Center F → Center F) → Center F → Center F
  del_listener_raced tag event d other c =
      let (gone, c') = dispatcher_del d tag c in
      if gone then del_dispatcher event d (other c') else other c'

  empty-nil : (ls : Listeners F) → empty ls ≡ true → ls ≡ []
  empty-nil [] e = refl
  empty-nil (x ∷ ls) e = cc

  del_listener-Holds :
      (tag event : ℕ) (c : Center F)
      → IsValid c
      → Holds event (erase_all tag (listeners_of event c)) c (del_listener tag event c)
  unfolding del_listener dispatcher_del del_dispatcher find_dispatcher
  del_listener-Holds tag event c v = elim (Option-cases (lookup event c.map_listener)) [
    | inl e ↦
        rw (listeners_of-none event c e, del_listener, find_dispatcher, e)
          (record { valid = v; here = listeners_of-none event c e; others = λ j ne. refl })
    | inr (d, e) ↦
        let left = erase_all tag (c.heap d) in
        let same : (d == d) ≡ true = ground arith in
        elim (Bool-cases (empty left)) [
          | inl p ↦
              rw
                (
                  listeners_of-some event d c e,
                  empty-nil left p,
                  del_listener,
                  find_dispatcher,
                  e,
                  dispatcher_del,
                  p,
                  del_dispatcher,
                  e,
                  same,
                )
                (erase-Holds event d left c v e)
          | inr p ↦
              rw
                (listeners_of-some event d c e, del_listener, find_dispatcher, e, dispatcher_del, p)
                (store-Holds event d left c v e p)
        ]
  ]

-- The calls that change a centre.
pub data Op {ℓ} (F : Type ℓ) : Type ℓ where
  adds : ℕ → ℕ → Listener F → Op F
  dels : ℕ → ℕ → Op F
  clears : Op F

-- The plain view: the listeners of each event.
abbrev pub View {ℓ} : Type ℓ → Type ℓ
View F = ℕ → Listeners F

module _ {ℓ} {F : Type ℓ} (place : Place F) where
  abbrev pub run_op : Op F → Center F → Center F
  run_op (adds tag event l) c = add_listener place tag event l c
  run_op (dels tag event) c = del_listener tag event c
  run_op clears c = clear_all c

  abbrev pub run_ops : List (Op F) → Center F → Center F
  run_ops [] c = c
  run_ops (o ∷ os) c = run_ops os (run_op o c)

module _ {ℓ} {F : Type ℓ} where
  abbrev pub view_op : Op F → View F → View F
  view_op (adds tag event l) s j = if j == event then (tag, l) ∷ s event else s j
  view_op (dels tag event) s j = if j == event then erase_all tag (s event) else s j
  view_op clears s j = []

  abbrev pub view_ops : List (Op F) → View F → View F
  view_ops [] s = s
  view_ops (o ∷ os) s = view_ops os (view_op o s)

  -- A centre shows a view, whatever the order in which it keeps the listeners.
  pub record Shows (s : View F) (c : Center F) : Type ℓ where
    pub valid : IsValid c
    pub shown : (j : ℕ) → Permᴰ (listeners_of j c) (s j)

  Holds-Shows :
      (event : ℕ) (ls ms : Listeners F) (s : View F) (c c' : Center F)
      → Shows s c
      → Holds event ls c c'
      → Permᴰ ls ms
      → Shows (λ j. if j == event then ms else s j) c'
  Holds-Shows event ls ms s c c' v h d = record {
    valid = h.valid;
    shown = λ j. elim (Bool-cases (j == event)) [
      | inl e ↦
          let same : event ≡ j = ground arith in
          rw e (
            subst (λ x. Permᴰ (listeners_of x c') ms) same (subst (λ l. Permᴰ l ms) (sym h.here) d))
      | inr e ↦ rw e (subst (λ l. Permᴰ l (s j)) (sym (h.others j (ground arith))) (v.shown j))
    ];
  }

module _ {ℓ} {F : Type ℓ} (place : Place F) (placed : IsPlacing place) where
  run_op-Shows :
      (o : Op F) (s : View F) (c : Center F) → Shows s c → Shows (view_op o s) (run_op place o c)
  unfolding clear_all
  run_op-Shows (adds tag event l) s c v =
      Holds-Shows event (place (tag, l) (listeners_of event c)) ((tag, l) ∷ s event) s c _ v
        (add_listener-Holds place placed tag event l c v.valid)
        (Permᴰ.trans (placed (tag, l) (listeners_of event c)) (Permᴰ.cons refl (v.shown event)))
  run_op-Shows (dels tag event) s c v =
      Holds-Shows event (erase_all tag (listeners_of event c)) (erase_all tag (s event)) s c _ v
        (del_listener-Holds tag event c v.valid) (erase_all-same tag (v.shown event))
  run_op-Shows clears s c v = record {
    valid = cleared-IsValid c;
    shown = λ j. subst (λ l. Permᴰ l []) (sym (cleared j c)) Permᴰ.nil;
  }
    where
      cleared : (j : ℕ) (c : Center F) → listeners_of j (clear_all c) ≡ []
      cleared j c = unfold clear_all listeners_of lookup in refl

      cleared-IsValid : (c : Center F) → IsValid (clear_all c)
      cleared-IsValid c =
          unfold clear_all lookup in
          record {
            distinct = tt;
            below = λ e d q. cc;
            apart = λ e e' d q r. cc;
            used = λ e d q. cc;
          }

  run_ops-Shows :
      (os : List (Op F)) (s : View F) (c : Center F)
      → Shows s c
      → Shows (view_ops os s) (run_ops place os c)
  run_ops-Shows [] s c v = v
  run_ops-Shows (o ∷ os) s c v = run_ops-Shows os _ _ (run_op-Shows o s c v)

  fresh-Shows : Shows {F = F} (λ j. []) fresh
  unfolding lookup listeners_of
  fresh-Shows = record {
    valid = record {
      distinct = tt;
      below = λ e d q. cc;
      apart = λ e e' d q r. cc;
      used = λ e d q. cc;
    };
    shown = λ j. Permᴰ.nil;
  }

  -- After any calls of addListener, delListener and clearAll on a new centre, one at a time, each
  -- event has exactly the listeners that the calls for this event left, each as often, in whatever
  -- order the multimap keeps them; no two events share a dispatcher, and no dispatcher without
  -- listeners is kept.
  pub run_ops_refine : (os : List (Op F)) → Shows (view_ops os (λ j. [])) (run_ops place os fresh)
  run_ops_refine os = run_ops-Shows os (λ j. []) fresh fresh-Shows

  del_dispatcher-gone :
      (event d : ℕ) (c : Center F)
      → IsDistinct c.map_listener
      → lookup event c.map_listener ≡ some d
      → listeners_of event (del_dispatcher event d c) ≡ []
  unfolding del_dispatcher
  del_dispatcher-gone event d c v e =
      let same : (d == d) ≡ true = ground arith in
      rw (del_dispatcher, e, same)
        (listeners_of-none event (record c { map_listener = erase event c.map_listener })
          (lookup-erase_same event c.map_listener v))

  add_listener-map :
      (event tag d : ℕ) (l : Listener F) (c : Center F)
      → lookup event c.map_listener ≡ some d
      → (add_listener place tag event l c).map_listener ≡ c.map_listener
  unfolding add_listener get_dispatcher dispatcher_add find_dispatcher create_dispatcher
  add_listener-map event tag d l c e = rw (add_listener, get_dispatcher, find_dispatcher, e) refl

  -- If delListener empties a dispatcher, and another thread adds a listener to the event before
  -- the entry is erased, that listener is lost: the event has none behind it, while the same two
  -- calls one after the other, in either order, leave it if its tag is another one.
  pub add_listener_lost :
      (event tag tag' d : ℕ) (l : Listener F) (c : Center F)
      → IsValid c
      → find_dispatcher event c ≡ some d
      → (dispatcher_del d tag c).0 ≡ true
      → tag' ≢ tag
      → (listeners_of event (del_listener_raced tag event d (add_listener place tag' event l) c)
          ≡ [])
        × (listeners_of event (add_listener place tag' event l (del_listener tag event c))
            ≡ (tag', l) ∷ [])
        × (listeners_of event (del_listener tag event (add_listener place tag' event l c))
            ≡ (tag', l) ∷ [])
  unfolding find_dispatcher dispatcher_del
  add_listener_lost event tag tag' d l c v e h ne =
      let c' = (dispatcher_del d tag c).1 in
      let map_is = add_listener-map event tag' d l c' e in
      let deleted = del_listener-Holds tag event c v in
      let none_left : erase_all tag (listeners_of event c) ≡ [] =
        rw (listeners_of-some event d c e) (empty-nil (erase_all tag (c.heap d)) h) in
      let first : erase_all tag ((tag', l) ∷ listeners_of event c) ≡ (tag', l) ∷ [] =
        let other : (tag' == tag) ≡ false = ground arith in
        erase_all-cons tag (tag', l) (listeners_of event c)
        ∙ rw other (ap (λ r. (tag', l) ∷ r) none_left) in
      let added = add_listener-Holds place placed tag' event l c v in
      (
        rw h (
            del_dispatcher-gone event d (add_listener place tag' event l c')
              (subst IsDistinct (sym map_is) v.distinct) (ap (lookup event) map_is ∙ e)),
        (add_listener-Holds place placed tag' event l (del_listener tag event c) deleted.valid).here
            ∙ ap (place (tag', l)) (deleted.here ∙ none_left)
            ∙ place_first place placed (tag', l),
        (del_listener-Holds tag event (add_listener place tag' event l c) added.valid).here
            ∙ ap (erase_all tag) added.here
            ∙ same_one (erase_all-same tag (placed (tag', l) (listeners_of event c))) first,
      )
