-- ===== src/Util/NoticeCenter/Tests.antt =====
-- Listeners are numbers, and the state is the list of those called, the last first. Listener 0
-- interrupts and listener 1 throws.
use mathlib.Core.List.Permᴰ
use ffzkit.Base.{ℕ, zero, suc, ◌≡◌, refl, true, false, List, [], ◌∷◌, ◌++◌, arith}
use ffzkit.Util.NoticeCenter.Listeners.{listeners_of, IsValid, fresh}
use ffzkit.Util.NoticeCenter.Refine.{
  Op, adds, dels, run_ops, view_ops, Shows, run_ops_refine, del_listener_raced, add_listener_lost,
}
use ffzkit.Util.NoticeCenter.{
  Place, IsPlacing, Listener, Center, find_dispatcher, dispatcher_del, add_listener, del_listener,
  Ending, returns, interrupts, throws, emitted, thrown, undefined, emit_event,
}

call : ℕ → List ℕ → Ending × List ℕ
call zero s = (interrupts, 0 ∷ s)
call (suc zero) s = (throws, 1 ∷ s)
call (suc (suc f)) s = (returns, suc (suc f) ∷ s)

abbrev listener : ℕ → Listener ℕ
listener f = record { type = 7; fn = f }

-- A multimap that keeps the order in which the listeners came.
abbrev at_end : Place ℕ
at_end x ls = ls ++ x ∷ []

at_end-IsPlacing : IsPlacing at_end
at_end-IsPlacing x [] = Permᴰ.refl (x ∷ [])
at_end-IsPlacing x (y ∷ ls) =
    Permᴰ.trans (Permᴰ.cons refl (at_end-IsPlacing x ls)) (Permᴰ.swap refl refl)

-- Event 3 has the listeners 5 and 6 of tag 1, and listener 0 of tag 2; event 4 has listener 1.
abbrev ops : List (Op ℕ)
ops =
    adds 1 3 (listener 5)
    ∷ adds 2 3 (listener 0)
    ∷ adds 1 3 (listener 6)
    ∷ adds 2 4 (listener 1)
    ∷ []

center : Center ℕ
center = run_ops at_end ops fresh

emits :
    (emit_event call true 7 3 center [] ≡ emitted 2 (0 ∷ 5 ∷ []))
    × (emit_event call true 7 4 center [] ≡ thrown (1 ∷ []))
    × (emit_event call true 8 3 center [] ≡ thrown [])
    × (emit_event call false 8 3 center [] ≡ undefined)
    × (emit_event call true 7 9 center [] ≡ emitted 0 [])
unfolding emit_event call center add_listener
emits = (refl, refl, refl, refl, refl)

run_ops_refine_example :
    Shows
      (view_ops (adds 1 3 (listener 5) ∷ dels 1 3 ∷ []) (λ j. []))
      (run_ops at_end (adds 1 3 (listener 5) ∷ dels 1 3 ∷ []) fresh)
run_ops_refine_example =
    run_ops_refine at_end at_end-IsPlacing (adds 1 3 (listener 5) ∷ dels 1 3 ∷ [])

one_listener-IsValid : IsValid (add_listener at_end 1 3 (listener 5) fresh)
one_listener-IsValid = (run_ops_refine at_end at_end-IsPlacing (adds 1 3 (listener 5) ∷ [])).valid

add_listener_lost_example :
    let c = add_listener at_end 1 3 (listener 5) fresh in
    (listeners_of 3 (del_listener_raced 1 3 0 (add_listener at_end 2 3 (listener 6)) c) ≡ [])
    × (listeners_of 3 (add_listener at_end 2 3 (listener 6) (del_listener 1 3 c))
        ≡ (2, listener 6) ∷ [])
    × (listeners_of 3 (del_listener 1 3 (add_listener at_end 2 3 (listener 6) c))
        ≡ (2, listener 6) ∷ [])
unfolding add_listener find_dispatcher dispatcher_del
add_listener_lost_example =
    add_listener_lost at_end at_end-IsPlacing 3 1 2 0 (listener 6)
      (add_listener at_end 1 3 (listener 5) fresh) one_listener-IsValid refl refl (λ e. omega arith)
