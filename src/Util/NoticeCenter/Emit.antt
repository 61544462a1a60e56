-- ===== src/Util/NoticeCenter/Emit.antt =====
-- Which listeners emitEvent of src/Util/NoticeCenter.h calls.
use mathlib.Core.List.{append-nil}
use ffzkit.Base.{
  ℕ, suc, ◌+◌, ◌≡◌, ◌≢◌, refl, sym, ap, ◌∙◌, inl, inr, Bool, true, [], ◌∷◌, ◌++◌, ◌==◌,
  if◌then◌else◌, length, lookup, arith, Option-cases,
}
use ffzkit.Util.NoticeCenter.Listeners.{listeners_of, listeners_of-none, listeners_of-some}
use ffzkit.Util.NoticeCenter.{
  Listener, Listeners, Center, find_dispatcher, Ending, returns, interrupts, throws, Emitted,
  emitted, thrown, undefined, emit_loop, emit_event,
}

module _ {ℓ κ} {F : Type ℓ} {S : Type κ} (call : F → S → Ending × S) (type : ℕ) where
  -- The state behind the calls of all listeners, in order.
  abbrev pub call_all : Listeners F → S → S
  call_all [] s = s
  call_all ((tag, l) ∷ ls) s = call_all ls (call l.fn s).1

  -- All listeners take the arguments, and return when they are called in order.
  abbrev pub AllReturn : Listeners F → S → Type 0
  AllReturn [] s = Unit
  AllReturn ((tag, l) ∷ ls) s =
      (l.type ≡ type) × ((call l.fn s).0 ≡ returns) × AllReturn ls (call l.fn s).1

  emit_loop-append :
      (safe : Bool) (ls rest : Listeners F) (ret : ℕ) (s : S)
      → AllReturn ls s
      → emit_loop call safe type (ls ++ rest) ret s
        ≡ emit_loop call safe type rest (ret + length ls) (call_all ls s)
  unfolding emit_loop
  emit_loop-append safe [] rest ret s h = ap (λ n. emit_loop call safe type rest n s) (omega arith)
  emit_loop-append safe ((tag, l) ∷ ls) rest ret s h =
      let same : (l.type == type) ≡ true = ground (arith, h.0) in
      let later = emit_loop-append safe ls rest (suc ret) (call l.fn s).1 h.2 in
      let counts : suc ret + length ls ≡ ret + suc (length ls) = omega arith in
      rw (emit_loop, same, h.1)
        (later ∙ ap (λ n. emit_loop call safe type rest n (call_all ls (call l.fn s).1)) counts)

  emit_loop-start :
      (safe : Bool) (ls rest : Listeners F) (s : S)
      → AllReturn ls s
      → emit_loop call safe type (ls ++ rest) 0 s
        ≡ emit_loop call safe type rest (length ls) (call_all ls s)
  emit_loop-start safe ls rest s h =
      let counts : 0 + length ls ≡ length ls = omega arith in
      emit_loop-append safe ls rest 0 s h
      ∙ ap (λ n. emit_loop call safe type rest n (call_all ls s)) counts

  -- What the emission of an event comes to at a listener that does not just return.
  abbrev pub stop_at : Bool → Listener F → ℕ → S → Emitted S
  stop_at safe l n s =
      if l.type == type
      then elim (call l.fn s).0 [
        | returns ↦ undefined
        | interrupts ↦ emitted (suc n) (call l.fn s).1
        | throws ↦ thrown (call l.fn s).1
      ]
      else if safe
      then thrown s
      else undefined

  emit_loop-stop :
      (safe : Bool) (tag : ℕ) (l : Listener F) (rest : Listeners F) (n : ℕ) (s : S)
      → ((l.type ≡ type) → (call l.fn s).0 ≢ returns)
      → emit_loop call safe type ((tag, l) ∷ rest) n s ≡ stop_at safe l n s
  unfolding emit_loop
  emit_loop-stop safe tag l rest n s h = ground arith

  emit_event-loop :
      (safe : Bool) (event : ℕ) (c : Center F) (s : S)
      → emit_event call safe type event c s ≡ emit_loop call safe type (listeners_of event c) 0 s
  unfolding emit_event find_dispatcher emit_loop
  emit_event-loop safe event c s = elim (Option-cases (lookup event c.map_listener)) [
    | inl e ↦ rw (listeners_of-none event c e, emit_event, find_dispatcher, e) refl
    | inr (d, e) ↦ rw (listeners_of-some event d c e, emit_event, find_dispatcher, e) refl
  ]

  -- If all listeners of an event take the arguments and return, emitEvent calls them all, each once
  -- and in the order in which the map keeps them, and returns their number; for an event without
  -- listeners this is 0.
  pub emit_event_all :
      (safe : Bool) (event : ℕ) (c : Center F) (s : S)
      → AllReturn (listeners_of event c) s
      → emit_event call safe type event c s
        ≡ emitted (length (listeners_of event c)) (call_all (listeners_of event c) s)
  unfolding emit_loop
  emit_event_all safe event c s h =
      let ls = listeners_of event c in
      emit_event-loop safe event c s
      ∙ ap (λ x. emit_loop call safe type x 0 s) (sym (append-nil ls))
      ∙ emit_loop-start safe ls [] s h

  -- Else it calls the listeners up to the first that does not return. An interruption is
  -- counted and ends it; another exception leaves it; a listener of another type is refused with
  -- an exception if `safe`, and else called, which is undefined. No later listener is called.
  pub emit_event_stops :
      (safe : Bool) (event tag : ℕ) (before after : Listeners F) (l : Listener F) (c : Center F)
      (s : S)
      → listeners_of event c ≡ before ++ (tag, l) ∷ after
      → AllReturn before s
      → ((l.type ≡ type) → (call l.fn (call_all before s)).0 ≢ returns)
      → emit_event call safe type event c s ≡ stop_at safe l (length before) (call_all before s)
  emit_event_stops safe event tag before after l c s e h k =
      emit_event-loop safe event c s
      ∙ rw e (
          emit_loop-start safe before ((tag, l) ∷ after) s h
          ∙ emit_loop-stop safe tag l after (length before) (call_all before s) k)
