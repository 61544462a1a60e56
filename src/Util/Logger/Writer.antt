-- ===== src/Util/Logger/Writer.antt =====
-- AsyncLogWriter of src/Util/logger.cpp: threads that write, the thread that flushes, and the
-- destructor. Each step is what one thread does under one lock, or one call of the semaphore.
use mathlib.Core.List.{append_assoc, append-nil}
use native.Mathlib.Decide.{dec_lt}
use ffzkit.Base.{
  ℕ, ◌+◌, ◌-◌, ◌≤◌, ◌<◌, ◌≡◌, ◌⊎◌, inl, inr, refl, sym, ap, ◌∙◌, Bool, true, false, List, [], ◌∷◌,
  ◌++◌, some, length, length-append, arith,
}
use ffzkit.Thread.TaskQueue.{post, wait}
use ffzkit.Thread.TaskQueue.Accounting.{wait_lem, wait_pos}

-- Where the thread of the writer is in `run`.
pub data Place : Type 0 where
  at_test at_wait at_swap at_writes ended : Place

pub record AsyncWriter {ℓ} (C : Type ℓ) : Type ℓ where
  pub pending : List C
  -- The local list of flushAll.
  pub flushing : List C
  pub count : ℕ
  pub place : Place
  pub exit_flag : Bool
  -- Threads between the two halves of `write`, and a destructor in front of its `post`.
  pub posting : ℕ
  -- The logs of the calls of `write`, and those that writeChannels was given.
  pub written : List C
  pub delivered : List C

-- Behind the test of the loop.
abbrev pub tested : Bool → Place
tested true = ended
tested false = at_wait

-- Where the thread waits, or will, there is a token for each log that it has not taken.
abbrev due : Place → Bool → ℕ
due at_wait true = 1
due at_swap true = 0
due at_test true = 0
due at_writes true = 0
due ended true = 0
due place false = 0

abbrev taken : Place → ℕ
taken at_swap = 1
taken at_test = 0
taken at_wait = 0
taken at_writes = 0
taken ended = 0

module _ {ℓ} {C : Type ℓ} where
  abbrev pub fresh : AsyncWriter C
  fresh = record {
    pending = [];
    flushing = [];
    count = 0;
    place = at_test;
    exit_flag = false;
    posting = 0;
    written = [];
    delivered = [];
  }

  pub data Step (w : AsyncWriter C) : AsyncWriter C → Type ℓ where
    writes :
        (c : C)
        → w.exit_flag ≡ false
        → Step w (record w {
          pending = w.pending ++ c ∷ [];
          written = w.written ++ c ∷ [];
          posting = w.posting + 1;
        })
    posts : 0 < w.posting → Step w (record w { count = post w.count 1; posting = w.posting - 1 })
    tests : w.place ≡ at_test → Step w (record w { place = tested w.exit_flag })
    passes :
        {count : ℕ}
        → w.place ≡ at_wait
        → wait w.count ≡ some count
        → Step w (record w { count = count; place = at_swap })
    swaps :
        w.place ≡ at_swap
        → Step w (record w { flushing = w.pending; pending = []; place = at_writes })
    delivers :
        (c : C) (cs : List C)
        → w.place ≡ at_writes
        → w.flushing ≡ c ∷ cs
        → Step w (record w { flushing = cs; delivered = w.delivered ++ c ∷ [] })
    flushed : w.place ≡ at_writes → w.flushing ≡ [] → Step w (record w { place = at_test })
    -- The destructor; no thread is inside `write` any more.
    exits :
        w.exit_flag ≡ false → w.posting ≡ 0 → Step w (record w { exit_flag = true; posting = 1 })

  pub data Reach : AsyncWriter C → Type ℓ where
    here : Reach fresh
    next : {w w' : AsyncWriter C} → Reach w → Step w w' → Reach w'

  -- The end of the destructor, behind the `join`: the last flushAll.
  pub destroyed : AsyncWriter C → List C
  destroyed w = w.delivered ++ w.pending

  abbrev InOrder : AsyncWriter C → Type ℓ
  InOrder w = w.written ≡ w.delivered ++ (w.flushing ++ w.pending)

  abbrev EmptyLocal : AsyncWriter C → Type ℓ
  EmptyLocal w = (w.place ≡ at_writes) ⊎ (w.flushing ≡ [])

  record HasTokens (w : AsyncWriter C) : Type 0 where
    tokens : length w.pending + due w.place w.exit_flag ≤ w.count + w.posting + taken w.place
    at_end : w.place ≡ ended → w.exit_flag ≡ true

  Step-EmptyLocal : {w w' : AsyncWriter C} → Step w w' → EmptyLocal w → EmptyLocal w'
  Step-EmptyLocal (writes c e) k = k
  Step-EmptyLocal (posts h) k = k
  Step-EmptyLocal (tests p) (inl q) = absurd (cc)
  Step-EmptyLocal (tests p) (inr q) = inr q
  Step-EmptyLocal (passes p e) (inl q) = absurd (cc)
  Step-EmptyLocal (passes p e) (inr q) = inr q
  Step-EmptyLocal (swaps p) k = inl refl
  Step-EmptyLocal (delivers c cs p e) k = inl p
  Step-EmptyLocal (flushed p e) k = inr e
  Step-EmptyLocal (exits e p) k = k

  at_swap_empty : (w : AsyncWriter C) → w.place ≡ at_swap → EmptyLocal w → w.flushing ≡ []
  at_swap_empty w p (inl q) = absurd (cc)
  at_swap_empty w p (inr q) = q

  Step-InOrder : {w w' : AsyncWriter C} → Step w w' → EmptyLocal w → InOrder w → InOrder w'
  Step-InOrder {w} (writes c e) l k =
      ap (λ x. x ++ c ∷ []) k
      ∙ append_assoc w.delivered (w.flushing ++ w.pending) (c ∷ [])
      ∙ ap (λ x. w.delivered ++ x) (append_assoc w.flushing w.pending (c ∷ []))
  Step-InOrder (posts h) l k = k
  Step-InOrder (tests p) l k = k
  Step-InOrder (passes p e) l k = k
  Step-InOrder {w} (swaps p) l k =
      k
      ∙ ap (λ x. w.delivered ++ (x ++ w.pending)) (at_swap_empty w p l)
      ∙ ap (λ x. w.delivered ++ x) (sym (append-nil w.pending))
  Step-InOrder {w} (delivers c cs p e) l k =
      k
      ∙ ap (λ x. w.delivered ++ (x ++ w.pending)) e
      ∙ sym (append_assoc w.delivered (c ∷ []) (cs ++ w.pending))
  Step-InOrder (flushed p e) l k = k
  Step-InOrder (exits e p) l k = k

  Step-HasTokens : {w w' : AsyncWriter C} → Step w w' → HasTokens w → HasTokens w'
  unfolding post
  Step-HasTokens {w} (writes c e) k =
      ground (arith, k.tokens, k.at_end, length-append w.pending (c ∷ []))
  Step-HasTokens (posts h) k = ground (arith, k.tokens, k.at_end)
  Step-HasTokens (tests p) k = ground (arith, k.tokens, k.at_end)
  Step-HasTokens {w} (passes p e) k = ground (arith, k.tokens, k.at_end, wait_lem w.count e)
  Step-HasTokens (swaps p) k = ground (arith, k.tokens, k.at_end)
  Step-HasTokens (delivers c cs p e) k = ground (arith, k.tokens, k.at_end)
  Step-HasTokens (flushed p e) k = ground (arith, k.tokens, k.at_end)
  Step-HasTokens (exits e p) k = ground (arith, k.tokens, k.at_end)

  Reach-kept : {w : AsyncWriter C} → Reach w → EmptyLocal w × InOrder w × HasTokens w
  Reach-kept here = (inr refl, refl, record { tokens = omega arith; at_end = λ e. absurd (cc) })
  Reach-kept (next r st) =
      let (l, o, t) = Reach-kept r in
      (Step-EmptyLocal st l, Step-InOrder st l o, Step-HasTokens st t)

  -- When the thread has ended and the destructor has flushed once more, the logs that were written
  -- have been handed to writeChannels, each once and in the order in which they were written.
  pub Reach-all_delivered :
      {w : AsyncWriter C} → Reach w → w.place ≡ ended → destroyed w ≡ w.written
  unfolding destroyed
  Reach-all_delivered {w} r e = let (l, o, t) = Reach-kept r in ended_empty l ∙ sym o
    where
      ended_empty :
          EmptyLocal w → w.delivered ++ w.pending ≡ w.delivered ++ (w.flushing ++ w.pending)
      ended_empty (inl q) = absurd (cc)
      ended_empty (inr q) = ap (λ x. w.delivered ++ (x ++ w.pending)) (sym q)

  -- The thread of the writer never waits for ever: while a log is pending, or the destructor has
  -- been called and the thread has not ended, the thread can go on, or a call of `post` is about to
  -- be made.
  pub Reach-writer_goes_on :
      {w : AsyncWriter C}
      → Reach w
      → (0 < length w.pending) ⊎ (w.exit_flag ≡ true)
      → w.place ≡ at_wait
      → ((n : ℕ) × (wait w.count ≡ some n)) ⊎ (0 < w.posting)
  Reach-writer_goes_on {w} r h p =
      let (l, o, t) = Reach-kept r in
      elim (dec_lt 0 w.count) [
        | yes c ↦ inl (wait_pos w.count c)
        | no c ↦ inr (ground (arith, t.tokens))
      ]
