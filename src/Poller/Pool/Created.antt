-- ===== src/Poller/Pool/Created.antt =====
-- A pool that was created has a poller for every caller.
use native.Mathlib.Decide.{dec_lt}
use ffzkit.Base.{
  ℕ, zero, suc, ◌+◌, ◌%◌, ◌<◌, ◌≡◌, inl, inr, refl, ◌∙◌, Bool, true, false, ◌&&◌, List, [], ◌∷◌,
  ◌++◌, Option, none, some, ltb, ◌==◌, if◌then◌else◌, length, length-append, some-inj, ap, sym,
  subst, ◌⊎◌, arith,
}
use ffzkit.Thread.Executors.{Getter, at, get_executor, start_pos}
use ffzkit.Thread.Executors.LeastLoaded.{Chosen, get_executor-Chosen}
use ffzkit.Poller.Pool.{poller_loop, add_poller, create_pool, get_poller}

module _ {ℓ} {E : Type ℓ} (make : ℕ → ℕ → E) (cpus : ℕ) where
  length-poller_loop :
      (n i : ℕ) (ts : List (Option E)) → length (poller_loop make cpus n i ts) ≡ length ts + n
  unfolding poller_loop
  length-poller_loop zero i ts = omega arith
  length-poller_loop (suc n) i ts = omega (
    arith,
    length-poller_loop n (i + 1) (ts ++ some (make i (i % cpus)) ∷ []),
    length-append ts (some (make i (i % cpus)) ∷ []),
  )

  at-append_here : (ts rest : List (Option E)) (x : Option E) → at (ts ++ x ∷ rest) (length ts) ≡ x
  at-append_here [] rest x = refl
  at-append_here (t ∷ ts) rest x = at-append_here ts rest x

  at-append_lt : (ts rest : List (Option E)) (k : ℕ) → k < length ts → at (ts ++ rest) k ≡ at ts k
  at-append_lt [] rest k h = elim h [ ]
  at-append_lt (t ∷ ts) rest zero h = refl
  at-append_lt (t ∷ ts) rest (suc k) h = at-append_lt ts rest k (omega arith)

  -- The poller at each place has the number of the place, and the CPUs go round.
  abbrev pub IsFilled : List (Option E) → Type ℓ
  IsFilled ts = (k : ℕ) → k < length ts → at ts k ≡ some (make k (k % cpus))

  IsFilled-snoc :
      (ts : List (Option E)) (i : ℕ)
      → length ts ≡ i
      → IsFilled ts
      → IsFilled (ts ++ some (make i (i % cpus)) ∷ [])
  IsFilled-snoc ts i e f k h = elim (dec_lt k (length ts)) [
    | yes l ↦ at-append_lt ts (some (make i (i % cpus)) ∷ []) k l ∙ f k l
    | no n ↦
        let q : k ≡ length ts = omega (arith, length-append ts (some (make i (i % cpus)) ∷ [])) in
        ap (at (ts ++ some (make i (i % cpus)) ∷ [])) q
        ∙ at-append_here ts [] (some (make i (i % cpus)))
        ∙ ap (λ m. some (make m (m % cpus))) (sym (q ∙ e))
  ]

  poller_loop-IsFilled :
      (n i : ℕ) (ts : List (Option E))
      → length ts ≡ i
      → IsFilled ts
      → IsFilled (poller_loop make cpus n i ts)
  unfolding poller_loop
  poller_loop-IsFilled zero i ts e f = f
  poller_loop-IsFilled (suc n) i ts e f =
      poller_loop-IsFilled n (i + 1) (ts ++ some (make i (i % cpus)) ∷ [])
        (omega (arith, length-append ts (some (make i (i % cpus)) ∷ []))) (IsFilled-snoc ts i e f)

  -- On a machine that says how many CPUs it has, the pool is created with as many pollers as were
  -- asked for, or one for each CPU where none was asked for, numbered from 0 and dealt out to the
  -- CPUs in turn.
  pub create_pool_lem :
      (pool_size : ℕ)
      → 0 < cpus
      → (g : Getter E) × (create_pool make cpus pool_size
          ≡ some ((if ltb 0 pool_size then pool_size else cpus), g))
        × (length g.threads ≡ (if ltb 0 pool_size then pool_size else cpus))
        × (g.thread_pos ≡ 0)
        × IsFilled g.threads
  unfolding create_pool add_poller
  create_pool_lem pool_size h =
      let count = if ltb 0 pool_size then pool_size else cpus in
      let some_cpus : (cpus == 0) ≡ false = ground arith in
      let safe : (ltb 0 count && cpus == 0) ≡ false = ground arith in
      (
        record { thread_pos = 0; threads = poller_loop make cpus count 0 [] },
        rw (create_pool, add_poller, safe) refl,
        omega (arith, length-poller_loop count 0 []),
        refl,
        poller_loop-IsFilled count 0 [] refl (λ k l. elim l [ ]),
      )

  ask :
      (load : E → ℕ) (g : Getter E)
      → 0 < length g.threads
      → IsFilled g.threads
      → (e : E) × (g' : Getter E) × (get_executor (λ _. load) g ≡ some (some e, g'))
        × Chosen load g e g'
  ask load g h f = get_executor-Chosen load g (f (start_pos g) (ground arith))

  -- The poller that the caller runs is preferred.
  abbrev pub IsPreferred : Bool → Bool → Option E → E → Type ℓ
  IsPreferred prefer flag current e = (current ≡ some e) × (prefer ≡ true) × (flag ≡ true)

  -- The caller runs no poller, does not ask for it, or the pool is set not to prefer it.
  abbrev pub HasNoWish : Bool → Bool → Option E → Type ℓ
  HasNoWish prefer flag current = (current ≡ none) ⊎ (prefer ≡ false) ⊎ (flag ≡ false)

  abbrev pub Answers : (E → ℕ) → Bool → Bool → Option E → Getter E → E → Getter E → Type ℓ
  Answers load prefer flag current g e g' =
      (IsPreferred prefer flag current e × (g' ≡ g))
      ⊎ (HasNoWish prefer flag current × Chosen load g e g')

  answer :
      (load : E → ℕ) (prefer flag : Bool) (current : Option E) (g : Getter E)
      → 0 < length g.threads
      → IsFilled g.threads
      → (e : E) × (g' : Getter E) × (get_poller (λ _. load) prefer flag current g
          ≡ some (some e, g'))
        × Answers load prefer flag current g e g'
  unfolding get_poller
  answer load prefer flag none g h f =
      let (e, g', q, c) = ask load g h f in (e, g', q, inr (inl refl, c))
  answer load true true (some poller) g h f = (poller, g, refl, inl ((refl, refl, refl), refl))
  answer load false flag (some poller) g h f =
      let (e, g', q, c) = ask load g h f in (e, g', q, inr (inr (inl refl), c))
  answer load true false (some poller) g h f =
      let (e, g', q, c) = ask load g h f in (e, g', q, inr (inr (inr refl), c))

  -- Such a pool never answers with a null pointer: a caller that runs a poller and asks for it gets
  -- that one, unless the pool is set not to, and any other gets a poller of the pool that no other has a smaller load than, if the
  -- loads do not change during the call.
  pub get_poller_present :
      (pool_size : ℕ) (load : E → ℕ) (prefer flag : Bool) (current : Option E) {n : ℕ}
      {created : Getter E} (g : Getter E)
      → 0 < cpus
      → create_pool make cpus pool_size ≡ some (n, created)
      → g.threads ≡ created.threads
      → (e : E) × (g' : Getter E) × (get_poller (λ _. load) prefer flag current g
          ≡ some (some e, g'))
        × Answers load prefer flag current g e g'
  get_poller_present pool_size load prefer flag current {created} g h made same =
      let (g0, made', len, pos, filled) = create_pool_lem pool_size h in
      let q : g0 ≡ created = ap (λ p. p.1) (some-inj (sym made' ∙ made)) in
      let r : g0.threads ≡ g.threads = ap (λ x. x.threads) q ∙ sym same in
      answer load prefer flag current g (subst (λ ts. 0 < length ts) r (ground arith))
        (subst IsFilled r filled)
