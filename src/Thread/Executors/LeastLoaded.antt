-- ===== src/Thread/Executors/LeastLoaded.antt =====
-- The choice of `getExecutor`.
use ffzkit.Base.{
  ℕ, zero, suc, ◌+◌, ◌-◌, ◌≤◌, ◌<◌, ◌≡◌, refl, ◌∙◌, ◌⊎◌, inl, inr, false, List, [], ◌∷◌, Option,
  some, ltb, ◌==◌, if◌then◌else◌, length, arith, Bool-cases, Option-cases,
}
use ffzkit.Thread.Executors.{Getter, at, next_pos, Best, improve, visit, start_pos, get_executor}

-- The position after `i` steps round the vector.
abbrev pub advance : ℕ → ℕ → ℕ → ℕ
advance size zero pos = pos
advance size (suc i) pos = advance size i (next_pos size pos)

advance_lem :
    (size i pos : ℕ)
    → pos < size
    → i ≤ size
    → advance size i pos ≡ (if ltb (pos + i) size then pos + i else pos + i - size)
advance_lem size zero pos h k = ground arith
advance_lem size (suc i) pos h k = ground (arith, advance_lem size i (next_pos size pos))

-- Every position is met in at most `size` steps.
advance_covers :
    (size pos j : ℕ) → pos < size → j < size → (i : ℕ) × (i < size) × (advance size (suc i) pos ≡ j)
advance_covers size pos j h k = elim (Bool-cases (ltb pos j)) [
  | inl e ↦ (
    j - pos - 1,
    ground arith,
    advance_lem size (suc (j - pos - 1)) pos h (ground arith) ∙ ground arith,
  )
  | inr e ↦ (
    size + j - pos - 1,
    ground arith,
    advance_lem size (suc (size + j - pos - 1)) pos h (ground arith) ∙ ground arith,
  )
]

module _ {ℓ} {E : Type ℓ} (load : E → ℕ) (threads : List (Option E)) where
  -- What the loop keeps of the best executor so far.
  pub record IsBest (b : Best E) : Type ℓ where
    pub load_is : b.min_load ≡ load b.executor
    pub index : ℕ
    pub listed : at threads index ≡ some b.executor
    pub in_range : b.pos < length threads

  abbrev run : ℕ → ℕ → Best E → Best E
  run = visit (λ _. load) threads

  improve-IsBest :
      (b : Best E) (pos : ℕ) (x : E)
      → IsBest b
      → pos < length threads
      → at threads pos ≡ some x
      → IsBest (improve pos x (load x) b)
  unfolding improve
  improve-IsBest b pos x v h e = elim (Bool-cases (ltb (load x) b.min_load)) [
    | inl p ↦ rw p (record { load_is = refl; index = pos; listed = e; in_range = h })
    | inr p ↦
        rw p (record { load_is = v.load_is; index = v.index; listed = v.listed; in_range = h })
  ]

  step-IsBest :
      (b : Best E) → IsBest b → IsBest (record b { pos = next_pos (length threads) b.pos })
  step-IsBest b v = record {
    load_is = v.load_is;
    index = v.index;
    listed = v.listed;
    in_range = ground (arith, v.in_range);
  }

  improve-le :
      (b : Best E) (pos : ℕ) (x : E)
      → ((improve pos x (load x) b).min_load ≤ b.min_load)
        × ((improve pos x (load x) b).min_load ≤ load x)
  unfolding improve
  improve-le b pos x = ground arith

  improve-pos : (b : Best E) (pos : ℕ) (x : E) → (improve pos x (load x) b).pos ≡ pos
  unfolding improve
  improve-pos b pos x = ground arith

  -- One round of the loop: the load does not grow, and is no more than that of the executor met.
  record Round (n k : ℕ) (b b' : Best E) : Type ℓ where
    best : IsBest b'
    falls : b'.min_load ≤ b.min_load
    pos_is : b'.pos ≡ next_pos (length threads) b.pos
    beats : (x : E) → at threads (next_pos (length threads) b.pos) ≡ some x → b'.min_load ≤ load x
    goes_on : (run (suc n) k b ≡ run n (suc k) b') ⊎ ((b'.min_load ≡ 0) × (run (suc n) k b ≡ b'))

  round : (n k : ℕ) (b : Best E) → IsBest b → (b' : Best E) × Round n k b b'
  unfolding visit
  round n k b v = elim (Option-cases (at threads (next_pos (length threads) b.pos))) [
    | inl e ↦ (
      record b { pos = next_pos (length threads) b.pos },
      record {
        best = step-IsBest b v;
        falls = omega arith;
        pos_is = refl;
        beats = λ x p. ground arith;
        goes_on = inl (rw (e, visit));
      },
    )
    | inr (x, e) ↦ (
      improve (next_pos (length threads) b.pos) x (load x) b,
      record {
        best = improve-IsBest b _ x v (step-IsBest b v).in_range e;
        falls = (improve-le b _ x).0;
        pos_is = improve-pos b _ x;
        beats = λ y p. ground (arith, improve-le b (next_pos (length threads) b.pos) x);
        goes_on =
            elim (Bool-cases
              ((improve (next_pos (length threads) b.pos) x (load x) b).min_load == 0)) [
                | inl z ↦ inr (ground arith, rw (e, visit) (rw z))
                | inr z ↦ inl (rw (e, visit) (rw z))
              ];
      },
    )
  ]

  record Least (n : ℕ) (b r : Best E) : Type ℓ where
    best : IsBest r
    falls : r.min_load ≤ b.min_load
    beats :
        (i : ℕ) (x : E)
        → i < n
        → at threads (advance (length threads) (suc i) b.pos) ≡ some x
        → r.min_load ≤ load x

  run-Least : (n k : ℕ) (b : Best E) → IsBest b → Least n b (run n k b)
  run-Least zero k b v =
      unfold visit in record { best = v; falls = omega arith; beats = λ i x h e. elim h [ ] }
  run-Least (suc n) k b v =
      let (b', r) = round n k b v in
      elim r.goes_on [
        | inr (z, e) ↦
            rw e (record { best = r.best; falls = r.falls; beats = λ i x h p. omega arith })
        | inl e ↦
            let l = run-Least n (suc k) b' r.best in
            rw e (record {
              best = l.best;
              falls = omega (arith, l.falls, r.falls);
              beats = elim [
                | zero ↦ λ x h p. omega (arith, l.falls, r.beats x p)
                | suc i ↦ λ x h p. l.beats i x (omega arith) (rw r.pos_is p)
              ];
            })
      ]

at-lt {ℓ} : {E : Type ℓ} (xs : List (Option E)) (i : ℕ) {x : E} → at xs i ≡ some x → i < length xs
at-lt [] i e = cc
at-lt (x ∷ xs) zero e = omega arith
at-lt (x ∷ xs) (suc i) e = omega (arith, at-lt xs i e)

-- What `getExecutor` promises: one of the executors, at a load that none undercuts, and a
-- position in range from which the next search goes on.
pub record Chosen {ℓ} {E : Type ℓ} (load : E → ℕ) (g : Getter E) (e : E) (g' : Getter E)
    : Type ℓ where
  pub index : ℕ
  pub listed : at g.threads index ≡ some e
  pub least : (i : ℕ) (x : E) → at g.threads i ≡ some x → load e ≤ load x
  pub in_range : g'.thread_pos < length g'.threads
  pub same_threads : g'.threads ≡ g.threads

-- If the loads do not change during the call, and the pointer at which the search starts is not
-- null, `getExecutor` returns one of the executors, and no executor has a smaller load.
pub get_executor-Chosen {ℓ} :
    {E : Type ℓ} (load : E → ℕ) (g : Getter E) {first : E}
    → at g.threads (start_pos g) ≡ some first
    → (e : E) × (g' : Getter E) × (get_executor (λ _. load) g ≡ some (some e, g'))
      × Chosen load g e g'
unfolding get_executor
get_executor-Chosen {E} load g {first} h =
    let size = length g.threads in
    let lt = at-lt g.threads (start_pos g) h in
    let ne : (length g.threads == 0) ≡ false = ground arith in
    let b : Best E = record { pos = start_pos g; executor = first; min_load = load first } in
    let l =
      run-Least load g.threads size 1 b
        (record { load_is = refl; index = start_pos g; listed = h; in_range = lt }) in
    let r = visit (λ _. load) g.threads size 1 b in
    (
      r.executor,
      record g { thread_pos = r.pos },
      rw (ne, h),
      record {
        index = l.best.index;
        listed = l.best.listed;
        least = λ i x e.
            let (k, near, met) = advance_covers size (start_pos g) i lt (at-lt g.threads i e) in
            omega (arith, l.best.load_is, l.beats k x near (rw met e));
        in_range = l.best.in_range;
        same_threads = refl;
      },
    )
