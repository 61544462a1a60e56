-- ===== src/Poller/Pipe/Callback.antt =====
-- What the callback of a Pipe of src/Poller/Pipe.cpp is given.
use ffzkit.Base.{
  Bytes, ℕ, zero, suc, ◌+◌, ◌-◌, ◌≤◌, ◌≡◌, refl, sym, ap, ◌∙◌, ◌⊎◌, inl, inr, List, [], ◌∷◌, ◌++◌,
  Option, none, some, Bool-cases, Option-cases, length, drop, map, replicate, some-inj, arith,
}
use native.Mathlib.Decide.{dec_le}
use ffzkit.Network.Sockets.{ioctl_fionread, read, Log, System, Net, call}
use ffzkit.Network.Sockets.Dns.{is_eintr}
use ffzkit.Poller.Pipe.{read_loop, available, empty_buf, overwrite, given, on_read}

drop_inside : (n k : ℕ) → n ≤ k → drop n (empty_buf k) ≡ replicate (k - n) none ++ (some 0 ∷ [])
unfolding empty_buf
drop_inside zero k h = ap (λ j. replicate j none ++ (some 0 ∷ [])) (omega arith)
drop_inside (suc n) zero h = absurd (omega arith)
drop_inside (suc n) (suc k) h =
    drop_inside n k (omega arith) ∙ ap (λ j. replicate j none ++ (some 0 ∷ [])) (omega arith)

drop_all : (k : ℕ) → drop (suc k) (empty_buf k) ≡ []
unfolding empty_buf
drop_all zero = refl
drop_all (suc k) = drop_all k

module _ (sys : System) where
  -- What FIONREAD has said when a callback is run.
  abbrev pub announced : ℕ → Net → ℕ
  announced fd s = let r = call sys (ioctl_fionread fd) s in available r.0 (sys.nread r.1.log)

  given-overwrite :
      (nread n : ℕ) (buf : List (Option ℕ)) (r : Option (Option ℕ)) (s : Net)
      → (given sys nread r s).0 ≡ some (some n, buf)
      → buf ≡ overwrite (sys.received (given sys nread r s).1.log) (empty_buf nread)
  unfolding given
  given-overwrite nread n buf none s e = cc
  given-overwrite nread n buf (some none) s e = cc
  given-overwrite nread n buf (some (some k)) s e = sym (ap (λ x. x.1) (some-inj e))

  -- The last call of the loop is the one that was not interrupted.
  read_loop-last :
      (fuel fd m n : ℕ) (s : Net)
      → (read_loop sys fuel fd m s).0 ≡ some (some n)
      → (h : Log) × ((read_loop sys fuel fd m s).1.log ≡ (read fd m, some n) ∷ h)
        × (sys.answer h (read fd m) ≡ some n)
  unfolding read_loop call
  read_loop-last zero fd m n s e = cc
  read_loop-last (suc fuel) fd m n s e =
      let next = (call sys (read fd m) s).1 in
      elim (Option-cases (sys.answer s.log (read fd m))) [
        | inr (k, a) ↦
            let f = rw (read_loop, a) at e in
            let got : sys.answer s.log (read fd m) ≡ some n = some-inj f in
            rw (read_loop, a) (s.log, ap (λ x. (read fd m, x) ∷ s.log) got, got)
        | inl a ↦ elim (Bool-cases (is_eintr (sys.errno next.log))) [
          | inl again ↦
              let f = rw (read_loop, a, again) at e in
              rw (read_loop, a, again) (read_loop-last fuel fd m n next f)
          | inr ended ↦ let f = rw (read_loop, a, ended) at e in cc
        ]
      ]

  given-log : (nread : ℕ) (r : Option (Option ℕ)) (s : Net) → (given sys nread r s).1.log ≡ s.log
  unfolding given
  given-log nread none s = refl
  given-log nread (some none) s = refl
  given-log nread (some (some n)) s = refl

  given-some :
      (nread n : ℕ) (buf : List (Option ℕ)) (r : Option (Option ℕ)) (s : Net)
      → (given sys nread r s).0 ≡ some (some n, buf)
      → r ≡ some (some n)
  unfolding given
  given-some nread n buf none s e = cc
  given-some nread n buf (some none) s e = cc
  given-some nread n buf (some (some k)) s e = ap (λ x. some x.0) (some-inj e)

  -- What the callback is given for `n` bytes, of which `k` were announced.
  abbrev pub IsGiven : ℕ → ℕ → Bytes → List (Option ℕ) → Type 0
  IsGiven k n bytes buf =
      ((n ≤ k) × (buf ≡ map some bytes ++ (replicate (k - n) none ++ (some 0 ∷ []))))
      ⊎ ((n ≡ k + 1) × (buf ≡ map some bytes ++ []))

  overwrite-IsGiven :
      (k n : ℕ) (bytes : Bytes) (buf : List (Option ℕ))
      → buf ≡ overwrite bytes (empty_buf k)
      → length bytes ≡ n
      → n ≤ k + 1
      → IsGiven k n bytes buf
  unfolding overwrite
  overwrite-IsGiven k n bytes buf over len le = elim (dec_le n k) [
    | yes h ↦ inl (
      h,
      over ∙ ap (λ x. map some bytes ++ x) (ap (λ j. drop j (empty_buf k)) len ∙ drop_inside n k h),
    )
    | no h ↦
        let last : n ≡ suc k = omega arith in
        inr (
          omega arith,
          over
              ∙ ap (λ x. map some bytes ++ x)
                  (ap (λ j. drop j (empty_buf k)) (len ∙ last) ∙ drop_all k),
        )
  ]

  -- If read gives as many bytes as it says, and no more than it was asked for, a callback that is run
  -- with `n` bytes was preceded by a call of read for one byte more than were announced. It gets the
  -- bytes of this call, then bytes that nobody has written, and the 0 at the end, where they are no
  -- more than were announced; but where one more has come in since, it gets all of them and no 0.
  pub on_read_lem :
      (fuel fd n : ℕ) (s : Net) (buf : List (Option ℕ))
      → ((h : Log) (m k : ℕ) → sys.answer h (read fd m) ≡ some k → k ≤ m)
      → (on_read sys fuel fd s).0 ≡ some (some n, buf)
      → length (sys.received (on_read sys fuel fd s).1.log) ≡ n
      → ((h : Log) × ((on_read sys fuel fd s).1.log ≡ (read fd (announced fd s + 1), some n) ∷ h))
        × IsGiven (announced fd s) n (sys.received (on_read sys fuel fd s).1.log) buf
  unfolding on_read
  on_read_lem fuel fd n s buf bounded e len =
      let r = call sys (ioctl_fionread fd) s in
      let k = announced fd s in
      let got = read_loop sys fuel fd (k + 1) r.1 in
      let (h, last, a) = read_loop-last fuel fd (k + 1) n r.1 (given-some k n buf got.0 got.1 e) in
      (
        (h, given-log k got.0 got.1 ∙ last),
        overwrite-IsGiven k n (sys.received (on_read sys fuel fd s).1.log) buf
            (given-overwrite k n buf got.0 got.1 e) len (bounded h (k + 1) n a),
      )
