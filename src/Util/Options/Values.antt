-- ===== src/Util/Options/Values.antt =====
-- What operator() of OptionParser, src/Util/CMD.cpp, puts into `all_args`, and how it ends.
use ffzkit.Base.{
  ◌⊎◌, All, or_else, ℕ, ◌≡◌, refl, Bool, true, false, not, List, [], ◌∷◌, ◌++◌, Option, none, some,
  ◌==◌, if◌then◌else◌, lookup, emplace,
}
use ffzkit.Util.Options.{
  goes_on, stops, throws, Opt, run_cb, Parser, resolve, Parsed, completed, stopped, failed, helped,
  value_of, parse_loop, parse, LongOpt, long_options, short_options,
}

-- The default of a name, and the first value given for it.
abbrev pub default_of : ℕ → List (ℕ × Opt) → Option ℕ
default_of key [] = none
default_of key ((i, o) ∷ m) =
    or_else (if o.long_opt == key then o.default_value else none) (default_of key m)

abbrev pub named_by : ℕ → Option ℕ → Option Opt → Option ℕ
named_by key optarg none = none
named_by key optarg (some o) = if o.long_opt == key then some (value_of optarg) else none

abbrev pub given_of : Parser → ℕ → List (ℕ × Option ℕ) → Option ℕ
given_of p key [] = none
given_of p key ((i, optarg) ∷ found) =
    or_else (named_by key optarg (resolve p i)) (given_of p key found)

-- Every answer of getopt_long is an option whose callback goes on.
abbrev pub AllAccepted : Parser → List (ℕ × Option ℕ) → Type 0
AllAccepted p [] = Unit
AllAccepted p ((i, optarg) ∷ found) =
    ((o : Opt) × (resolve p i ≡ some o) × ((v : ℕ) → run_cb o v ≡ goes_on)) × AllAccepted p found

-- The values that the loop leaves.
abbrev pub put : Option ℕ → Option Opt → List (ℕ × ℕ) → List (ℕ × ℕ)
put optarg none args = args
put optarg (some o) args = emplace o.long_opt (value_of optarg) args

abbrev pub take_args : Parser → List (ℕ × Option ℕ) → List (ℕ × ℕ) → List (ℕ × ℕ)
take_args p [] args = args
take_args p ((i, optarg) ∷ found) args = take_args p found (put optarg (resolve p i) args)

parse_loop-append :
    (p : Parser) (found rest : List (ℕ × Option ℕ)) (args : List (ℕ × ℕ))
    → AllAccepted p found
    → parse_loop p (found ++ rest) args ≡ parse_loop p rest (take_args p found args)
unfolding parse_loop
parse_loop-append p [] rest args h = refl
parse_loop-append p ((i, optarg) ∷ found) rest args h =
    let ((o, e, k), later) = h in
    let kept = emplace o.long_opt (value_of optarg) args in
    rw (parse_loop, e, k (value_of (lookup o.long_opt kept)))
      (parse_loop-append p found rest kept later)

-- An option that must exist and has no value.
pub data IsMissing (out : List (ℕ × ℕ)) : List (ℕ × Opt) → Type 0 where
  this :
      {i : ℕ} {o : Opt} {m : List (ℕ × Opt)}
      → o.must_exist ≡ true
      → lookup o.long_opt out ≡ none
      → IsMissing out ((i, o) ∷ m)
  later : {x : ℕ × Opt} {m : List (ℕ × Opt)} → IsMissing out m → IsMissing out (x ∷ m)

-- An option has a value, if it must exist.
abbrev pub HasValue : List (ℕ × ℕ) → ℕ × Opt → Type 0
HasValue out (i, o) = (o.must_exist ≡ false) ⊎ (v : ℕ) × (lookup o.long_opt out ≡ some v)

-- Whether the help is asked for: no value at all, other options, and empty arguments are not allowed.
abbrev pub asks_help : Parser → List (ℕ × ℕ) → Bool
asks_help p [] = elim p.options [
  | [] ↦ false
  | _ ∷ more ↦ elim more [ [] ↦ false | _ ↦ not p.enable_empty_args ]
]
asks_help p (x ∷ out) = false

-- How the call ends with these values, if no callback ends it.
abbrev pub EndsAs : Parser → List (ℕ × ℕ) → Parsed → Type 0
EndsAs p out r =
    (IsMissing out p.options × (r ≡ failed out))
    ⊎ (All (HasValue out) p.options × (r ≡ (if asks_help p out then helped out else completed out)))

-- The first answer that is no option, or whose callback does not go on, ends the call: with an
-- exception, or with a plain return if the callback returned false. The values given so far are
-- in `all_args`, the last one included if it belongs to an option, and no default is.
pub parse_stops :
    (getopt_long : List LongOpt → List ℕ → List (ℕ × Option ℕ)) (p : Parser) (args : List (ℕ × ℕ))
    (before after : List (ℕ × Option ℕ)) (i : ℕ) (optarg : Option ℕ)
    → getopt_long (long_options p.options) (short_options p.options) ≡ before ++ (i, optarg) ∷ after
    → AllAccepted p before
    → let out = put optarg (resolve p i) (take_args p before args) in
      (resolve p i ≡ none → parse getopt_long p args ≡ failed out)
      × ((o : Opt)
          → resolve p i ≡ some o
          → ((v : ℕ) → run_cb o v ≡ stops)
          → parse getopt_long p args ≡ stopped out)
      × ((o : Opt)
          → resolve p i ≡ some o
          → ((v : ℕ) → run_cb o v ≡ throws)
          → parse getopt_long p args ≡ failed out)
unfolding parse parse_loop
parse_stops getopt_long p args before after i optarg e h =
    let start = parse_loop-append p before ((i, optarg) ∷ after) args h in
    let kept = λ (o : Opt). emplace o.long_opt (value_of optarg) (take_args p before args) in
    (
      (λ r. rw (parse, e, start, parse_loop, r) refl),
      (λ o r k.
          rw (parse, e, start, parse_loop, r, k (value_of (lookup o.long_opt (kept o)))) refl),
      λ o r k. rw (parse, e, start, parse_loop, r, k (value_of (lookup o.long_opt (kept o)))) refl,
    )
