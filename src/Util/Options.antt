-- ===== src/Util/Options.antt =====
-- Option and OptionParser of src/Util/CMD.h and src/Util/CMD.cpp. Names and values of options are
-- numbers: the code tells them apart and hands them on. The text of the help is not modelled.
mod Tests
pub mod Indices
pub mod Values
use ffzkit.Base.{
  ℕ, suc, ◌+◌, Bool, true, false, not, ◌&&◌, List, [], ◌∷◌, ◌++◌, Option, none, some, ltb, ◌==◌,
  if◌then◌else◌, length, lookup, is_some, emplace, erase,
}

pub data ArgType : Type 0 where
  arg_none arg_required arg_optional : ArgType

-- How a callback ends: with true, with false, or with an exception.
pub data Verdict : Type 0 where
  goes_on stops throws : Verdict

-- `short_opt` is 0 for none.
pub record Opt : Type 0 where
  pub must_exist : Bool
  pub short_opt : ℕ
  pub arg_type : ArgType
  pub long_opt : ℕ
  pub default_value : Option ℕ
  pub cb : Option (ℕ → Verdict)

abbrev pub takes_arg : ArgType → Bool
takes_arg arg_none = false
takes_arg arg_required = true
takes_arg arg_optional = true

-- The constructor of Option.
pub option : ℕ → ℕ → ArgType → Option ℕ → Bool → Option (ℕ → Verdict) → Opt
option short_opt long_opt arg_type default_value must_exist cb = record {
  must_exist = takes_arg arg_type && not (is_some default_value) && must_exist;
  short_opt = short_opt;
  arg_type = arg_type;
  long_opt = long_opt;
  default_value = if takes_arg arg_type then default_value else none;
  cb = cb;
}

-- Option::operator().
pub run_cb : Opt → ℕ → Verdict
run_cb o arg = elim o.cb [ none ↦ goes_on | some cb ↦ cb arg ]

-- `emplace` of a std::map, which is in the order of the keys.
pub emplace_sorted {ℓ} : {V : Type ℓ} → ℕ → V → List (ℕ × V) → List (ℕ × V)
emplace_sorted k v [] = (k, v) ∷ []
emplace_sorted k v ((j, w) ∷ m) =
    let rest = emplace_sorted k v m in
    if k == j then (j, w) ∷ m else if ltb k j then (k, v) ∷ (j, w) ∷ m else (j, w) ∷ rest

pub record Parser : Type 0 where
  pub enable_empty_args : Bool
  pub char_index : List (ℕ × ℕ)
  pub options : List (ℕ × Opt)

-- `operator<<`.
pub add_option : Opt → Parser → Parser
unfolding emplace_sorted
add_option o p =
    let index = 255 + length p.options in
    record p {
      char_index =
          if o.short_opt == 0 then p.char_index else emplace_sorted o.short_opt index p.char_index;
      options = emplace_sorted index o p.options;
    }

-- The constructor of OptionParser adds the option of the help, which prints by an exception. 104 is
-- `h`, and `help` stands for its long name.
pub create : ℕ → Bool → Parser
unfolding add_option option
create help enable_empty_args =
    add_option (option 104 help arg_none none false (some (λ arg. throws)))
      (record { enable_empty_args = enable_empty_args; char_index = []; options = [] })

-- The loop of delOption: the index and the option that it finds.
pub find_long : ℕ → List (ℕ × Opt) → Option (ℕ × Opt)
find_long key [] = none
find_long key ((i, o) ∷ m) =
    let rest = find_long key m in if o.long_opt == key then some (i, o) else rest

pub del_option : ℕ → Parser → Parser
unfolding find_long erase
del_option key p = elim (find_long key p.options) [
  | none ↦ p
  | some (i, o) ↦ record p {
    char_index = if o.short_opt == 0 then p.char_index else erase o.short_opt p.char_index;
    options = erase i p.options;
  }
]

-- The tables for getopt_long: name, type of argument and index, and the string of short options.
abbrev pub LongOpt : Type 0
LongOpt = ℕ × ArgType × ℕ

pub long_options : List (ℕ × Opt) → List LongOpt
long_options [] = []
long_options ((i, o) ∷ m) = (o.long_opt, o.arg_type, i) ∷ long_options m

abbrev pub colons : ArgType → List ℕ
colons arg_none = []
colons arg_required = 58 ∷ []
colons arg_optional = 58 ∷ 58 ∷ []

pub short_options : List (ℕ × Opt) → List ℕ
short_options [] = []
short_options ((i, o) ∷ m) =
    let rest = short_options m in
    if o.short_opt == 0 then rest else o.short_opt ∷ colons o.arg_type ++ rest

-- The option of what getopt_long returned: a short one below 0xFF, or an index.
pub resolve : Parser → ℕ → Option Opt
unfolding lookup
resolve p index =
    if ltb index 255
    then elim (lookup index p.char_index) [ none ↦ none | some i ↦ lookup i p.options ]
    else lookup index p.options

-- How operator() ends: it completes, a callback ended it, an exception leaves it, or the help is
-- printed by an exception. `args` is what stands in `all_args` then.
pub data Parsed : Type 0 where
  completed : List (ℕ × ℕ) → Parsed
  stopped : List (ℕ × ℕ) → Parsed
  failed : List (ℕ × ℕ) → Parsed
  helped : List (ℕ × ℕ) → Parsed

pub fill_defaults : List (ℕ × Opt) → List (ℕ × ℕ) → List (ℕ × ℕ)
unfolding emplace
fill_defaults [] args = args
fill_defaults ((i, o) ∷ m) args =
    fill_defaults m (elim o.default_value [ none ↦ args | some d ↦ emplace o.long_opt d args ])

-- Every option that must exist does.
pub all_given : List (ℕ × Opt) → List (ℕ × ℕ) → Bool
unfolding lookup is_some
all_given [] args = true
all_given ((i, o) ∷ m) args =
    (if o.must_exist then is_some (lookup o.long_opt args) else true) && all_given m args

-- The part behind the loop. The callback for completion comes last.
pub finish : Parser → List (ℕ × ℕ) → Parsed
unfolding fill_defaults all_given
finish p args =
    let args' = fill_defaults p.options args in
    if all_given p.options args'
    then if (length args' == 0) && ltb 1 (length p.options) && not p.enable_empty_args
      then helped args'
      else completed args'
    else failed args'

-- The value that `optarg` stands for: the empty text, which is 0, without one.
abbrev pub value_of : Option ℕ → ℕ
value_of none = 0
value_of (some v) = v

-- The `while` loop over what getopt_long returns. A value that is there is kept, and it is the one
-- that the callback is given.
pub parse_loop : Parser → List (ℕ × Option ℕ) → List (ℕ × ℕ) → Parsed
unfolding finish resolve emplace lookup run_cb
parse_loop p [] args = finish p args
parse_loop p ((index, optarg) ∷ found) args = elim (resolve p index) [
  | none ↦ failed args
  | some o ↦
      let args' = emplace o.long_opt (value_of optarg) args in
      elim (run_cb o (value_of (lookup o.long_opt args'))) [
        | goes_on ↦ parse_loop p found args'
        | stops ↦ stopped args'
        | throws ↦ failed args'
      ]
]

-- `operator()`: `getopt_long` is what its calls return for the tables, one after the other.
pub parse : (List LongOpt → List ℕ → List (ℕ × Option ℕ)) → Parser → List (ℕ × ℕ) → Parsed
unfolding parse_loop long_options short_options
parse getopt_long p args =
    parse_loop p (getopt_long (long_options p.options) (short_options p.options)) args
