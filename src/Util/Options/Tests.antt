-- ===== src/Util/Options/Tests.antt =====
-- A parser with the options 1 and 2, and what becomes of it when 1 is deleted and 3 is added.
use ffzkit.Base.{ℕ, ◌≡◌, refl, true, false, List, [], ◌∷◌, Option, none, some, is_some, arith}
use ffzkit.Util.Options.Indices.{IsDense}
use ffzkit.Util.Options.{
  arg_required, arg_none, stops, Opt, option, Parser, create, add_option, del_option, completed,
  failed, parse, LongOpt, long_options, short_options,
}

abbrev opt_a : Opt
opt_a = record {
  must_exist = false;
  short_opt = 97;
  arg_type = arg_required;
  long_opt = 1;
  default_value = some 10;
  cb = none;
}

abbrev opt_b : Opt
opt_b = record {
  must_exist = true;
  short_opt = 98;
  arg_type = arg_required;
  long_opt = 2;
  default_value = none;
  cb = none;
}

abbrev opt_c : Opt
opt_c = record {
  must_exist = false;
  short_opt = 99;
  arg_type = arg_none;
  long_opt = 3;
  default_value = none;
  cb = some (λ v. stops);
}

constructed : (option 97 1 arg_required (some 10) true none ≡ opt_a)
unfolding option is_some
constructed = refl

abbrev short_c : ℕ
short_c = 99

abbrev parser : Parser
parser = add_option opt_b (add_option opt_a (create 0 false))

abbrev deleted : Parser
deleted = del_option 1 parser

-- Option 2 was given by its short name.
abbrev answers : List LongOpt → List ℕ → List (ℕ × Option ℕ)
answers l s = (98, some 20) ∷ []

parsed : parse answers parser [] ≡ completed ((1, 10) ∷ (2, 20) ∷ [])
unfolding parse create
parsed = refl

tables :
    (long_options parser.options
      ≡ (0, arg_none, 255) ∷ (1, arg_required, 256) ∷ (2, arg_required, 257) ∷ [])
    × (short_options parser.options ≡ 104 ∷ 97 ∷ 58 ∷ 98 ∷ 58 ∷ [])
unfolding create long_options short_options
tables = (refl, refl)

missing : parse (λ l s. []) parser [] ≡ failed ((1, 10) ∷ [])
unfolding parse create
missing = refl

parser-IsDense : IsDense parser
unfolding create add_option option
parser-IsDense = record {
  ascending = (omega arith, (omega arith, (omega arith, tt)));
  below = (omega arith, (omega arith, (omega arith, tt)));
}

abbrev stopping : List LongOpt → List ℕ → List (ℕ × Option ℕ)
stopping l s = (98, some 20) ∷ (99, none) ∷ (97, some 30) ∷ []
