-- ===== src/Util/Files/Create.antt =====
-- create_path and create_file of src/Util/File.cpp. What the calls of access, mkdir and fopen do to
-- the file system, whose state is an `S`, is a parameter.
pub mod Prefixes
use ffzkit.Base.{
  Bytes, ℕ, zero, suc, ◌+◌, Bool, true, false, List, [], ◌∷◌, ◌++◌, Option, none, some, ◌==◌,
  if◌then◌else◌, length, take,
}
use ffzkit.Util.Text.Find.{find_from}
use ffzkit.Util.Files.Paths.{slash, name_at, back}

-- `failed` is the early return; `ran_out` means that the loop needs more fuel.
pub data Made {ℓ} (S : Type ℓ) : Type ℓ where
  done : S → Made S
  failed : S → Made S
  ran_out : Made S

-- What create_file returns, where `none` is the null pointer, or a call that is undefined.
pub data Opened {ℓ κ} (S : Type ℓ) (F : Type κ) : Type (ℓ ⊔ κ) where
  file : Option F → S → Opened S F
  undefined : S → Opened S F
  no_fuel : Opened S F

module _ {ℓ} {S : Type ℓ} (exists : Bytes → S → Bool) (mkdir : Bytes → S → Option S) where
  -- One directory is made if it is not there; `none` is a failure of mkdir.
  abbrev pub ensure : Bytes → S → Option S
  ensure dir s = if exists dir s then some s else mkdir dir s

  -- The early return, or the next round.
  pub next_round : Option S → S → (S → Made S) → Made S
  next_round none s again = failed s
  next_round (some s') s again = again s'

  pub make_dirs : ℕ → ℕ → Bytes → S → Made S
  unfolding find_from next_round
  make_dirs zero index path s = ran_out
  make_dirs (suc fuel) index path s =
      let next : ℕ = name_at (find_from path slash index) in
      let dir : Bytes = take next path in
      let more = next_round (ensure dir s) s (make_dirs fuel next path) in
      if length dir == 0 then done s else more

  pub create_path : Bytes → S → Made S
  unfolding make_dirs
  create_path path s = make_dirs (length path + 1) 1 path s

  module _ {κ} {F : Type κ} (fopen : Bytes → S → Option F × S) where
    -- Behind the loop; the test of the last byte is undefined for an empty name.
    pub open_at : Bytes → S → Opened S F
    unfolding back
    open_at name s = elim (back name) [
      | none ↦ undefined s
      | some b ↦ if b == b'/' then file none s else file (fopen name s).0 (fopen name s).1
    ]

    pub create_file : Bytes → S → Opened S F
    unfolding make_dirs open_at
    create_file name s = elim (make_dirs (length name + 1) 1 name s) [
      | done s' ↦ open_at name s'
      | failed s' ↦ file none s'
      | ran_out ↦ no_fuel
    ]
