-- ===== src/Util/Any.antt =====
-- Any of src/Util/util.h. Types are numbers, and `V` is what a pointer to any type points to.
mod Tests
pub mod Access
use ffzkit.Base.{ℕ, Bool, true, false, not, ◌&&◌, Option, none, some, ◌==◌, if◌then◌else◌, is_some}

-- `type` is `_type` and `data` is `_data`, both `none` for a null pointer.
pub record Any {ℓ} (V : Type ℓ) : Type ℓ where
  pub type : Option ℕ
  pub data_ : Option V

-- What `get` does: it returns the value, throws std::invalid_argument, or reads it as a value of
-- another type.
pub data Got {ℓ} (V : Type ℓ) : Type ℓ where
  got : V → Got V
  throws : Got V
  undefined : Got V

module _ {ℓ} {V : Type ℓ} where
  abbrev pub empty_any : Any V
  empty_any = record { type = none; data_ = none }

  pub reset : Any V → Any V
  reset a = empty_any

  -- The two `set`: with the arguments of a constructor, and with a pointer that may be null.
  pub set : ℕ → V → Any V → Any V
  set type v a = record { type = some type; data_ = some v }

  pub set_shared : ℕ → Option V → Any V → Any V
  unfolding reset
  set_shared type none a = reset a
  set_shared type (some v) a = record { type = some type; data_ = some v }

  -- The move, by constructor and by assignment: what it gives, and what it leaves behind.
  pub move : Any V → Any V × Any V
  move that = (record { type = that.type; data_ = that.data_ }, record that { data_ = none })

  pub is : ℕ → Any V → Bool
  is type a = elim a.type [ none ↦ false | some t ↦ type == t ]

  pub get : Bool → ℕ → Any V → Got V
  unfolding is
  get safe type a = elim a.data_ [
    | none ↦ throws
    | some v ↦ if safe && not (is type a) then throws else if is type a then got v else undefined
  ]
