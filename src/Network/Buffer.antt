-- ===== src/Network/Buffer.antt =====
-- BufferRaw of src/Network/Buffer.h. A byte that `new` gave and nobody wrote is `none`; a
-- call of new[] that finds no memory, and throws, is not modelled.
mod Tests
pub mod Assign
use ffzkit.Base.Words.{add64, mul64}
use ffzkit.Base.{
  ℕ, suc, ◌+◌, Bool, true, false, not, ◌&&◌, ◌||◌, List, [], ◌∷◌, ◌++◌, map, Option, none, some,
  leb, ltb, ◌==◌, if◌then◌else◌, length, take, drop, replicate,
}

abbrev pub Block : Type 0
Block = List (Option ℕ)

-- `data` is `none` for a null pointer.
pub record Buffer : Type 0 where
  pub size : ℕ
  pub capacity : ℕ
  pub data_ : Option Block

abbrev pub empty_buffer : Buffer
empty_buffer = record { size = 0; capacity = 0; data_ = none }

pub new_block : ℕ → Buffer → Buffer
new_block capacity b = record b { capacity = capacity; data_ = some (replicate capacity none) }

-- The tests that keep a block: it is large enough, and it is small or at least half used.
pub keeps : ℕ → ℕ → Bool
keeps capacity old = leb capacity old && (ltb old 2048 || ltb old (mul64 2 capacity))

pub set_capacity : ℕ → Buffer → Buffer
unfolding new_block keeps
set_capacity capacity b = elim b.data_ [
  | none ↦ new_block capacity b
  | some d ↦ if keeps capacity b.capacity then b else new_block capacity b
]

-- The constructor with a capacity.
pub create : ℕ → Buffer
unfolding set_capacity
create capacity = if capacity == 0 then empty_buffer else set_capacity capacity empty_buffer

-- `none` is the throw of std::invalid_argument.
pub set_size : ℕ → Buffer → Option Buffer
set_size size b = if ltb b.capacity size then none else some (record b { size = size })

-- `strlen`: `none` if there is no 0, which is undefined.
pub strlen : List ℕ → Option ℕ
strlen [] = none
strlen (c ∷ cs) =
    let rest = strlen cs in
    if c == 0 then some 0 else elim rest [ none ↦ none | some n ↦ some (suc n) ]

pub data Assigned : Type 0 where
  assigned : Buffer → Assigned
  throws : Assigned
  undefined : Assigned

-- memcpy, and the 0 behind: undefined unless the source has `size` bytes and the block more.
pub fill : ℕ → List ℕ → Block → Option Block
fill size bytes d =
    if leb size (length bytes) && ltb size (length d)
    then some (map some (take size bytes) ++ some 0 ∷ drop (suc size) d)
    else none

pub assign_block : ℕ → List ℕ → Buffer → Assigned
unfolding fill set_size
assign_block size bytes b = elim b.data_ [
  | none ↦ undefined
  | some d ↦ elim (fill size bytes d) [
    | none ↦ undefined
    | some d' ↦ elim (set_size size (record b { data_ = some d' })) [
      | none ↦ throws
      | some b' ↦ assigned b'
    ]
  ]
]

pub assign_size : ℕ → List ℕ → Buffer → Assigned
unfolding assign_block set_capacity
assign_size size bytes b = assign_block size bytes (set_capacity (add64 size 1) b)

-- assign: `bytes` is what stands at the pointer.
pub assign : List ℕ → ℕ → Buffer → Assigned
unfolding assign_size strlen
assign bytes size b =
    if size == 0
    then elim (strlen bytes) [ none ↦ undefined | some n ↦ assign_size n bytes b ]
    else assign_size size bytes b
