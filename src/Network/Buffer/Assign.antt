-- ===== src/Network/Buffer/Assign.antt =====
-- What the operations of BufferRaw of src/Network/Buffer.h keep true.
use ffzkit.Base.Words.{add64-lt, mul64-lt, mul64-le}
use ffzkit.Base.{
  ℕ, zero, suc, ap, ◌∙◌, subst, ◌+◌, ◌*◌, ◌≤◌, ◌<◌, ◌^◌, ◌≡◌, ◌⊎◌, refl, inl, inr, true, false,
  List, [], ◌∷◌, ◌++◌, map, none, some, leb, ltb, ◌==◌, length, take, drop, replicate, get_elem?,
  All, length-append, ◌≢◌, arith, Bool-cases, Option-cases,
}
use ffzkit.Network.Buffer.{
  Block, Buffer, new_block, keeps, set_capacity, set_size, strlen, assigned, fill, assign_block,
  assign_size, assign,
}

-- The capacity is the size of the block, and 0 without one.
pub record IsValid (b : Buffer) : Type 0 where
  pub block : (d : Block) → b.data_ ≡ some d → length d ≡ b.capacity
  pub no_block : b.data_ ≡ none → b.capacity ≡ 0

length-replicate {ℓ} : {A : Type ℓ} (n : ℕ) (a : A) → length (replicate n a) ≡ n
length-replicate zero a = refl
length-replicate (suc n) a = ap suc (length-replicate n a)

new_block-IsValid : (n : ℕ) (b : Buffer) → IsValid (new_block n b)
unfolding new_block
new_block-IsValid n b = record {
  block = λ d e.
      let e' : replicate n none ≡ d = cc in subst (λ x. length x ≡ n) e' (length-replicate n none);
  no_block = λ e. cc;
}

keeps-room :
    (n old : ℕ) → n < 2 ^ 63 → keeps n old ≡ true → (n ≤ old) × ((old < 2048) ⊎ (old ≤ 2 * n))
unfolding keeps
keeps-room n old h e =
    let twice = mul64-lt 2 n (omega arith) in (ground (arith, twice), ground (arith, twice))

set_capacity-cases :
    (n : ℕ) (b : Buffer)
    → (set_capacity n b ≡ new_block n b) ⊎ ((set_capacity n b ≡ b) × (keeps n b.capacity ≡ true))
unfolding set_capacity
set_capacity-cases n b = elim (Option-cases b.data_) [
  | inl e ↦ inl (rw (set_capacity, e) refl)
  | inr (d, e) ↦ elim (Bool-cases (keeps n b.capacity)) [
    | inl k ↦ inr (simp (set_capacity, e, k) refl, k)
    | inr k ↦ inl (rw (set_capacity, e, k) refl)
  ]
]

-- setCapacity gives room for what was asked, and keeps a block only if it has fewer than 2048
-- bytes or less than twice of what was asked.
pub set_capacity-room :
    (n : ℕ) (b : Buffer)
    → n < 2 ^ 63
    → IsValid b
    → let b' = set_capacity n b in
      IsValid b' × (n ≤ b'.capacity) × ((b'.capacity < 2048) ⊎ (b'.capacity ≤ 2 * n))
unfolding new_block
set_capacity-room n b h v = elim (set_capacity-cases n b) [
  | inl e ↦ rw e (new_block-IsValid n b, omega arith, inr (omega arith))
  | inr (e, k) ↦ let r = keeps-room n b.capacity h k in rw e (v, r.0, r.1)
]

-- But it does not look at the size: a block that is given up for a smaller one than the data
-- leaves a size that is more than the capacity, so that `data()` has fewer bytes than `size()`.
pub set_capacity_stale :
    (n : ℕ) (b : Buffer) (d : Block)
    → b.data_ ≡ some d
    → 2048 ≤ b.capacity
    → 2 * n ≤ b.capacity
    → n < b.size
    → let b' = set_capacity n b in (b'.size ≡ b.size) × (b'.capacity ≡ n) × (b'.capacity < b'.size)
unfolding keeps new_block
set_capacity_stale n b d e big half less = elim (set_capacity-cases n b) [
  | inl p ↦ rw p (refl, refl, less)
  | inr (p, k) ↦ let twice = mul64-le 2 n in absurd (ground (arith, twice))
]

splice : ℕ → List ℕ → Block → Block
splice n bytes d = map some (take n bytes) ++ some 0 ∷ drop (suc n) d

length-splice :
    (n : ℕ) (bytes : List ℕ) (d : Block)
    → n ≤ length bytes
    → n < length d
    → length (splice n bytes d) ≡ length d
unfolding splice
length-splice n bytes [] h k = absurd (omega (arith, k))
length-splice zero bytes (y ∷ d) h k = refl
length-splice (suc n) [] (y ∷ d) h k = absurd (omega (arith, h))
length-splice (suc n) (c ∷ bytes) (y ∷ d) h k =
    ap suc (length-splice n bytes d (omega arith) (omega arith))

take-splice :
    (n : ℕ) (bytes : List ℕ) (d : Block)
    → n ≤ length bytes
    → take n (splice n bytes d) ≡ map some (take n bytes)
unfolding splice
take-splice zero bytes d h = refl
take-splice (suc n) [] d h = absurd (omega (arith, h))
take-splice (suc n) (c ∷ bytes) [] h = ap (λ r. some c ∷ r) (take-splice n bytes [] (omega arith))
take-splice (suc n) (c ∷ bytes) (y ∷ d) h =
    ap (λ r. some c ∷ r) (take-splice n bytes d (omega arith))

splice-terminated :
    (n : ℕ) (bytes : List ℕ) (d : Block)
    → n ≤ length bytes
    → get_elem? (splice n bytes d) n ≡ some (some 0)
unfolding splice
splice-terminated zero bytes d h = refl
splice-terminated (suc n) [] d h = absurd (omega (arith, h))
splice-terminated (suc n) (c ∷ bytes) [] h = splice-terminated n bytes [] (omega arith)
splice-terminated (suc n) (c ∷ bytes) (y ∷ d) h = splice-terminated n bytes d (omega arith)

fill-splice :
    (n : ℕ) (bytes : List ℕ) (d : Block)
    → n ≤ length bytes
    → n < length d
    → fill n bytes d ≡ some (splice n bytes d)
unfolding fill splice
fill-splice n bytes d h k =
    let a : leb n (length bytes) ≡ true = ground arith in
    let c : ltb n (length d) ≡ true = ground arith in rw (fill, a, c) refl

-- The buffer holds the bytes, with a 0 behind them, in a block that is large enough.
pub record Contains (size : ℕ) (bytes : List ℕ) (b : Buffer) : Type 0 where
  pub valid : IsValid b
  pub size_is : b.size ≡ size
  pub fits : size < b.capacity
  pub block : Block
  pub block_is : b.data_ ≡ some block
  pub holds : take size block ≡ map some (take size bytes)
  pub ends : get_elem? block size ≡ some (some 0)

assign_block-Contains :
    (size : ℕ) (bytes : List ℕ) (b : Buffer) (d : Block)
    → IsValid b
    → b.data_ ≡ some d
    → size ≤ length bytes
    → size < b.capacity
    → (b' : Buffer) × (assign_block size bytes b ≡ assigned b') × Contains size bytes b'
unfolding assign_block set_size
assign_block-Contains size bytes b d v e h k =
    let l = v.block d e in
    let same = length-splice size bytes d h (omega (arith, l)) in
    let in_range : ltb b.capacity size ≡ false = ground arith in
    (
      record b { size = size; data_ = some (splice size bytes d) },
      rw (assign_block, e, fill-splice size bytes d h (omega (arith, l)), set_size, in_range) refl,
      record {
        valid = record {
          block = λ d' q.
              let q' : splice size bytes d ≡ d' = cc in
              subst (λ x. length x ≡ b.capacity) q' (same ∙ l);
          no_block = λ q. cc;
        };
        size_is = refl;
        fits = k;
        block = splice size bytes d;
        block_is = refl;
        holds = take-splice size bytes d h;
        ends = splice-terminated size bytes d h;
      },
    )

assign_size-Contains :
    (size : ℕ) (bytes : List ℕ) (b : Buffer)
    → IsValid b
    → size ≤ length bytes
    → size + 1 < 2 ^ 63
    → (b' : Buffer) × (assign_size size bytes b ≡ assigned b') × Contains size bytes b'
unfolding assign_size
assign_size-Contains size bytes b v h k =
    let sum = add64-lt size 1 (omega arith) in
    let room = set_capacity-room (size + 1) b k v in
    let b' = set_capacity (size + 1) b in
    elim (Option-cases b'.data_) [
      | inl e ↦ let none_left = room.0.no_block e in absurd (omega (arith, none_left, room.1))
      | inr (d, e) ↦
          rw (assign_size, sum)
            (assign_block-Contains size bytes b' d room.0 e h (omega (arith, room.1)))
    ]

strlen_lem :
    (text rest : List ℕ) → All (λ c. c ≢ 0) text → strlen (text ++ 0 ∷ rest) ≡ some (length text)
unfolding strlen
strlen_lem [] rest h = refl
strlen_lem (c ∷ text) rest h =
    let inside : (c == 0) ≡ false = (let n = h.0 in ground arith) in
    rw (strlen, inside, strlen_lem text rest h.1) refl

-- What `assign` is asked to copy: the `n` bytes of the text at the pointer, up to its 0, for a size of 0,
-- and else the first `size` bytes that stand there, which may be 0 too.
pub data Asked (bytes : List ℕ) : ℕ → ℕ → Type 0 where
  text :
      (before rest : List ℕ)
      → bytes ≡ before ++ 0 ∷ rest
      → All (λ c. c ≢ 0) before
      → Asked bytes 0 (length before)
  block : {size : ℕ} → 0 < size → size ≤ length bytes → Asked bytes size size

-- Where new[] finds the memory, assign ends without an exception and without touching memory that is
-- not its own, and the buffer then holds the bytes that were asked for, with a 0 behind them: the
-- first `size` bytes at the pointer, whatever they are, or for a size of 0 the text at the pointer, up
-- to its 0.
pub assign-Contains :
    (size n : ℕ) (bytes : List ℕ) (b : Buffer)
    → IsValid b
    → Asked bytes size n
    → n + 1 < 2 ^ 63
    → (b' : Buffer) × (assign bytes size b ≡ assigned b') × Contains n bytes b'
unfolding assign
assign-Contains size n bytes b v (text before rest e h) m =
    let total = length-append before (0 ∷ rest) in
    let found : strlen bytes ≡ some (length before) = ap strlen e ∙ strlen_lem before rest h in
    rw (assign, found)
      (assign_size-Contains (length before) bytes b v (omega (arith, total, ap length e)) m)
assign-Contains size n bytes b v (block p h) m =
    let some_size : (size == 0) ≡ false = ground arith in
    rw (assign, some_size) (assign_size-Contains size bytes b v h m)
