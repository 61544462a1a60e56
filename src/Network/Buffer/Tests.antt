-- ===== src/Network/Buffer/Tests.antt =====
-- A buffer that is filled, grown and shrunk.
use ffzkit.Base.Words.{add64}
use ffzkit.Base.{◌≡◌, refl, [], ◌∷◌, some, replicate, none, arith}
use ffzkit.Network.Buffer.Assign.{IsValid, Asked, Contains, assign-Contains}
use ffzkit.Network.Buffer.{Buffer, empty_buffer, create, set_capacity, set_size, assigned, assign}

assign_short :
    assign (104 ∷ 105 ∷ 0 ∷ []) 0 empty_buffer
    ≡ assigned (record { size = 2; capacity = 3; data_ = some (some 104 ∷ some 105 ∷ some 0 ∷ []) })
unfolding assign add64
assign_short = refl

grown : (set_size 5 (create 4) ≡ none) × (set_capacity 3 (create 4) ≡ create 4)
unfolding set_size create set_capacity
grown = (refl, refl)

empty_buffer-IsValid : IsValid empty_buffer
empty_buffer-IsValid = record { block = λ d e. cc; no_block = λ e. refl }

-- A block with a 0 inside.
assign-Contains_example :
    (b : Buffer) × (assign (104 ∷ 0 ∷ 105 ∷ []) 3 empty_buffer ≡ assigned b)
    × Contains 3 (104 ∷ 0 ∷ 105 ∷ []) b
assign-Contains_example =
    assign-Contains 3 3 (104 ∷ 0 ∷ 105 ∷ []) empty_buffer empty_buffer-IsValid
      (Asked.block (omega arith) (omega arith)) (omega arith)

abbrev full : Buffer
full = record { size = 4000; capacity = 4096; data_ = some (replicate 4096 none) }
