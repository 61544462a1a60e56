-- ===== src/Util/Ini/Maps.antt =====
-- What is found in the map of src/Util/mini.h behind a row of assignments.
use ffzkit.Base.{
  bytes_lt, or_else, or_else-none, Bytes, same_bytes, same_bytes-eq, same_bytes-sym, ◌≡◌, refl, sym,
  ap, ◌∙◌, inl, inr, subst, Bool, true, false, [], ◌∷◌, ◌++◌, Option, none, some, if◌then◌else◌,
  Bool-cases,
}
use ffzkit.Util.Ini.{Entries, assign}

unfoldable pub find_value : Bytes → Entries → Option Bytes
find_value key [] = none
find_value key ((k, v) ∷ m) = if same_bytes k key then some v else find_value key m

again {ℓ} :
    {A : Type ℓ} (b : Bool) (x y z : A)
    → (if b then x else z) ≡ (if b then x else (if b then y else z))
again true x y z = refl
again false x y z = refl

pub find_value-assign :
    (key k v : Bytes) (m : Entries)
    → find_value key (assign k v m) ≡ (if same_bytes k key then some v else find_value key m)
unfolding find_value assign
find_value-assign key k v [] = refl
find_value-assign key k v ((j, w) ∷ m) = elim (Bool-cases (same_bytes j k)) [
  | inl e ↦ rw e (
      subst
        (λ x. find_value key ((k, v) ∷ m) ≡ (
          if same_bytes k key
          then some v
          else (if same_bytes x key then some w else find_value key m)))
        (sym (same_bytes-eq j k e)) (again (same_bytes k key) (some v) (some w) (find_value key m)))
  | inr e ↦ elim (Bool-cases (bytes_lt k j)) [
    | inl l ↦ rw (e, l) refl
    | inr l ↦ elim (Bool-cases (same_bytes j key)) [
      | inl s ↦
          let differs =
            subst (λ x. same_bytes k x ≡ false) (same_bytes-eq j key s) (same_bytes-sym j k e) in
          rw (e, l, find_value, s, differs) refl
      | inr s ↦ rw (e, l, find_value, s) (find_value-assign key k v m)
    ]
  ]
]

-- No key is twice in the list.
abbrev pub IsDistinct : Entries → Type 0
IsDistinct [] = Unit
IsDistinct ((k, v) ∷ m) = (find_value k m ≡ none) × IsDistinct m

abbrev pub assign_all : Entries → Entries → Entries
assign_all [] m = m
assign_all ((k, v) ∷ es) m = assign_all es (assign k v m)

find_value-assign_all :
    (key : Bytes) (es m : Entries)
    → IsDistinct es
    → find_value key (assign_all es m) ≡ or_else (find_value key es) (find_value key m)
unfolding find_value
find_value-assign_all key [] m h = refl
find_value-assign_all key ((k, v) ∷ es) m h =
    find_value-assign_all key es (assign k v m) h.1
    ∙ ap (or_else (find_value key es)) (find_value-assign key k v m)
    ∙ last
  where
    last :
        or_else (find_value key es) (if same_bytes k key then some v else find_value key m)
        ≡ or_else (if same_bytes k key then some v else find_value key es) (find_value key m)
    last = elim (Bool-cases (same_bytes k key)) [
      | inl e ↦
          let fresh = subst (λ x. find_value x es ≡ none) (same_bytes-eq k key e) h.0 in
          rw (e, fresh) refl
      | inr e ↦ rw e refl
    ]

find_value-append :
    (key : Bytes) (a b : Entries)
    → find_value key (a ++ b) ≡ or_else (find_value key a) (find_value key b)
unfolding find_value
find_value-append key [] b = refl
find_value-append key ((k, v) ∷ a) b = elim (Bool-cases (same_bytes k key)) [
  | inl e ↦ rw e refl
  | inr e ↦ rw e (find_value-append key a b)
]

-- Assigned to a map that is empty, entries without a key twice give a map with the same values.
pub find_value-assigned :
    (key : Bytes) (es : Entries)
    → IsDistinct es
    → find_value key (assign_all es []) ≡ find_value key es
unfolding find_value
find_value-assigned key es h = find_value-assign_all key es [] h ∙ or_else-none (find_value key es)

find_value-cons :
    (k j w : Bytes) (m : Entries)
    → find_value k ((j, w) ∷ m) ≡ none
    → (same_bytes j k ≡ false) × (find_value k m ≡ none)
unfolding find_value
find_value-cons k j w m h = elim (Bool-cases (same_bytes j k)) [
  | inl e ↦ absurd (some_none (rw e at h))
  | inr e ↦ (e, rw e at h)
]
  where
    some_none : ¬ (some w ≡ none)
    some_none p = cc

-- One entry more in the middle.
pub find_value-insert :
    (key k v : Bytes) (a b : Entries)
    → find_value k (a ++ b) ≡ none
    → find_value key (a ++ (k, v) ∷ b)
      ≡ (if same_bytes k key then some v else find_value key (a ++ b))
unfolding find_value
find_value-insert key k v [] b h = refl
find_value-insert key k v ((j, w) ∷ a) b h =
    let (other, later) = find_value-cons k j w (a ++ b) h in
    elim (Bool-cases (same_bytes j key)) [
      | inl e ↦
          let differs =
            subst (λ x. same_bytes k x ≡ false) (same_bytes-eq j key e)
              (same_bytes-sym j k other) in
          rw (e, differs) refl
      | inr e ↦ rw e (find_value-insert key k v a b later)
    ]

pub insert-IsDistinct :
    (k v : Bytes) (a b : Entries)
    → find_value k (a ++ b) ≡ none
    → IsDistinct (a ++ b)
    → IsDistinct (a ++ (k, v) ∷ b)
unfolding find_value
insert-IsDistinct k v [] b h d = (h, d)
insert-IsDistinct k v ((j, w) ∷ a) b h d =
    let (other, later) = find_value-cons k j w (a ++ b) h in
    let differs = same_bytes-sym j k other in
    (find_value-insert j k v a b later ∙ rw differs d.0, insert-IsDistinct k v a b later d.1)
