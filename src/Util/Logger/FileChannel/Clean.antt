-- ===== src/Util/Logger/FileChannel/Clean.antt =====
-- What clean deletes.
use mathlib.Core.List.{append_assoc}
use ffzkit.Base.{
  Bytes, same_bytes, same_bytes_refl, ℕ, ◌+◌, ◌≤◌, ◌<◌, ◌≡◌, ◌⊎◌, inl, inr, refl, sym, ap, ◌∙◌,
  Bool, true, List, [], ◌∷◌, ◌++◌, ltb, length, Bool-cases, same_bytes-eq, bytes_lt, subst, arith,
}
use ffzkit.Util.Logger.FileChannel.{
  Channel, drop_old, drop_many, cons_removed, clean, emplace, change_file,
}

-- The files in front of the current one lose some at the front, and no other file is lost.
record Cut (current : Bytes) (before after : List Bytes) (r : List Bytes × List Bytes)
    : Type 0 where
  left : List Bytes
  kept : r.1 ≡ left ++ current ∷ after
  split : before ≡ r.0 ++ left

Cut-cons :
    (f current : Bytes) (before after : List Bytes) (r : List Bytes × List Bytes)
    → Cut current before after r
    → Cut current (f ∷ before) after (cons_removed f r)
Cut-cons f current before after (x, y) c = record {
  left = c.left;
  kept = c.kept;
  split = ap (λ l. f ∷ l) c.split;
}

Cut-all :
    (current : Bytes) (before after : List Bytes)
    → Cut current before after ([], before ++ current ∷ after)
Cut-all current before after = record { left = before; kept = refl; split = refl }

module _ (day_of : Bytes → ℕ) (today max_day : ℕ) (current : Bytes) where
  drop_old-Cut :
      (before after : List Bytes)
      → today < day_of current + max_day
      → Cut current before after (drop_old day_of today max_day (before ++ current ∷ after))
  unfolding drop_old
  drop_old-Cut [] after h =
      let young : ltb today (day_of current + max_day) ≡ true = ground arith in
      rw (drop_old, young) (Cut-all current [] after)
  drop_old-Cut (f ∷ before) after h = elim (Bool-cases (ltb today (day_of f + max_day))) [
    | inl e ↦ rw (drop_old, e) (Cut-all current (f ∷ before) after)
    | inr e ↦
        rw (drop_old, e)
          (Cut-cons f current before after
            (drop_old day_of today max_day (before ++ current ∷ after))
            (drop_old-Cut before after h))
  ]

module _ (current : Bytes) (max_count : ℕ) where
  drop_many-Cut :
      (before after : List Bytes)
      → Cut current before after (drop_many current max_count (before ++ current ∷ after))
  unfolding drop_many
  drop_many-Cut [] after = elim (Bool-cases (ltb max_count (length (current ∷ after)))) [
    | inl e ↦ rw (drop_many, e, same_bytes_refl current) (Cut-all current [] after)
    | inr e ↦ rw (drop_many, e) (Cut-all current [] after)
  ]
  drop_many-Cut (f ∷ before) after =
      elim (Bool-cases (ltb max_count (length (f ∷ (before ++ current ∷ after))))) [
        | inr e ↦ rw (drop_many, e) (Cut-all current (f ∷ before) after)
        | inl e ↦ elim (Bool-cases (same_bytes f current)) [
          | inl s ↦ rw (drop_many, e, s) (Cut-all current (f ∷ before) after)
          | inr s ↦
              rw (drop_many, e, s)
                (Cut-cons f current before after
                  (drop_many current max_count (before ++ current ∷ after))
                  (drop_many-Cut before after))
        ]
      ]

  drop_many_bound :
      (fs : List Bytes)
      → (length (drop_many current max_count fs).1 ≤ max_count)
        ⊎ ((rest : List Bytes) × ((drop_many current max_count fs).1 ≡ current ∷ rest))
  unfolding drop_many
  drop_many_bound [] = inl (omega arith)
  drop_many_bound (f ∷ fs) = elim (Bool-cases (ltb max_count (length (f ∷ fs)))) [
    | inr e ↦ rw (drop_many, e) (inl (ground arith))
    | inl e ↦ elim (Bool-cases (same_bytes f current)) [
      | inl s ↦ rw (drop_many, e, s) (inr (fs, ap (λ x. x ∷ fs) (same_bytes-eq f current s)))
      | inr s ↦ rw (drop_many, e, s) (drop_many_bound fs)
    ]
  ]

module _ (day_of : Bytes → ℕ) (get_day : ℕ → ℕ) (file_path : ℕ → ℕ → Bytes) (size_of : Bytes → ℕ)
    (opens : Bytes → Bool) where
  -- The current file and all behind it are left, what was in front of it and is gone was deleted,
  -- oldest first, and there are no more files than allowed, but for the current one and later ones.
  record IsCleaned (s : Channel) (before after : List Bytes) (t : Channel) : Type 0 where
    left : List Bytes
    removed : List Bytes
    kept : t.files ≡ left ++ s.path ∷ after
    split : before ≡ removed ++ left
    gone : t.deleted ≡ s.deleted ++ removed
    bound : (length t.files ≤ s.max_count) ⊎ ((rest : List Bytes) × (t.files ≡ s.path ∷ rest))
    same_path : t.path ≡ s.path
    same_write : t.can_write ≡ s.can_write

  clean-IsCleaned :
      (today : ℕ) (s : Channel) (before after : List Bytes)
      → s.files ≡ before ++ s.path ∷ after
      → today < day_of s.path + s.max_day
      → IsCleaned s before after (clean day_of get_day file_path size_of opens today s)
  unfolding clean
  clean-IsCleaned today s before after e h =
      let old = drop_old day_of today s.max_day s.files in
      let c : Cut s.path before after old =
        subst (λ l. Cut s.path before after (drop_old day_of today s.max_day l)) (sym e)
          (drop_old-Cut day_of today s.max_day s.path before after h) in
      let d : Cut s.path c.left after (drop_many s.path s.max_count old.1) =
        subst (λ l. Cut s.path c.left after (drop_many s.path s.max_count l)) (sym c.kept)
          (drop_many-Cut s.path s.max_count c.left after) in
      record {
        left = d.left;
        removed = old.0 ++ (drop_many s.path s.max_count old.1).0;
        kept = d.kept;
        split =
            c.split
            ∙ ap (λ l. old.0 ++ l) d.split
            ∙ sym (append_assoc old.0 (drop_many s.path s.max_count old.1).0 d.left);
        gone = refl;
        bound = drop_many_bound s.path s.max_count old.1;
        same_path = refl;
        same_write = refl;
      }

  emplace-split :
      (f : Bytes) (fs : List Bytes)
      → (before : List Bytes) × (after : List Bytes) × (emplace f fs ≡ before ++ f ∷ after)
  unfolding emplace
  emplace-split f [] = ([], [], refl)
  emplace-split f (g ∷ gs) = elim (Bool-cases (same_bytes g f)) [
    | inl e ↦ ([], gs, rw (emplace, e) (ap (λ x. x ∷ gs) (same_bytes-eq g f e)))
    | inr e ↦ elim (Bool-cases (bytes_lt f g)) [
      | inl l ↦ ([], g ∷ gs, rw (emplace, e, l) refl)
      | inr l ↦
          let (before, after, q) = emplace-split f gs in
          (g ∷ before, after, rw (emplace, e, l) (ap (λ x. g ∷ x) q))
    ]
  ]

  -- A new log file is never deleted by the cleaning that follows: if its day is less than the
  -- allowed number of days ago, it is among the files behind changeFile, with every later one, and
  -- it is the current one; it can be written exactly if it could be opened; what was deleted stood
  -- in front of it; and the number of files is within its limit, or only files from the new one on
  -- are left.
  pub change_file_kept :
      (today second : ℕ) (s : Channel)
      → today < day_of (file_path second s.index) + s.max_day
      → let t = change_file day_of get_day file_path size_of opens today second s in
        let log_file = file_path second s.index in
        (t.path ≡ log_file)
        × (t.can_write ≡ opens log_file)
        × ((removed : List Bytes) × (left : List Bytes) × (after : List Bytes) × (emplace log_file
                s.files
              ≡ removed ++ (left ++ log_file ∷ after))
            × (t.files ≡ left ++ log_file ∷ after)
            × (t.deleted ≡ s.deleted ++ removed))
        × ((length t.files ≤ s.max_count) ⊎ ((rest : List Bytes) × (t.files ≡ log_file ∷ rest)))
  unfolding change_file
  change_file_kept today second s h =
      let log_file = file_path second s.index in
      let (before, after, e) = emplace-split log_file s.files in
      let opened = record s {
        index = s.index + 1;
        files = emplace log_file s.files;
        path = log_file;
        can_write = opens log_file;
      } in
      let c = clean-IsCleaned today opened before after e h in
      (
        c.same_path,
        c.same_write,
        (
          c.removed,
          c.left,
          after,
          e
              ∙ ap (λ l. l ++ log_file ∷ after) c.split
              ∙ append_assoc c.removed c.left (log_file ∷ after),
          c.kept,
          c.gone,
        ),
        c.bound,
      )
