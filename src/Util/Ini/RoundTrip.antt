-- ===== src/Util/Ini/RoundTrip.antt =====
-- parse reads back what dump writes, src/Util/mini.h.
use mathlib.Core.List.{append_assoc, append-nil}
use ffzkit.Util.Text.Find.{find_byte, find_byte_none}
use ffzkit.Base.{
  same_bytes-differ, same_bytes_refl, Bytes, same_bytes, ◌≡◌, ◌≢◌, refl, sym, ap, ◌∙◌, inl, inr,
  List, [], ◌∷◌, ◌++◌, map, none, some, if◌then◌else◌, All, All-append, Bool-cases,
}
use ffzkit.Util.Ini.{
  is_empty, Entries, assign, parsed, parse_lines, parse, dump, dump_loop, split_key, line_of,
}
use ffzkit.Util.Ini.Lines.{IsSkipped, nil-IsClean, parse_skipped}
use ffzkit.Util.Ini.Maps.{
  find_value, IsDistinct, assign_all, find_value-assigned, find_value-insert, insert-IsDistinct,
}
use ffzkit.Util.Ini.Sections.{
  Part, entry, IsGood, text, plain, tagged, section, sections, last_tag, dump_loop-render,
  parse-plain, parse-sections, parse_lines-one, map-append,
}
use ffzkit.Util.Ini.Tokens.{OneLine, render, render-append, with_cr, tokenize-render}

-- The header or the footer: one line, or none for an empty text.
abbrev pub lines_of : Bytes → List Bytes
lines_of s = if is_empty s then [] else s ∷ []

line_of-render : (s : Bytes) → line_of s ≡ render (lines_of s)
line_of-render s = elim (Bool-cases (is_empty s)) [ inl e ↦ rw e refl | inr e ↦ rw e refl ]

lines_of-OneLine : (s : Bytes) → OneLine s → All OneLine (lines_of s)
lines_of-OneLine s h = elim (Bool-cases (is_empty s)) [ inl e ↦ rw e tt | inr e ↦ rw e (h, tt) ]

-- A comment, or nothing, as header or footer.
pub record IsFrame (s : Bytes) : Type 0 where
  pub skipped : IsSkipped s
  pub line : OneLine s

parse_frame :
    (tag s : Bytes) (rest : List Bytes) (m : Entries)
    → IsFrame s
    → parse_lines tag (map with_cr (lines_of s) ++ rest) m ≡ parse_lines tag rest m
parse_frame tag s rest m v = elim (Bool-cases (is_empty s)) [
  | inl e ↦ rw e refl
  | inr e ↦ rw e (parse_lines-one tag tag (with_cr s) rest m m (parse_skipped tag s m v.skipped))
]

-- All the lines of a dump.
abbrev dumped : Bytes → Bytes → List Part → List Bytes
dumped header footer ps =
    (lines_of header ++ map text (plain ps)) ++ (sections [] (tagged ps) ++ [] ∷ lines_of footer)

dump-render :
    (header footer : Bytes) (ps : List Part)
    → All IsGood ps
    → dump header footer (map entry ps) ≡ render (dumped header footer ps)
unfolding dump
dump-render header footer ps h =
    let front = lines_of header ++ map text (plain ps) in
    rw
      (
        dump_loop-render ps (record { front = line_of header; output = []; tag = [] }) h,
        line_of-render header,
        line_of-render footer,
        render-append front (sections [] (tagged ps) ++ [] ∷ lines_of footer),
        render-append (lines_of header) (map text (plain ps)),
        render-append (sections [] (tagged ps)) ([] ∷ lines_of footer),
      )
      refl

text-OneLine : (p : Part) → IsGood p → OneLine (text p)
text-OneLine p v = All-append _ p.name (b'=' ∷ p.value) v.name_line ((λ e. cc), v.value_line)

plain-OneLine : (ps : List Part) → All IsGood ps → All OneLine (map text (plain ps))
plain-OneLine [] h = tt
plain-OneLine (p ∷ ps) h = elim (Bool-cases (is_empty p.tag)) [
  | inl e ↦ rw e (text-OneLine p h.0, plain-OneLine ps h.1)
  | inr e ↦ rw e (plain-OneLine ps h.1)
]

section-OneLine : (old tag : Bytes) → OneLine tag → All OneLine (section old tag)
section-OneLine old tag h = elim (Bool-cases (same_bytes old tag)) [
  | inl e ↦ rw e tt
  | inr e ↦ rw e (tt, (((λ q. cc), All-append _ tag (b']' ∷ []) h ((λ q. cc), tt)), tt))
]

sections-OneLine :
    (old : Bytes) (ps : List Part) → All IsGood ps → All OneLine (sections old (tagged ps))
sections-OneLine old [] h = tt
sections-OneLine old (p ∷ ps) h = elim (Bool-cases (is_empty p.tag)) [
  | inl e ↦ rw e (sections-OneLine old ps h.1)
  | inr e ↦ rw e (
      All-append _ (section old p.tag) _ (section-OneLine old p.tag h.0.tag_line)
        (text-OneLine p h.0, sections-OneLine p.tag ps h.1))
]

-- The entries in the order in which parse assigns them.
abbrev pub regrouped : List Part → Entries
regrouped ps = map entry (plain ps) ++ map entry (tagged ps)

find_value-regrouped :
    (key : Bytes) (ps : List Part)
    → IsDistinct (map entry ps)
    → find_value key (regrouped ps) ≡ find_value key (map entry ps)
unfolding find_value
find_value-regrouped key [] h = refl
find_value-regrouped key (p ∷ ps) h = elim (Bool-cases (is_empty p.tag)) [
  | inl e ↦ rw e (
      ap (λ o. if same_bytes (entry p).0 key then some p.value else o)
        (find_value-regrouped key ps h.1))
  | inr e ↦ rw e (
      find_value-insert key (entry p).0 p.value (map entry (plain ps)) (map entry (tagged ps))
        (find_value-regrouped (entry p).0 ps h.1 ∙ h.0)
      ∙ ap (λ o. if same_bytes (entry p).0 key then some p.value else o)
          (find_value-regrouped key ps h.1))
]

regrouped-IsDistinct : (ps : List Part) → IsDistinct (map entry ps) → IsDistinct (regrouped ps)
regrouped-IsDistinct [] h = tt
regrouped-IsDistinct (p ∷ ps) h =
    let fresh = find_value-regrouped (entry p).0 ps h.1 ∙ h.0 in
    elim (Bool-cases (is_empty p.tag)) [
      | inl e ↦ rw e (fresh, regrouped-IsDistinct ps h.1)
      | inr e ↦ rw e (
          insert-IsDistinct (entry p).0 p.value (map entry (plain ps)) (map entry (tagged ps)) fresh
            (regrouped-IsDistinct ps h.1))
    ]

assign_all-append : (a b m : Entries) → assign_all (a ++ b) m ≡ assign_all b (assign_all a m)
assign_all-append [] b m = refl
assign_all-append ((k, v) ∷ a) b m = assign_all-append a b (assign k v m)

parse_dumped :
    (header footer : Bytes) (ps : List Part)
    → All IsGood ps
    → IsFrame header
    → IsFrame footer
    → parse_lines [] (map with_cr (dumped header footer ps)) []
      ≡ parsed (assign_all (regrouped ps) [])
unfolding parse_lines
parse_dumped header footer ps h v w =
    let ending = [] ∷ lines_of footer in
    let all_sections = map with_cr (sections [] (tagged ps) ++ ending) in
    let last = last_tag [] (tagged ps) in
    let first_part = assign_all (map entry (plain ps)) [] in
    let final = assign_all (map entry (tagged ps)) first_part in
    let blank =
      parse_lines-one last last (with_cr []) (map with_cr (lines_of footer)) final final
        (parse_skipped last [] final (nil-IsClean, refl)) in
    let footing = parse_frame last footer [] final w in
    rw
      (
        map-append with_cr (lines_of header ++ map text (plain ps))
            (sections [] (tagged ps) ++ ending),
        map-append with_cr (lines_of header) (map text (plain ps)),
        append_assoc (map with_cr (lines_of header)) (map with_cr (map text (plain ps)))
            all_sections,
        assign_all-append (map entry (plain ps)) (map entry (tagged ps)) [],
      )
      (parse_frame [] header (map with_cr (map text (plain ps)) ++ all_sections) [] v
        ∙ parse-plain ps all_sections [] h
        ∙ ap (λ l. parse_lines [] l first_part)
            (map-append with_cr (sections [] (tagged ps)) ending)
        ∙ parse-sections [] ps (map with_cr ending) first_part h
        ∙ blank
        ∙ rw append-nil at footing)

-- A map is read back as it was written: for keys with a dot, each with a clean tag, which may be
-- empty, and a clean name, for clean values, and for a header and a footer that are a comment or
-- empty, parse of dump ends without an exception, and every key has the value that it had.
pub parse-dump :
    (header footer : Bytes) (ps : List Part)
    → IsFrame header
    → IsFrame footer
    → All IsGood ps
    → IsDistinct (map entry ps)
    → (m : Entries) × (parse (dump header footer (map entry ps)) [] ≡ parsed m)
      × ((key : Bytes) → find_value key m ≡ find_value key (map entry ps))
unfolding parse
parse-dump header footer ps v w h d =
    let one_line : All OneLine (dumped header footer ps) =
      All-append _ (lines_of header ++ map text (plain ps)) _
        (All-append _ (lines_of header) _ (lines_of-OneLine header v.line) (plain-OneLine ps h))
        (All-append _ (sections [] (tagged ps)) _ (sections-OneLine [] ps h)
          (tt, lines_of-OneLine footer w.line)) in
    (
      assign_all (regrouped ps) [],
      rw (dump-render header footer ps h, tokenize-render (dumped header footer ps) one_line)
          (parse_dumped header footer ps h v w),
      λ key.
          find_value-assigned key (regrouped ps) (regrouped-IsDistinct ps d)
          ∙ find_value-regrouped key ps d,
    )

-- A key without a dot is written as one with an empty tag is.
split_key_undotted :
    (name : Bytes) → All (λ c. c ≢ b'.') name → split_key name ≡ split_key (b'.' ∷ name)
unfolding split_key
split_key_undotted name h =
    rw (split_key, find_byte_none b'.' name h, find_byte b'.' [] name tt) refl

dump_undotted :
    (header footer name value : Bytes)
    → All (λ c. c ≢ b'.') name
    → dump header footer ((name, value) ∷ []) ≡ dump header footer ((b'.' ∷ name, value) ∷ [])
unfolding dump dump_loop
dump_undotted header footer name value h = rw (dump, dump_loop, split_key_undotted name h) refl

-- A key without a dot is not read back: it comes back with a dot in front of it.
pub parse-dump_undotted :
    (header footer name value : Bytes)
    → IsFrame header
    → IsFrame footer
    → All (λ c. c ≢ b'.') name
    → IsGood (record { tag = []; name = name; value = value })
    → (m : Entries) × (parse (dump header footer ((name, value) ∷ [])) [] ≡ parsed m)
      × (find_value name m ≡ none)
      × (find_value (b'.' ∷ name) m ≡ some value)
unfolding find_value
parse-dump_undotted header footer name value v w h g =
    let p : Part = record { tag = []; name = name; value = value } in
    let (m, read, values) = parse-dump header footer (p ∷ []) v w (g, tt) (refl, tt) in
    (
      m,
      ap (λ s. parse s []) (dump_undotted header footer name value h) ∙ read,
      values name ∙ rw (same_bytes-differ (b'.' ∷ name) name (dotted name h)) refl,
      values (b'.' ∷ name) ∙ rw (same_bytes_refl (b'.' ∷ name)) refl,
    )
  where
    dotted : (s : Bytes) → All (λ c. c ≢ b'.') s → b'.' ∷ s ≢ s
    dotted [] k = λ q. cc
    dotted (c ∷ s) k = λ q. let same : b'.' ≡ c = cc in k.0 (sym same)
