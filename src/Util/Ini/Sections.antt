-- ===== src/Util/Ini/Sections.antt =====
-- The lines of dump of src/Util/mini.h, and what parse makes of them.
use mathlib.Core.List.{append_assoc, append-nil}
use ffzkit.Util.Text.Find.{find_byte}
use ffzkit.Base.{
  Bytes, same_bytes, same_bytes-eq, ◌≡◌, ◌≢◌, refl, sym, ap, ◌∙◌, subst, inl, inr, true, false,
  List, [], ◌∷◌, ◌++◌, map, some, if◌then◌else◌, All, take-length, drop-length, Bool-cases,
}
use ffzkit.Util.Ini.{
  is_empty, Entries, assign, parse_line, parse_lines, split_key, Dump, dump_parts, dump_loop,
  assignment, crlf,
}
use ffzkit.Util.Ini.Lines.{IsClean, IsName, nil-IsClean, parse_entry, parse_section, parse_skipped}
use ffzkit.Util.Ini.Maps.{assign_all}
use ffzkit.Util.Ini.Tokens.{OneLine, render, render-append, with_cr}

-- An entry by its tag, which may be empty, its name and its value.
pub record Part : Type 0 where
  pub tag : Bytes
  pub name : Bytes
  pub value : Bytes

abbrev pub entry : Part → Bytes × Bytes
entry p = (p.tag ++ b'.' ∷ p.name, p.value)

pub record IsGood (p : Part) : Type 0 where
  pub tag_clean : IsClean p.tag
  pub tag_line : OneLine p.tag
  pub tag_dot : All (λ c. c ≢ b'.') p.tag
  pub name_is : IsName p.name
  pub name_line : OneLine p.name
  pub value_clean : IsClean p.value
  pub value_line : OneLine p.value

abbrev pub text : Part → Bytes
text p = p.name ++ b'=' ∷ p.value

-- The parts without a tag, and those with one, in order.
abbrev pub plain : List Part → List Part
plain [] = []
plain (p ∷ ps) = if is_empty p.tag then p ∷ plain ps else plain ps

abbrev pub tagged : List Part → List Part
tagged [] = []
tagged (p ∷ ps) = if is_empty p.tag then tagged ps else p ∷ tagged ps

-- The lines that dump writes for parts with tags.
abbrev pub section : Bytes → Bytes → List Bytes
section old tag = if same_bytes old tag then [] else [] ∷ (b'[' ∷ (tag ++ b']' ∷ [])) ∷ []

abbrev pub sections : Bytes → List Part → List Bytes
sections old [] = []
sections old (p ∷ ps) = section old p.tag ++ text p ∷ sections p.tag ps

abbrev pub last_tag : Bytes → List Part → Bytes
last_tag old [] = old
last_tag old (p ∷ ps) = last_tag p.tag ps

split_key-entry : (p : Part) → IsGood p → split_key (entry p).0 ≡ (p.tag, p.name)
unfolding split_key
split_key-entry p v =
    rw
      (
        split_key,
        find_byte b'.' p.tag p.name v.tag_dot,
        take-length p.tag (b'.' ∷ p.name),
        drop-length p.tag p.name b'.',
      )
      refl

assignment-render : (p : Part) → assignment p.name p.value ≡ render (text p ∷ [])
assignment-render p = sym (append_assoc p.name (b'=' ∷ p.value) crlf)

dump_parts-plain :
    (p : Part) (d : Dump)
    → is_empty p.tag ≡ true
    → dump_parts p.tag p.name p.value d ≡ record d { front = d.front ++ render (text p ∷ []) }
unfolding dump_parts
dump_parts-plain p d e = rw (e, assignment-render p) refl

section-render :
    (old tag : Bytes)
    → (if same_bytes old tag then [] else crlf ++ (b'[' ∷ tag ++ (b']' ∷ crlf)))
      ≡ render (section old tag)
section-render old tag = elim (Bool-cases (same_bytes old tag)) [
  | inl e ↦ rw e refl
  | inr e ↦
      rw e (
        ap (λ l. b'\r' ∷ b'\n' ∷ b'[' ∷ l)
          (sym (append_assoc tag (b']' ∷ []) (b'\r' ∷ b'\n' ∷ []))))
]

dump_parts-tagged :
    (p : Part) (d : Dump)
    → is_empty p.tag ≡ false
    → dump_parts p.tag p.name p.value d
      ≡ record d { output = d.output ++ render (section d.tag p.tag ++ text p ∷ []); tag = p.tag }
unfolding dump_parts
dump_parts-tagged p d e =
    rw
      (
        e,
        section-render d.tag p.tag,
        assignment-render p,
        render-append (section d.tag p.tag) (text p ∷ []),
      )
      (ap (λ o. record d { output = o; tag = p.tag })
        (append_assoc d.output (render (section d.tag p.tag)) (render (text p ∷ []))))

render-behind : (a : Bytes) (x y : List Bytes) → (a ++ render x) ++ render y ≡ a ++ render (x ++ y)
render-behind a x y =
    append_assoc a (render x) (render y) ∙ ap (λ r. a ++ r) (sym (render-append x y))

pub dump_loop-render :
    (ps : List Part) (d : Dump)
    → All IsGood ps
    → dump_loop (map entry ps) d ≡ record {
      front = d.front ++ render (map text (plain ps));
      output = d.output ++ render (sections d.tag (tagged ps));
      tag = last_tag d.tag (tagged ps);
    }
unfolding dump_loop
dump_loop-render [] d h = rw (append-nil d.front, append-nil d.output) refl
dump_loop-render (p ∷ ps) d h = elim (Bool-cases (is_empty p.tag)) [
  | inl e ↦
      let d' : Dump = record d { front = d.front ++ render (text p ∷ []) } in
      let step : dump_loop (map entry (p ∷ ps)) d ≡ dump_loop (map entry ps) d' =
        rw (dump_loop, split_key-entry p h.0, dump_parts-plain p d e) refl in
      rw e (
        step
        ∙ dump_loop-render ps d' h.1
        ∙ ap
            (λ f. record {
              front = f;
              output = d.output ++ render (sections d.tag (tagged ps));
              tag = last_tag d.tag (tagged ps);
            })
            (render-behind d.front (text p ∷ []) (map text (plain ps))))
  | inr e ↦
      let head = section d.tag p.tag ++ text p ∷ [] in
      let d' : Dump = record d { output = d.output ++ render head; tag = p.tag } in
      let step : dump_loop (map entry (p ∷ ps)) d ≡ dump_loop (map entry ps) d' =
        rw (dump_loop, split_key-entry p h.0, dump_parts-tagged p d e) refl in
      rw e (
        step
        ∙ dump_loop-render ps d' h.1
        ∙ ap
            (λ o. record {
              front = d.front ++ render (map text (plain ps));
              output = o;
              tag = last_tag p.tag (tagged ps);
            })
            (render-behind d.output head (sections p.tag (tagged ps))
              ∙ ap (λ l. d.output ++ render l)
                  (append_assoc (section d.tag p.tag) (text p ∷ []) (sections p.tag (tagged ps)))))
]

pub parse_lines-one :
    (tag tag' line : Bytes) (lines : List Bytes) (m m' : Entries)
    → parse_line tag line m ≡ some (tag', m')
    → parse_lines tag (line ∷ lines) m ≡ parse_lines tag' lines m'
unfolding parse_lines
parse_lines-one tag tag' line lines m m' e = rw (parse_lines, e) refl

parse_text :
    (p : Part) (lines : List Bytes) (m : Entries)
    → IsGood p
    → parse_lines p.tag (with_cr (text p) ∷ lines) m
      ≡ parse_lines p.tag lines (assign (entry p).0 p.value m)
parse_text p lines m v =
    parse_lines-one p.tag p.tag (with_cr (text p)) lines m _
      (parse_entry p.tag p.name p.value m v.name_is v.tag_clean v.value_clean)

is_empty-nil : (s : Bytes) → is_empty s ≡ true → s ≡ []
is_empty-nil [] e = refl
is_empty-nil (c ∷ s) e = cc

pub is_empty-ne : (s : Bytes) → is_empty s ≡ false → s ≢ []
is_empty-ne [] e = cc
is_empty-ne (c ∷ s) e = λ q. cc

parse_heading :
    (old tag : Bytes) (lines : List Bytes) (m : Entries)
    → IsClean tag
    → tag ≢ []
    → parse_lines old (map with_cr (section old tag) ++ lines) m ≡ parse_lines tag lines m
parse_heading old tag lines m v ne = elim (Bool-cases (same_bytes old tag)) [
  | inl e ↦ rw e (ap (λ t. parse_lines t lines m) (same_bytes-eq old tag e))
  | inr e ↦ rw e (
      parse_lines-one old old (with_cr []) _ m m (parse_skipped old [] m (nil-IsClean, refl))
      ∙ parse_lines-one old tag _ lines m m (parse_section old tag m v ne))
]

pub map-append {ℓ κ} :
    {A : Type ℓ} {B : Type κ} (f : A → B) (xs ys : List A) → map f (xs ++ ys) ≡ map f xs ++ map f ys
map-append f [] ys = refl
map-append f (x ∷ xs) ys = ap (λ l. f x ∷ l) (map-append f xs ys)

pub parse-plain :
    (ps : List Part) (rest : List Bytes) (m : Entries)
    → All IsGood ps
    → parse_lines [] (map with_cr (map text (plain ps)) ++ rest) m
      ≡ parse_lines [] rest (assign_all (map entry (plain ps)) m)
parse-plain [] rest m h = refl
parse-plain (p ∷ ps) rest m h = elim (Bool-cases (is_empty p.tag)) [
  | inl e ↦
      let no_tag = is_empty-nil p.tag e in
      let lines = map with_cr (map text (plain ps)) ++ rest in
      rw e (
        subst
          (λ t.
            parse_lines t (with_cr (text p) ∷ lines) m
            ≡ parse_lines t lines (assign (entry p).0 p.value m))
          no_tag (parse_text p lines m h.0)
        ∙ parse-plain ps rest (assign (entry p).0 p.value m) h.1)
  | inr e ↦ rw e (parse-plain ps rest m h.1)
]

pub parse-sections :
    (old : Bytes) (ps : List Part) (rest : List Bytes) (m : Entries)
    → All IsGood ps
    → parse_lines old (map with_cr (sections old (tagged ps)) ++ rest) m
      ≡ parse_lines (last_tag old (tagged ps)) rest (assign_all (map entry (tagged ps)) m)
parse-sections old [] rest m h = refl
parse-sections old (p ∷ ps) rest m h = elim (Bool-cases (is_empty p.tag)) [
  | inl e ↦ rw e (parse-sections old ps rest m h.1)
  | inr e ↦
      let lines = map with_cr (sections p.tag (tagged ps)) ++ rest in
      let cut : map with_cr (section old p.tag ++ text p ∷ sections p.tag (tagged ps)) ++ rest
          ≡ map with_cr (section old p.tag) ++ (with_cr (text p) ∷ lines) =
        ap (λ l. l ++ rest)
          (map-append with_cr (section old p.tag) (text p ∷ sections p.tag (tagged ps)))
        ∙ append_assoc (map with_cr (section old p.tag)) _ rest in
      rw e (
        ap (λ l. parse_lines old l m) cut
        ∙ parse_heading old p.tag (with_cr (text p) ∷ lines) m h.0.tag_clean (is_empty-ne p.tag e)
        ∙ parse_text p lines m h.0
        ∙ parse-sections p.tag ps rest (assign (entry p).0 p.value m) h.1)
]
