-- ===== src/Util/Logger/Repeats.antt =====
-- No log is lost where repeated ones are put together.
use mathlib.Core.List.{append_assoc, append-nil}
use ffzkit.Base.{
  Bytes, same_bytes-eq, ℕ, zero, suc, ◌+◌, ◌^◌, ◌≤◌, ◌<◌, ltb, length, subst, ◌≡◌, refl, sym, ap,
  ◌∙◌, true, false, List, [], ◌∷◌, ◌++◌, ◌==◌, ==_iff, replicate, inl, inr, Bool-cases, All, arith,
}
use ffzkit.Util.Logger.{
  default_name, printers, Message, Context, Logger, shown_by, write_channels_l, is_late,
  same_message, counted, write_channels,
}

-- A printed log stands for as many as the number that is printed with it, and for one where none is.
abbrev pub times : ℕ → ℕ
times zero = 1
times (suc n) = suc n

-- The messages that the printed logs stand for.
abbrev pub messages : List (Context × List Bytes) → List Message
messages [] = []
messages ((ctx, names) ∷ ps) = replicate (times ctx.repeat) ctx.message ++ messages ps

messages-append :
    (ps qs : List (Context × List Bytes)) → messages (ps ++ qs) ≡ messages ps ++ messages qs
messages-append [] qs = refl
messages-append ((ctx, names) ∷ ps) qs =
    ap (λ l. replicate (times ctx.repeat) ctx.message ++ l) (messages-append ps qs)
    ∙ sym (append_assoc (replicate (times ctx.repeat) ctx.message) (messages ps) (messages qs))

-- Those, and then the repeats that are counted and not printed yet.
abbrev pub accounted : Logger → List Message
accounted s = messages s.printed ++ replicate s.last_log.repeat s.last_log.message

replicate-snoc {ℓ} : {A : Type ℓ} (n : ℕ) (a : A) → replicate (n + 1) a ≡ replicate n a ++ a ∷ []
replicate-snoc zero a = refl
replicate-snoc (suc n) a =
    let e : suc n + 1 ≡ suc (n + 1) = omega arith in
    ap (λ k. replicate k a) e ∙ ap (λ l. a ∷ l) (replicate-snoc n a)

same_message-eq : (a b : Message) → same_message a b ≡ true → a ≡ b
unfolding same_message
same_message-eq a b e =
    let line : a.line ≡ b.line = (==_iff a.line b.line).0 (ground arith) in
    let file : a.file ≡ b.file = same_bytes-eq a.file b.file (ground arith) in
    let text : a.text ≡ b.text = same_bytes-eq a.text b.text (ground arith) in
    let name : a.thread_name ≡ b.thread_name =
      same_bytes-eq a.thread_name b.thread_name (ground arith) in
    λ i. record { file = file i; line = line i; text = text i; thread_name = name i }

accounted-counted : (s : Logger) → accounted (counted s) ≡ accounted s ++ s.last_log.message ∷ []
accounted-counted s =
    ap (λ l. messages s.printed ++ l) (replicate-snoc s.last_log.repeat s.last_log.message)
    ∙ sym (
        append_assoc (messages s.printed) (replicate s.last_log.repeat s.last_log.message)
          (s.last_log.message ∷ []))

-- What is printed is accounted for, and nothing is counted behind it.
accounted-write :
    (ctx : Context) (s : Logger)
    → accounted (write_channels_l ctx s)
      ≡ messages s.printed ++ replicate (times ctx.repeat) ctx.message
unfolding write_channels_l
accounted-write ctx s =
    append-nil (messages (s.printed ++ (ctx, shown_by s ctx) ∷ []))
    ∙ messages-append s.printed ((ctx, shown_by s ctx) ∷ [])
    ∙ ap (λ l. messages s.printed ++ l) (append-nil (replicate (times ctx.repeat) ctx.message))

times_pos : (n : ℕ) → (n == 0) ≡ false → times n ≡ n
times_pos zero h = absurd (cc)
times_pos (suc n) h = refl

settled :
    (s : Logger)
    → (s.last_log.repeat == 0) ≡ false
    → messages (write_channels_l s.last_log s).printed ≡ accounted s
unfolding write_channels_l
settled s h =
    sym (append-nil (messages (write_channels_l s.last_log s).printed))
    ∙ accounted-write s.last_log s
    ∙ ap (λ n. messages s.printed ++ replicate n s.last_log.message) (times_pos s.last_log.repeat h)

write_channels-one :
    (ctx : Context) (s : Logger)
    → ctx.repeat ≡ 0
    → accounted (write_channels ctx s) ≡ accounted s ++ ctx.message ∷ []
unfolding write_channels
write_channels-one ctx s r = elim (Bool-cases (same_message ctx.message s.last_log.message)) [
  | inl e ↦
      let m = same_message-eq ctx.message s.last_log.message e in
      let one : accounted s ++ s.last_log.message ∷ [] ≡ accounted s ++ ctx.message ∷ [] =
        ap (λ x. accounted s ++ x ∷ []) (sym m) in
      elim (Bool-cases (is_late s.last_log ctx)) [
        | inl l ↦
            let again = record ctx { repeat = s.last_log.repeat + 1 } in
            let w : write_channels ctx s ≡ write_channels_l again (counted s) =
              rw (write_channels, e, l) refl in
            let n : times (s.last_log.repeat + 1) ≡ s.last_log.repeat + 1 =
              times_pos (s.last_log.repeat + 1) (ground arith) in
            ap accounted w
            ∙ accounted-write again (counted s)
            ∙ ap (λ k. messages s.printed ++ replicate k ctx.message) n
            ∙ ap (λ x. messages s.printed ++ replicate (s.last_log.repeat + 1) x) m
            ∙ accounted-counted s
            ∙ one
        | inr l ↦
            let w : write_channels ctx s ≡ counted s = rw (write_channels, e, l) refl in
            ap accounted w ∙ accounted-counted s ∙ one
      ]
  | inr e ↦
      let single : times ctx.repeat ≡ 1 = ap times r in
      elim (Bool-cases (s.last_log.repeat == 0)) [
        | inl z ↦
            let w : write_channels ctx s ≡ write_channels_l ctx s =
              rw (write_channels, e, z) refl in
            let none_counted : accounted s ≡ messages s.printed =
              ap (λ n. messages s.printed ++ replicate n s.last_log.message)
                ((==_iff s.last_log.repeat 0).0 z)
              ∙ append-nil (messages s.printed) in
            ap accounted w
            ∙ accounted-write ctx s
            ∙ ap (λ n. messages s.printed ++ replicate n ctx.message) single
            ∙ ap (λ l. l ++ ctx.message ∷ []) (sym none_counted)
        | inr z ↦
            let shown = write_channels_l s.last_log s in
            let w : write_channels ctx s ≡ write_channels_l ctx shown =
              rw (write_channels, e, z) refl in
            ap accounted w
            ∙ accounted-write ctx shown
            ∙ ap (λ n. messages shown.printed ++ replicate n ctx.message) single
            ∙ ap (λ l. l ++ ctx.message ∷ []) (settled s z)
      ]
]

unfoldable pub write_all : List Context → Logger → Logger
write_all [] s = s
write_all (ctx ∷ ctxs) s = write_all ctxs (write_channels ctx s)

abbrev pub message_list : List Context → List Message
message_list [] = []
message_list (ctx ∷ ctxs) = ctx.message ∷ message_list ctxs

-- The channels, or the default one where there are none.
abbrev pub channels_of : List (Bytes × ℕ) → ℕ → List (Bytes × ℕ)
channels_of [] default_level = (default_name, default_level) ∷ []
channels_of (ch ∷ chs) default_level = ch ∷ chs

-- The names of those that let a level through, in their order.
pub data Shows (level : ℕ) : List (Bytes × ℕ) → List Bytes → Type 0 where
  none_left : Shows level [] []
  passes :
      {n : Bytes} {l : ℕ} {chs : List (Bytes × ℕ)} {ns : List Bytes}
      → l ≤ level
      → Shows level chs ns
      → Shows level ((n, l) ∷ chs) (n ∷ ns)
  blocks :
      {n : Bytes} {l : ℕ} {chs : List (Bytes × ℕ)} {ns : List Bytes}
      → level < l
      → Shows level chs ns
      → Shows level ((n, l) ∷ chs) ns

printers-Shows : (chs : List (Bytes × ℕ)) (level : ℕ) → Shows level chs (printers chs level)
unfolding printers
printers-Shows [] level = none_left
printers-Shows ((n, l) ∷ chs) level =
    let rest = printers-Shows chs level in
    elim (Bool-cases (ltb level l)) [
      | inl e ↦ rw (printers, e) (blocks (ground arith) rest)
      | inr e ↦ rw (printers, e) (passes (ground arith) rest)
    ]

shown_by-Shows :
    (s : Logger) (ctx : Context)
    → Shows ctx.level (channels_of s.channels s.default_level) (shown_by s ctx)
unfolding shown_by
shown_by-Shows s ctx = by_channels s.channels s.default_level ctx.level
  where
    by_channels :
        (chs : List (Bytes × ℕ)) (d level : ℕ)
        → Shows level (channels_of chs d) (elim chs [
          | [] ↦ printers ((default_name, d) ∷ []) level
          | ch ∷ rest ↦ printers (ch ∷ rest) level
        ])
    by_channels [] d level = printers-Shows ((default_name, d) ∷ []) level
    by_channels (ch ∷ chs) d level = printers-Shows (ch ∷ chs) level

-- A printed log was given to every channel that lets it through, and its number is one that an int
-- holds.
abbrev pub IsPrinted : List (Bytes × ℕ) → ℕ → Context × List Bytes → Type 0
IsPrinted chs d (ctx, names) = Shows ctx.level (channels_of chs d) names × (ctx.repeat < 2 ^ 31)

abbrev IsKept : List (Bytes × ℕ) → ℕ → Logger → Type 0
IsKept chs d s = (s.channels ≡ chs) × (s.default_level ≡ d) × All (IsPrinted chs d) s.printed

All-snoc {ℓ κ} :
    {A : Type ℓ} (P : A → Type κ) (xs : List A) (x : A) → All P xs → P x → All P (xs ++ x ∷ [])
All-snoc P [] x h p = (p, tt)
All-snoc P (y ∷ xs) x h p = (h.0, All-snoc P xs x h.1 p)

write_channels_l-IsKept :
    (chs : List (Bytes × ℕ)) (d : ℕ) (ctx : Context) (s : Logger)
    → ctx.repeat < 2 ^ 31
    → IsKept chs d s
    → IsKept chs d (write_channels_l ctx s)
unfolding write_channels_l
write_channels_l-IsKept chs d ctx s b (e, f, h) = (
  e,
  f,
  All-snoc (IsPrinted chs d) s.printed (ctx, shown_by s ctx) h
      (
        subst (λ c. Shows ctx.level (channels_of c d) (shown_by s ctx)) e
            (subst (λ x. Shows ctx.level (channels_of s.channels x) (shown_by s ctx)) f
              (shown_by-Shows s ctx)),
        b,
      ),
)

write_channels-IsKept :
    (chs : List (Bytes × ℕ)) (d : ℕ) (ctx : Context) (s : Logger)
    → ctx.repeat ≡ 0
    → s.last_log.repeat + 1 < 2 ^ 31
    → IsKept chs d s
    → IsKept chs d (write_channels ctx s)
      × ((write_channels ctx s).last_log.repeat ≤ s.last_log.repeat + 1)
unfolding write_channels write_channels_l
write_channels-IsKept chs d ctx s z b h =
    elim (Bool-cases (same_message ctx.message s.last_log.message)) [
      | inl e ↦ elim (Bool-cases (is_late s.last_log ctx)) [
        | inl l ↦
            let again = record ctx { repeat = s.last_log.repeat + 1 } in
            rw (write_channels, e, l)
              (write_channels_l-IsKept chs d again (counted s) b h, omega arith)
        | inr l ↦ rw (write_channels, e, l) (h, omega arith)
      ]
      | inr e ↦ elim (Bool-cases (s.last_log.repeat == 0)) [
        | inl y ↦
            rw (write_channels, e, y)
              (write_channels_l-IsKept chs d ctx s (omega (arith, z)) h, omega arith)
        | inr y ↦
            let shown = write_channels_l s.last_log s in
            rw (write_channels, e, y)
              (
                write_channels_l-IsKept chs d ctx shown (omega (arith, z))
                    (write_channels_l-IsKept chs d s.last_log s (omega arith) h),
                omega arith,
              )
      ]
    ]

write_all-IsKept :
    (chs : List (Bytes × ℕ)) (d : ℕ) (ctxs : List Context) (s : Logger)
    → All (λ ctx. ctx.repeat ≡ 0) ctxs
    → s.last_log.repeat + length ctxs < 2 ^ 31
    → IsKept chs d s
    → IsKept chs d (write_all ctxs s)
unfolding write_all
write_all-IsKept chs d [] s z b h = h
write_all-IsKept chs d (ctx ∷ ctxs) s z b h =
    let (k, m) = write_channels-IsKept chs d ctx s z.0 (omega arith) h in
    write_all-IsKept chs d ctxs (write_channels ctx s) z.1 (omega arith) k

accounted_all :
    (ctxs : List Context) (s : Logger)
    → All (λ ctx. ctx.repeat ≡ 0) ctxs
    → accounted (write_all ctxs s) ≡ accounted s ++ message_list ctxs
unfolding write_all
accounted_all [] s h = sym (append-nil (accounted s))
accounted_all (ctx ∷ ctxs) s h =
    accounted_all ctxs (write_channels ctx s) h.1
    ∙ ap (λ l. l ++ message_list ctxs) (write_channels-one ctx s h.0)
    ∙ append_assoc (accounted s) (ctx.message ∷ []) (message_list ctxs)

-- No log is lost and none is invented where repeated ones are put together: what the printed logs
-- stand for, each as often as the number printed with it says, followed by the repeats that are
-- counted but not printed yet, is what was written, in the order in which it was written. Every log
-- that is printed goes to exactly those channels whose level lets it through, or to the default one
-- where there are none, and its number fits an int. The logs are new, and fewer than 2 ^ 31 with the
-- repeats that are counted before.
pub accounted-write_all :
    (ctxs : List Context) (s : Logger)
    → All (λ ctx. ctx.repeat ≡ 0) ctxs
    → s.last_log.repeat + length ctxs < 2 ^ 31
    → All (IsPrinted s.channels s.default_level) s.printed
    → (accounted (write_all ctxs s) ≡ accounted s ++ message_list ctxs)
      × All (IsPrinted s.channels s.default_level) (write_all ctxs s).printed
accounted-write_all ctxs s z b h = (
  accounted_all ctxs s z,
  (write_all-IsKept s.channels s.default_level ctxs s z b (refl, refl, h)).2,
)
