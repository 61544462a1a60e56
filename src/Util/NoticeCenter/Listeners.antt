-- ===== src/Util/NoticeCenter/Listeners.antt =====
-- What the notice centre of src/Util/NoticeCenter.h holds for each event.
use ffzkit.Base.{
  ℕ, suc, ◌<◌, ◌≡◌, ◌≢◌, refl, sym, ap, ◌∙◌, ◌⊎◌, subst, inl, inr, true, false, List, [], ◌∷◌,
  Option, none, some, ◌==◌, if◌then◌else◌, lookup, erase, IsDistinct, lookup-erase_same,
  lookup-erase_other, erase-IsDistinct, arith, Bool-cases, Option-cases,
}
use ffzkit.Util.NoticeCenter.{Listener, Listeners, empty, Center, store}

not_both : (o : Option ℕ) (d : ℕ) → o ≡ none → ¬ (o ≡ some d)
not_both o d p q = cc

-- An entry that is found is another one than that erased, or the one in front.
lookup-erase-some :
    (e event d : ℕ) (m : List (ℕ × ℕ))
    → IsDistinct m
    → lookup e (erase event m) ≡ some d
    → (e ≢ event) × (lookup e m ≡ some d)
lookup-erase-some e event d m v q = elim (Bool-cases (e == event)) [
  | inl p ↦
      let p' : event ≡ e = ground arith in
      let none_is : lookup e (erase event m) ≡ none =
        subst (λ x. lookup x (erase event m) ≡ none) p' (lookup-erase_same event m v) in
      absurd (not_both (lookup e (erase event m)) d none_is q)
  | inr p ↦ ((ground arith), sym (lookup-erase_other e event m p) ∙ q)
]

lookup-cons :
    (k j v d : ℕ) (m : List (ℕ × ℕ))
    → lookup k ((j, v) ∷ m) ≡ some d
    → ((j ≡ k) × (v ≡ d)) ⊎ ((j ≢ k) × (lookup k m ≡ some d))
unfolding lookup
lookup-cons k j v d m e = elim (Bool-cases (j == k)) [
  | inl p ↦ let e' : some v ≡ some d = rw p at e in inl (ground arith, cc)
  | inr p ↦ inr (ground arith, rw p at e)
]

module _ {ℓ} {F : Type ℓ} where
  -- The listeners of an event, in the order in which they are called.
  unfoldable pub listeners_of : ℕ → Center F → Listeners F
  unfolding lookup
  listeners_of event c = elim (lookup event c.map_listener) [ none ↦ [] | some d ↦ c.heap d ]

  -- No event is twice in the map, the free addresses are free, no two events share a dispatcher,
  -- and every dispatcher of the map has a listener.
  pub record IsValid (c : Center F) : Type ℓ where
    pub distinct : IsDistinct c.map_listener
    pub below : (e d : ℕ) → lookup e c.map_listener ≡ some d → d < c.next
    pub apart :
        (e e' d : ℕ) → lookup e c.map_listener ≡ some d → lookup e' c.map_listener ≡ some d → e ≡ e'
    pub used : (e d : ℕ) → lookup e c.map_listener ≡ some d → empty (c.heap d) ≡ false

  abbrev pub fresh : Center F
  fresh = record { map_listener = []; heap = λ i. []; next = 0 }

  -- What an operation leaves for an event and for the others, and that the state stays valid.
  pub record Holds (event : ℕ) (ls : Listeners F) (c c' : Center F) : Type ℓ where
    pub valid : IsValid c'
    pub here : listeners_of event c' ≡ ls
    pub others : (j : ℕ) → j ≢ event → listeners_of j c' ≡ listeners_of j c

  pub listeners_of-some :
      (j d : ℕ) (c : Center F) → lookup j c.map_listener ≡ some d → listeners_of j c ≡ c.heap d
  unfolding listeners_of
  listeners_of-some j d c e = rw (listeners_of, e) refl

  pub listeners_of-none :
      (j : ℕ) (c : Center F) → lookup j c.map_listener ≡ none → listeners_of j c ≡ []
  unfolding listeners_of
  listeners_of-none j c e = rw (listeners_of, e) refl

  -- Two states that agree on an event's entry and on its dispatcher.
  listeners_of-agree :
      (j : ℕ) (c c' : Center F)
      → lookup j c'.map_listener ≡ lookup j c.map_listener
      → ((d : ℕ) → lookup j c.map_listener ≡ some d → c'.heap d ≡ c.heap d)
      → listeners_of j c' ≡ listeners_of j c
  listeners_of-agree j c c' e h = elim (Option-cases (lookup j c.map_listener)) [
    | inl q ↦ listeners_of-none j c' (e ∙ q) ∙ sym (listeners_of-none j c q)
    | inr (d, q) ↦ listeners_of-some j d c' (e ∙ q) ∙ h d q ∙ sym (listeners_of-some j d c q)
  ]

  store_other :
      (event j d k : ℕ) (ls : Listeners F) (c : Center F)
      → IsValid c
      → lookup event c.map_listener ≡ some d
      → j ≢ event
      → lookup j c.map_listener ≡ some k
      → (store d ls c).heap k ≡ c.heap k
  store_other event j d k ls c v e ne q = elim (Bool-cases (k == d)) [
    | inl p ↦ let k-d : k ≡ d = ground arith in absurd (ne (v.apart j event d (q ∙ ap some k-d) e))
    | inr p ↦ rw p refl
  ]

  -- A dispatcher of the map gets other listeners, at least one.
  pub store-Holds :
      (event d : ℕ) (ls : Listeners F) (c : Center F)
      → IsValid c
      → lookup event c.map_listener ≡ some d
      → empty ls ≡ false
      → Holds event ls c (store d ls c)
  store-Holds event d ls c v e u =
      let same : (d == d) ≡ true = ground arith in
      record {
        valid = record {
          distinct = v.distinct;
          below = v.below;
          apart = v.apart;
          used = λ e' d' q. elim (Bool-cases (d' == d)) [
            | inl p ↦ rw p u
            | inr p ↦ rw p (v.used e' d' q)
          ];
        };
        here = listeners_of-some event d (store d ls c) e ∙ (rw same refl);
        others = λ j ne.
            listeners_of-agree j c (store d ls c) refl
              (λ k q. store_other event j d k ls c v e ne q);
      }

  -- A dispatcher without listeners goes.
  pub erase-Holds :
      (event d : ℕ) (ls : Listeners F) (c : Center F)
      → IsValid c
      → lookup event c.map_listener ≡ some d
      → Holds event [] c (record (store d ls c) { map_listener = erase event c.map_listener })
  erase-Holds event d ls c v e =
      let c' = record (store d ls c) { map_listener = erase event c.map_listener } in
      let old : (e' d' : ℕ)
          → lookup e' (erase event c.map_listener) ≡ some d'
          → (e' ≢ event) × (lookup e' c.map_listener ≡ some d') =
        λ e' d' q. lookup-erase-some e' event d' c.map_listener v.distinct q in
      record {
        valid = record {
          distinct = erase-IsDistinct event c.map_listener v.distinct;
          below = λ e' d' q. v.below e' d' (old e' d' q).1;
          apart = λ e' e'' d' q r. v.apart e' e'' d' (old e' d' q).1 (old e'' d' r).1;
          used = λ e' d' q.
              let (ne, q') = old e' d' q in
              ap empty (store_other event e' d d' ls c v e ne q') ∙ v.used e' d' q';
        };
        here = listeners_of-none event c' (lookup-erase_same event c.map_listener v.distinct);
        others = λ j ne.
            listeners_of-agree j c c' (lookup-erase_other j event c.map_listener (ground arith))
              (λ k q. store_other event j d k ls c v e ne q);
      }

  -- A new dispatcher with its first listener.
  pub create-Holds :
      (event : ℕ) (x : ℕ × Listener F) (c : Center F)
      → IsValid c
      → lookup event c.map_listener ≡ none
      → Holds event (x ∷ []) c (record {
        map_listener = (event, c.next) ∷ c.map_listener;
        heap = λ i. if i == c.next then x ∷ [] else (if i == c.next then [] else c.heap i);
        next = suc c.next;
      })
  unfolding lookup
  create-Holds event x c v e =
      let c' : Center F = record {
        map_listener = (event, c.next) ∷ c.map_listener;
        heap = λ i. if i == c.next then x ∷ [] else (if i == c.next then [] else c.heap i);
        next = suc c.next;
      } in
      let same : (c.next == c.next) ≡ true = ground arith in
      let first : (event == event) ≡ true = ground arith in
      let old : (e' d : ℕ) → lookup e' c.map_listener ≡ some d → (d == c.next) ≡ false =
        λ e' d q. let b = v.below e' d q in ground arith in
      record {
        valid = record {
          distinct = (e, v.distinct);
          below = λ e' d q. elim (lookup-cons e' event c.next d c.map_listener q) [
            | inl (p, r) ↦ omega (arith, r)
            | inr (p, r) ↦ let b = v.below e' d r in omega (arith, b)
          ];
          apart = λ e' e'' d q r. elim (lookup-cons e' event c.next d c.map_listener q) [
            | inl a ↦ elim (lookup-cons e'' event c.next d c.map_listener r) [
              | inl b ↦ sym a.0 ∙ b.0
              | inr b ↦ let k = v.below e'' d b.1 in absurd (omega (arith, k, a.1))
            ]
            | inr a ↦ elim (lookup-cons e'' event c.next d c.map_listener r) [
              | inl b ↦ let k = v.below e' d a.1 in absurd (omega (arith, k, b.1))
              | inr b ↦ v.apart e' e'' d a.1 b.1
            ]
          ];
          used = λ e' d q. elim (lookup-cons e' event c.next d c.map_listener q) [
            | inl (p, r) ↦ let k : (d == c.next) ≡ true = ground (arith, r) in rw k refl
            | inr (p, r) ↦ rw (old e' d r) (v.used e' d r)
          ];
        };
        here = listeners_of-some event c.next c' (rw first refl) ∙ (rw same refl);
        others = λ j ne.
            listeners_of-agree j c c' (let k : (event == j) ≡ false = ground arith in rw k refl)
              (λ d q. rw (old j d q) refl);
      }
