-- ===== src/Network/Sockets/Dns/Chosen.antt =====
-- Which of the addresses of an answer getPreferredAddress of src/Network/sockutil.cpp takes.
use ffzkit.Base.{
  ◌≡◌, refl, ap, ◌∙◌, ◌⊎◌, inl, inr, true, false, List, [], ◌∷◌, ◌++◌, none, some, Bool-cases, All,
}
use ffzkit.Network.Sockets.{Sockaddr, AddrInfo}
use ffzkit.Network.Sockets.Dns.{Request, is_preferred, first_preferred, get_preferred_address}

abbrev IsOther : Request → AddrInfo → Type 0
IsOther r a = is_preferred r a ≡ false

-- The address of the first item that has the family, the type and the protocol of the request, or of
-- the first item, if none has them.
abbrev pub IsChosen : Request → List AddrInfo → Sockaddr → Type 0
IsChosen r info addr =
    (a : AddrInfo) × (addr ≡ a.ai_addr)
    × (((before : List AddrInfo) × (after : List AddrInfo) × (info ≡ before ++ a ∷ after)
          × All (IsOther r) before
          × (is_preferred r a ≡ true))
        ⊎ ((rest : List AddrInfo) × (info ≡ a ∷ rest) × All (IsOther r) info))

first_preferred_lem :
    (r : Request) (info : List AddrInfo)
    → ((first_preferred r info ≡ none) × All (IsOther r) info)
      ⊎ ((a : AddrInfo) × (before : List AddrInfo) × (after : List AddrInfo) × (first_preferred r
              info
            ≡ some a)
          × (info ≡ before ++ a ∷ after)
          × All (IsOther r) before
          × (is_preferred r a ≡ true))
unfolding first_preferred
first_preferred_lem r [] = inl (refl, tt)
first_preferred_lem r (x ∷ info) = elim (Bool-cases (is_preferred r x)) [
  | inl e ↦ inr (
    x,
    [],
    info,
    let f : first_preferred r (x ∷ info) ≡ some x = rw (first_preferred, e) refl in f,
    refl,
    tt,
    e,
  )
  | inr e ↦
      let skip : first_preferred r (x ∷ info) ≡ first_preferred r info =
        rw (first_preferred, e) refl in
      elim (first_preferred_lem r info) [
        | inl (gone, others) ↦ inl (skip ∙ gone, (e, others))
        | inr (a, before, after, f, g, h, p) ↦
            inr (a, x ∷ before, after, skip ∙ f, ap (λ l. x ∷ l) g, (e, h), p)
      ]
]

pub use_item-IsChosen :
    (r : Request) (a : AddrInfo) (next : List AddrInfo)
    → IsChosen r (a ∷ next) (get_preferred_address r a next).ai_addr
unfolding get_preferred_address
use_item-IsChosen r a next = elim (first_preferred_lem r (a ∷ next)) [
  | inl (gone, others) ↦ rw (get_preferred_address, gone) (a, refl, inr (next, refl, others))
  | inr (x, before, after, f, g, h, p) ↦
      rw (get_preferred_address, f) (x, refl, inl (before, after, g, h, p))
]
