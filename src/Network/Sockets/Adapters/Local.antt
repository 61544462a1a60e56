-- ===== src/Network/Sockets/Adapters/Local.antt =====
-- Which address get_local_ip of src/Network/sockutil.cpp answers, and what the adapters leave open.
use ffzkit.Base.{
  Bytes, codes, same_bytes, ◌+◌, ◌*◌, ◌^◌, ◌≡◌, refl, ap, ◌∙◌, sym, inl, inr, Bool, false, not,
  ◌&&◌, ◌||◌, List, [], ◌∷◌, Option, none, some, or_else, or_else-none, is_some, ltb, leb,
  if◌then◌else◌, Bool-cases, Option-cases,
}
use ffzkit.Util.Text.Find.{find}
use ffzkit.Network.Sockets.{
  Family, dgram, Protocol, socket, ioctl_siocgifconf, Ifreq, System, Log, Net, call,
}
use ffzkit.Network.Sockets.Addresses.{inet_ntoa}
use ffzkit.Network.Sockets.Adapters.{
  each_adapter, with_conf, with_socket, for_each_net_adapter, loopback, any_address, check_ip,
  local_callback, get_local_ip,
}

abbrev pub value_or : Option Bytes → Bytes → Bytes
value_or none d = d
value_or (some b) d = b

value_or-last :
    (p l : Option Bytes) (b d : Bytes)
    → value_or (or_else p l) b ≡ value_or (or_else p (or_else l (some b))) d
value_or-last none none b d = refl
value_or-last none (some y) b d = refl
value_or-last (some x) l b d = refl

module _ (sys : System) where
  -- An address that is not the loopback or the wildcard, of an adapter that is not one of docker.
  is_usable : Ifreq → Bool
  is_usable a =
      not (is_some (find (codes "docker") a.ifr_name))
      && not (same_bytes (inet_ntoa sys a.ifr_addr) loopback)
      && not (same_bytes (inet_ntoa sys a.ifr_addr) any_address)

  -- 172.16.0.0 to 172.31.255.255, and 192.168.0.0 to 192.168.255.255.
  is_private : Bytes → Bool
  is_private ip =
      let n = sys.htonl (sys.inet_addr ip) in
      leb (172 * 2 ^ 24 + 16 * 2 ^ 16) n && ltb n (172 * 2 ^ 24 + 32 * 2 ^ 16)
      || leb (192 * 2 ^ 24 + 168 * 2 ^ 16) n && ltb n (192 * 2 ^ 24 + 169 * 2 ^ 16)

  -- The first private address among those that can be used, and the last that can be used.
  unfoldable pub first_private : List Ifreq → Option Bytes
  unfolding is_usable is_private
  first_private [] = none
  first_private (a ∷ adapters) =
      if is_usable a && is_private (inet_ntoa sys a.ifr_addr)
      then some (inet_ntoa sys a.ifr_addr)
      else first_private adapters

  unfoldable pub last_usable : List Ifreq → Option Bytes
  unfolding is_usable
  last_usable [] = none
  last_usable (a ∷ adapters) =
      or_else (last_usable adapters) (if is_usable a then some (inet_ntoa sys a.ifr_addr) else none)

  local_callback_lem :
      (a : Ifreq) (address : Bytes)
      → local_callback sys a address ≡ (
          if is_usable a
          then (is_private (inet_ntoa sys a.ifr_addr), inet_ntoa sys a.ifr_addr)
          else (false, address))
  unfolding local_callback check_ip is_usable is_private
  local_callback_lem a address = elim (Bool-cases (is_some (find (codes "docker") a.ifr_name))) [
    | inl e ↦ rw e refl
    | inr e ↦ rw e refl
  ]

  each_adapter-local :
      (adapters : List Ifreq) (address : Bytes)
      → each_adapter (local_callback sys) adapters address
        ≡ value_or (or_else (first_private adapters) (last_usable adapters)) address
  unfolding each_adapter first_private last_usable
  each_adapter-local [] address = refl
  each_adapter-local (a ∷ adapters) address = elim (Bool-cases (is_usable a)) [
    | inl u ↦ elim (Bool-cases (is_private (inet_ntoa sys a.ifr_addr))) [
      | inl p ↦ rw (each_adapter, local_callback_lem a address, u, p) refl
      | inr p ↦
          rw (each_adapter, local_callback_lem a address, u, p)
            (each_adapter-local adapters (inet_ntoa sys a.ifr_addr)
              ∙ value_or-last (first_private adapters) (last_usable adapters)
                  (inet_ntoa sys a.ifr_addr) address)
    ]
    | inr u ↦
        rw (each_adapter, local_callback_lem a address, u)
          (each_adapter-local adapters address
            ∙ sym (
                ap (λ x. value_or (or_else (first_private adapters) x) address)
                  (or_else-none (last_usable adapters))))
  ]

  -- The adapters that the system lists behind the socket, and none where one of the two calls fails.
  abbrev pub listed : Log → List Ifreq
  listed h =
      let made = socket Family.inet dgram (Protocol.ip 0) in
      elim (sys.answer h made) [
        | none ↦ []
        | some fd ↦
            let h' = (made, some fd) ∷ h in
            elim (sys.answer h' (ioctl_siocgifconf fd)) [
              | none ↦ []
              | some ret ↦ sys.adapters ((ioctl_siocgifconf fd, some ret) ∷ h')
            ]
      ]

  for_each_net_adapter-each :
      {S : Type 0} (fun : Ifreq → S → Bool × S) (init : S) (s : Net)
      → (for_each_net_adapter sys fun init s).0 ≡ each_adapter fun (listed s.log) init
  unfolding for_each_net_adapter with_socket with_conf each_adapter call
  for_each_net_adapter-each fun init s =
      let made = socket Family.inet dgram (Protocol.ip 0) in
      elim (Option-cases (sys.answer s.log made)) [
        | inl e ↦ rw (e, listed) refl
        | inr (fd, e) ↦
            elim (Option-cases (sys.answer ((made, some fd) ∷ s.log) (ioctl_siocgifconf fd))) [
              | inl f ↦ rw (e, listed, f) refl
              | inr (r, f) ↦ rw (e, listed, f) refl
            ]
      ]

  -- get_local_ip answers the first private address that can be used, that is, one of an adapter that is
  -- not docker's, and neither 127.0.0.1 nor 0.0.0.0; if there is none, the last address that can be
  -- used; and 127.0.0.1 if there is none either, or if the adapters cannot be listed.
  pub get_local_ip_lem :
      (s : Net)
      → (get_local_ip sys s).0
        ≡ value_or (or_else (first_private (listed s.log)) (last_usable (listed s.log))) loopback
  unfolding get_local_ip
  get_local_ip_lem s =
      for_each_net_adapter-each (local_callback sys) loopback s
      ∙ each_adapter-local (listed s.log) loopback
