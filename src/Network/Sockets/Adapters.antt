-- ===== src/Network/Sockets/Adapters.antt =====
-- The network adapters: for_each_netAdapter_posix, check_ip, get_local_ip, getInterfaceList, get_ifr_ip and
-- get_ifr_name of src/Network/sockutil.cpp, as they are built on Linux.
pub mod Local
use ffzkit.Base.{
  Bytes, codes, same_bytes, ℕ, Bool, true, false, not, ◌&&◌, ◌||◌, List, [], ◌∷◌, ◌++◌, Option,
  none, some, is_some, ltb, leb, if◌then◌else◌,
}
use ffzkit.Util.Text.Find.{find}
use ffzkit.Network.Sockets.{
  Family, dgram, Protocol, socket, close, ioctl_siocgifconf, Ifreq, System, Log, M, Net, pure,
  ◌>>=◌, ◌>>◌, call,
}
use ffzkit.Network.Sockets.Addresses.{inet_ntoa}

module _ {S : Type 0} where
  -- The callback says whether the loop ends, and what it has made of what it captures.
  unfoldable pub each_adapter : (Ifreq → S → Bool × S) → List Ifreq → S → S
  each_adapter fun [] s = s
  each_adapter fun (a ∷ adapters) s =
      let r = fun a s in let rest = each_adapter fun adapters r.1 in if r.0 then r.1 else rest

module _ (sys : System) {S : Type 0} where
  unfoldable pub with_conf : (Ifreq → S → Bool × S) → S → ℕ → Option ℕ → M S
  unfolding each_adapter call
  with_conf fun init fd none s = (init, (call sys (close fd) s).1)
  with_conf fun init fd (some ret) s =
      let r = call sys (close fd) s in (each_adapter fun (sys.adapters s.log) init, r.1)

  unfoldable pub with_socket : (Ifreq → S → Bool × S) → S → Option ℕ → M S
  unfolding with_conf call
  with_socket fun init none = pure init
  with_socket fun init (some fd) = do
    ret ← call sys (ioctl_siocgifconf fd)
    with_conf fun init fd ret

  unfoldable pub for_each_net_adapter : (Ifreq → S → Bool × S) → S → M S
  unfolding with_socket call
  for_each_net_adapter fun init = do
    fd ← call sys (socket Family.inet dgram (Protocol.ip 0))
    with_socket fun init fd

abbrev pub loopback : Bytes
loopback = codes "127.0.0.1"

abbrev pub any_address : Bytes
any_address = codes "0.0.0.0"

module _ (sys : System) where
  unfoldable pub check_ip : Bytes → Bytes → Bool × Bytes
  check_ip address ip =
      let n = sys.htonl (sys.inet_addr ip) in
      if not (same_bytes ip loopback) && not (same_bytes ip any_address)
      then (leb 0xAC100000 n && ltb n 0xAC200000 || leb 0xC0A80000 n && ltb n 0xC0A90000, ip)
      else (false, address)

  unfoldable pub local_callback : Ifreq → Bytes → Bool × Bytes
  unfolding check_ip is_some find inet_ntoa
  local_callback a address =
      if is_some (find (codes "docker") a.ifr_name)
      then (false, address)
      else check_ip address (inet_ntoa sys a.ifr_addr)

  unfoldable pub get_local_ip : M Bytes
  unfolding for_each_net_adapter local_callback
  get_local_ip = for_each_net_adapter sys local_callback loopback

  -- The map of an adapter, its ip and its name.
  unfoldable pub interface_callback : Ifreq → List (Bytes × Bytes) → Bool × List (Bytes × Bytes)
  unfolding inet_ntoa
  interface_callback a ret = (false, ret ++ (inet_ntoa sys a.ifr_addr, a.ifr_name) ∷ [])

  unfoldable pub get_interface_list : M (List (Bytes × Bytes))
  unfolding for_each_net_adapter interface_callback
  get_interface_list = for_each_net_adapter sys interface_callback []

  unfoldable pub ifr_ip_callback : Bytes → Ifreq → Bytes → Bool × Bytes
  unfolding inet_ntoa
  ifr_ip_callback if_name a ret =
      if same_bytes a.ifr_name if_name then (true, inet_ntoa sys a.ifr_addr) else (false, ret)

  unfoldable pub get_ifr_ip : Bytes → M Bytes
  unfolding for_each_net_adapter ifr_ip_callback
  get_ifr_ip if_name = for_each_net_adapter sys (ifr_ip_callback if_name) []

  unfoldable pub ifr_name_callback : Bytes → Ifreq → Bytes → Bool × Bytes
  unfolding inet_ntoa
  ifr_name_callback local_ip a ret =
      if same_bytes (inet_ntoa sys a.ifr_addr) local_ip then (true, a.ifr_name) else (false, ret)

  unfoldable pub get_ifr_name : Bytes → M Bytes
  unfolding for_each_net_adapter ifr_name_callback
  get_ifr_name local_ip = for_each_net_adapter sys (ifr_name_callback local_ip) (codes "en0")
