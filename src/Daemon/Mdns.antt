-- ===== src/Daemon/Mdns.antt =====
-- src/mdns.rs: the devices that are found over the network.
use Prim.Native.String.{String}
use text.Mathlib.Text.{◌==◌ as str_eq, starts_with}
use netmuxd.Base.{
  ℕ, Bool, true, false, ◌||◌, List, [], ◌∷◌, is_empty, Option, none, some, case_option,
  if◌then◌else◌,
}
use netmuxd.Devices.Sockaddr.{IpAddr, v4, v6}
use netmuxd.Manager.Handle.{Request, discovered_network_device}
use netmuxd.Pairing.Finder.{FinderCrates, DirEntry, Finder, find_udid_from_txt, get_udid_from_mac}

-- A resolved service: its full name, its addresses, the value of its TXT property `identifier`, and all
-- TXT properties in order, each with the value, if it has one.
pub record ResolvedService : Type 0 where
  pub fullname : String
  pub addresses : List IpAddr
  pub identifier : Option (List ℕ)
  pub properties : List (String × Option (List ℕ))

abbrev pub mobdev_service_name : String
mobdev_service_name = "_apple-mobdev2._tcp.local"

abbrev pub is_ipv4 : IpAddr → Bool
is_ipv4 (v4 bytes) = true
is_ipv4 (v6 bytes) = false

unfoldable pub find_ipv4 : List IpAddr → Option IpAddr
find_ipv4 [] = none
find_ipv4 (a ∷ rest) = if is_ipv4 a then some a else find_ipv4 rest

abbrev pub first_address : List IpAddr → Option IpAddr
first_address [] = none
first_address (a ∷ rest) = some a

-- `pick_address`
unfoldable pub pick_address : List IpAddr → Option IpAddr
pick_address addresses = case_option (find_ipv4 addresses) (first_address addresses) λ a. some a

abbrev pub is_auth_tag : String → Bool
is_auth_tag k = str_eq k "authTag" || starts_with k "authTag#"

unfoldable pub auth_tags : List (String × Option (List ℕ)) → List (List ℕ)
auth_tags [] = []
auth_tags ((k, none) ∷ rest) = auth_tags rest
auth_tags ((k, some v) ∷ rest) =
    let tags = auth_tags rest in if is_auth_tag k then v ∷ tags else tags

abbrev pub announce : IpAddr → Option String × Finder → Option Request × Finder
announce address (none, f) = (none, f)
announce address (some udid, f) =
    (some (discovered_network_device udid address mobdev_service_name "Network" none), f)

module _ (c : FinderCrates) (split_mac : String → Option String)
    (storage : Option (List DirEntry)) where
  -- By the TXT record, if it has an identifier and tags.
  unfoldable pub udid_from_txt : ResolvedService → Finder → Option (Option String × Finder)
  udid_from_txt s f = case_option s.identifier (some (none, f)) λ identifier.
      if is_empty (auth_tags s.properties)
      then some (none, f)
      else find_udid_from_txt c storage identifier (auth_tags s.properties) f

  -- By the MAC address in the name, if the TXT record has not helped.
  abbrev pub or_from_mac :
      ResolvedService → Option String × Finder → Option (Option String × Finder)
  or_from_mac s (some udid, f) = some (some udid, f)
  or_from_mac s (none, f) =
      case_option (split_mac s.fullname) (some (none, f)) λ mac. get_udid_from_mac c storage mac f

  unfoldable pub identify_service :
      IpAddr → ResolvedService → Finder → Option (Option Request × Finder)
  identify_service address s f =
      case_option (udid_from_txt s f) none
        λ r. case_option (or_from_mac s r) none λ r'. some (announce address r')

  -- One turn of the loop of `discover`: the request that is sent to the manager, if any; `none` is a
  -- panic where the storage cannot be read.
  unfoldable pub resolve : ResolvedService → Finder → Option (Option Request × Finder)
  resolve s f =
      case_option (pick_address s.addresses) (some (none, f))
        λ address. identify_service address s f
