-- ===== src/Daemon/Announced.antt =====
-- src/mdns.rs, a turn of the loop of `discover`: which services are announced, and as what.
use Prim.Native.String.{String}
use netmuxd.Base.{ℕ, ◌≡◌, List, [], Option, none, some, ◌⊎◌}
use netmuxd.Devices.Sockaddr.{IpAddr}
use netmuxd.Manager.Handle.{Request, discovered_network_device}
use netmuxd.Pairing.Finder.{
  FinderCrates, DirEntry, Finder, lookup, decode_tags, match_txt, index_all,
}
use netmuxd.Daemon.Mdns.{ResolvedService, mobdev_service_name, auth_tags}
use netmuxd.Daemon.Resolved.{IsAmong, Prefers}

module _ (c : FinderCrates) (split_mac : String → Option String) (es : List DirEntry) where
  abbrev tags_of : ResolvedService → List (List ℕ)
  tags_of s = decode_tags c (auth_tags s.properties)

  -- The TXT record has no identifier, or, with the storage read again, none of its tags is given by a
  -- host id of the index.
  abbrev pub TxtMisses : ResolvedService → Finder → Type 0
  TxtMisses s f =
      (s.identifier ≡ none)
      ⊎ ((i : List ℕ) × (s.identifier ≡ some i)
          × (match_txt c i (tags_of s) (index_all c es f) ≡ none))

  -- A host id of this index that gives one of the tags of the TXT record is that of the UDID.
  abbrev pub TxtNames : ResolvedService → Finder → String → Type 0
  TxtNames s f udid =
      (i : List ℕ) × (s.identifier ≡ some i) × (match_txt c i (tags_of s) f ≡ some udid)

  -- The UDID is that of the TXT record, or, if this names none, that of the MAC address in the name.
  abbrev pub IsFound : ResolvedService → Finder → Finder → String → Type 0
  IsFound s f f' udid =
      TxtNames s f' udid
      ⊎ (TxtMisses s f
          × (mac : String) × (split_mac s.fullname ≡ some mac)
          × (lookup mac f'.known_mac_addresses ≡ some udid))

  -- The TXT record names no UDID, and there is no MAC address in the name, or an unknown one.
  abbrev pub IsUnknown : ResolvedService → Finder → Finder → Type 0
  IsUnknown s f f' =
      TxtMisses s f
      × ((split_mac s.fullname ≡ none)
          ⊎ ((mac : String) × (split_mac s.fullname ≡ some mac)
              × (lookup mac f'.known_mac_addresses ≡ none)))

  -- What a turn of the loop does: it does not panic; if it sends nothing, then the service has no
  -- address or is of no known device; and a request that it sends is that for the device of the service.
  abbrev pub Announces : ResolvedService → Finder → Option (Option Request × Finder) → Type 0
  Announces s f none = ⊥
  Announces s f (some (none, f')) = (s.addresses ≡ []) ⊎ IsUnknown s f f'
  Announces s f (some (some r, f')) =
      (udid : String) × (a : IpAddr) × (r
        ≡ discovered_network_device udid a mobdev_service_name "Network" none)
      × IsFound s f f' udid
      × IsAmong a s.addresses
      × Prefers s.addresses a

  abbrev Txt : ResolvedService → Finder → Option (Option String × Finder) → Type 0
  Txt s f none = ⊥
  Txt s f (some (none, f')) = TxtMisses s f
  Txt s f (some (some udid, f')) = TxtNames s f' udid

  abbrev Known : ResolvedService → Finder → Option (Option String × Finder) → Type 0
  Known s f none = ⊥
  Known s f (some (none, f')) = IsUnknown s f f'
  Known s f (some (some udid, f')) = IsFound s f f' udid
