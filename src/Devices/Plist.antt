-- ===== src/Devices/Plist.antt =====
-- The part of `plist::Value` and `plist::Dictionary` that the muxer builds: a dictionary keeps its
-- entries in the order of insertion.
use Prim.Native.String.{String}
use text.Mathlib.Text.{◌==◌ as str_eq}
use netmuxd.Base.{ℕ, List, Option, none, some, if◌then◌else◌}

mutual
  pub data Value : Type 0 where
    string : String → Value
    integer : ℕ → Value
    bytes : List ℕ → Value
    array : Values → Value
    dictionary : Entries → Value

  pub data Values : Type 0 where
    nil : Values
    cons : Value → Values → Values

  pub data Entries : Type 0 where
    end : Entries
    entry : String → Value → Entries → Entries

-- `Dictionary::get`
unfoldable pub find : String → Entries → Option Value
find key end = none
find key (entry k v rest) = if str_eq k key then some v else find key rest

-- `as_unsigned_integer`, `as_string`
abbrev pub as_integer : Option Value → Option ℕ
as_integer (some (integer n)) = some n
as_integer _ = none
