-- ===== src/Daemon/Udid.antt =====
-- src/daemon/mod.rs: the UDID of a device whose serial number has been read.
use Prim.Native.Char.{Char, code}
use Prim.Native.String.{String, [], ◌∷◌, ◌++◌, len, slice}
use netmuxd.Base.{Bool, true, ◌&&◌, ◌||◌, List, Option, none, some, if◌then◌else◌, ◌==◌, leb}
use mathlib.Core.List.{[] as none_left, ◌∷◌ as cons}

-- `is_ascii_hexdigit`: 0 to 9, A to F, a to f
abbrev pub is_ascii_hexdigit : Char → Bool
is_ascii_hexdigit c =
    (leb 48 (code c) && leb (code c) 57)
    || (leb 65 (code c) && leb (code c) 70)
    || (leb 97 (code c) && leb (code c) 102)

unfoldable pub all_hexdigits : String → Bool
all_hexdigits [] = true
all_hexdigits (c ∷ s) = is_ascii_hexdigit c && all_hexdigits s

-- A serial number without the dash of its UDID.
abbrev pub is_undashed : String → Bool
is_undashed raw = len raw == 24 && all_hexdigits raw

-- `format!("{}-{}", &raw[..8], &raw[8..])`
abbrev pub dashed : String → String
dashed raw = slice raw 0 8 ++ "-" ++ slice raw 8 (len raw)

-- `synthesize_udid`
unfoldable pub synthesize_udid : String → String
synthesize_udid raw = if is_undashed raw then dashed raw else raw

-- `resolve_paired_udid`: the first candidate with a record that can be read.
unfoldable pub first_paired : (String → Bool) → List String → Option String
first_paired has_record none_left = none
first_paired has_record (cons udid rest) =
    if has_record udid then some udid else first_paired has_record rest

unfoldable pub candidates : String → List String
candidates raw =
    if is_undashed raw then cons raw (cons (dashed raw) none_left) else cons raw none_left

unfoldable pub resolve_paired_udid : (String → Bool) → String → Option String
resolve_paired_udid has_record raw = first_paired has_record (candidates raw)
