-- ===== src/Daemon/Counts.antt =====
-- src/daemon/nusb_backend.rs: how many devices have been registered, removed and known.
use Prim.Native.String.{String}
use netmuxd.Base.{ℕ, suc, ◌+◌, ◌≤◌, ◌≡◌, refl, List, [], ◌∷◌, ◌++◌, length, some, arith}
use netmuxd.Base.Dict.{get, insert, remove}
use netmuxd.Manager.Handle.{Request, discovered_usb_device, remove_device}
use netmuxd.Daemon.Usb.{rename_known}

abbrev registers : Request → ℕ
registers (discovered_usb_device udid location product speed h) = 1
registers _ = 0

abbrev removes : Request → ℕ
removes (remove_device udid t) = 1
removes _ = 0

-- How many devices the manager has been given, and how many it has been told to remove.
abbrev pub registrations : List Request → ℕ
registrations [] = 0
registrations (r ∷ rs) = registers r + registrations rs

abbrev pub removals : List Request → ℕ
removals [] = 0
removals (r ∷ rs) = removes r + removals rs

pub registrations-append :
    (rs qs : List Request) → registrations (rs ++ qs) ≡ registrations rs + registrations qs
registrations-append [] qs = omega arith
registrations-append (r ∷ rs) qs = omega (arith, registrations-append rs qs)

pub removals-append : (rs qs : List Request) → removals (rs ++ qs) ≡ removals rs + removals qs
removals-append [] qs = omega arith
removals-append (r ∷ rs) qs = omega (arith, removals-append rs qs)

pub length-remove_le : (key : ℕ) (m : List (ℕ × String)) → length (remove key m) ≤ length m
unfolding remove
length-remove_le key [] = omega arith
length-remove_le key ((k, u) ∷ m) = ground (arith, length-remove_le key m)

pub length-remove :
    (key : ℕ) (udid : String) (m : List (ℕ × String))
    → get key m ≡ some udid
    → suc (length (remove key m)) ≤ length m
unfolding get remove
length-remove key udid [] h = absurd (ground arith)
length-remove key udid ((k, u) ∷ m) h =
    ground (arith, h, length-remove key udid m, length-remove_le key m)

pub length-rename_known :
    (key : ℕ) (udid : String) (m : List (ℕ × String)) → length (rename_known key udid m) ≡ length m
unfolding rename_known
length-rename_known key udid [] = refl
length-rename_known key udid ((k, u) ∷ m) = ground (arith, length-rename_known key udid m)

pub length-insert :
    (key : ℕ) (udid : String) (m : List (ℕ × String)) → length (insert key udid m) ≤ suc (length m)
unfolding insert
length-insert key udid m = omega (arith, length-remove_le key m)
