-- ===== src/Devices/Sockaddr.antt =====
-- src/devices.rs: the 128 bytes of a `sockaddr_storage` that carry a device's address.
use netmuxd.Base.{
  ℕ, ◌+◌, ◌*◌, ◌≡◌, Bool, true, false, List, [], ◌∷◌, ◌++◌, Option, none, some, length, take, drop,
  get_or, replicate, if◌then◌else◌, ◌==◌, arith, length-append, take-append,
}

-- `std::net::IpAddr`, as its octets.
pub data IpAddr : Type 0 where
  v4 : List ℕ → IpAddr
  v6 : List ℕ → IpAddr

abbrev pub IsAddress : IpAddr → Type 0
IsAddress (v4 octets) = length octets ≡ 4
IsAddress (v6 octets) = length octets ≡ 16

-- BSD: a length byte and the family; elsewhere the family is a little-endian u16.
abbrev pub family_v4 : Bool → List ℕ
family_v4 bsd = if bsd then 0x10 ∷ 0x02 ∷ [] else 0x02 ∷ 0x00 ∷ []

abbrev pub family_v6 : Bool → List ℕ
family_v6 bsd = if bsd then 0x1c ∷ 0x1e ∷ [] else 0x0a ∷ 0x00 ∷ []

-- Port and flow information stay zero.
unfoldable pub sockaddr : Bool → IpAddr → List ℕ
sockaddr bsd (v4 octets) = family_v4 bsd ++ (0 ∷ 0 ∷ (octets ++ replicate 120 0))
sockaddr bsd (v6 octets) = family_v6 bsd ++ (0 ∷ 0 ∷ 0 ∷ 0 ∷ 0 ∷ 0 ∷ (octets ++ replicate 104 0))

pub length-sockaddr : (bsd : Bool) (a : IpAddr) → IsAddress a → length (sockaddr bsd a) ≡ 128
unfolding sockaddr
length-sockaddr true (v4 o) h = omega (arith, length-append o (replicate 120 0))
length-sockaddr false (v4 o) h = omega (arith, length-append o (replicate 120 0))
length-sockaddr true (v6 o) h = omega (arith, length-append o (replicate 104 0))
length-sockaddr false (v6 o) h = omega (arith, length-append o (replicate 104 0))

-- What a client reads back: the family tells the kind, and the kind where the octets stand.
abbrev read_family : Bool → List ℕ → ℕ
read_family bsd data_ = if bsd then get_or data_ 1 0 else get_or data_ 0 0 + get_or data_ 1 0 * 256

abbrev pub read_sockaddr : Bool → List ℕ → Option IpAddr
read_sockaddr bsd data_ =
    if read_family bsd data_ == 2
    then some (v4 (take 4 (drop 4 data_)))
    else if read_family bsd data_ == (if bsd then 30 else 10)
    then some (v6 (take 16 (drop 8 data_)))
    else none

-- The address is read back from its bytes, in either layout.
pub read_sockaddr-sockaddr :
    (bsd : Bool) (a : IpAddr)
    → IsAddress a
    → (length (sockaddr bsd a) ≡ 128) × (read_sockaddr bsd (sockaddr bsd a) ≡ some a)
unfolding sockaddr
read_sockaddr-sockaddr true (v4 o) h =
    (length-sockaddr true (v4 o) h, ground (arith, take-append 4 o (replicate 120 0)))
read_sockaddr-sockaddr false (v4 o) h =
    (length-sockaddr false (v4 o) h, ground (arith, take-append 4 o (replicate 120 0)))
read_sockaddr-sockaddr true (v6 o) h =
    (length-sockaddr true (v6 o) h, ground (arith, take-append 16 o (replicate 104 0)))
read_sockaddr-sockaddr false (v6 o) h =
    (length-sockaddr false (v6 o) h, ground (arith, take-append 16 o (replicate 104 0)))
