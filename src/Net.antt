-- ===== src/Net.antt =====
-- What the program uses of net and net/netip: addresses as numbers, their classes, MAC addresses.
use wirepup.Base.{
  ℕ, ◌+◌, ◌*◌, ◌/◌, ◌%◌, ◌^◌, ◌≤◌, Bool, true, false, ◌&&◌, [], ◌∷◌, ◌≡◌, ◌↔◌, refl, arith, leb,
  ◌==◌, if◌then◌else◌, length, take, drop, Bytes, be32_at, Go, ret, panic,
}

-- `netip.Addr` without zones: the zero value, an IPv4 address, an IPv6 address.
pub data Addr : Type 0 where
  invalid : Addr
  v4 : ℕ → Addr
  v6 : ℕ → Addr

-- A number in network order.
unfoldable pub number_from : ℕ → Bytes → ℕ
number_from acc [] = acc
number_from acc (x ∷ xs) = number_from (acc * 256 + x) xs

-- `netip.AddrFrom4([4]byte(b[i:i+4]))` and `netip.AddrFrom16([16]byte(b[i:i+16]))`
unfoldable pub addr4_at : Bytes → ℕ → Go Addr
addr4_at b i = if leb (i + 4) (length b) then ret (v4 (be32_at b i)) else panic

unfoldable pub addr16_at : Bytes → ℕ → Go Addr
addr16_at b i =
    if leb (i + 16) (length b) then ret (v6 (number_from 0 (take 16 (drop i b)))) else panic

-- `==` on addresses
unfoldable pub addr_eq : Addr → Addr → Bool
addr_eq invalid invalid = true
addr_eq (v4 a) (v4 b) = a == b
addr_eq (v6 a) (v6 b) = a == b
addr_eq _ _ = false

pub addr_eq_iff : (a b : Addr) → (addr_eq a b ≡ true) ↔ (a ≡ b)
unfolding addr_eq
addr_eq_iff invalid invalid = ground arith
addr_eq_iff (v4 a) (v4 b) = ground arith
addr_eq_iff (v6 a) (v6 b) = ground arith
addr_eq_iff _ _ = ground arith

pub addr_eq_refl : (a : Addr) → addr_eq a a ≡ true
addr_eq_refl a = (addr_eq_iff a a).1 refl

unfoldable pub is_valid : Addr → Bool
is_valid invalid = false
is_valid (v4 a) = true
is_valid (v6 a) = true

unfoldable pub is4 : Addr → Bool
is4 invalid = false
is4 (v4 a) = true
is4 (v6 a) = false

unfoldable pub is6 : Addr → Bool
is6 invalid = false
is6 (v4 a) = false
is6 (v6 a) = true

unfoldable pub is_unspecified : Addr → Bool
is_unspecified invalid = false
is_unspecified (v4 a) = a == 0
is_unspecified (v6 a) = a == 0

-- `Unmap`: an IPv4-mapped IPv6 address as the IPv4 address.
unfoldable pub unmap : Addr → Addr
unmap invalid = invalid
unmap (v4 a) = v4 a
unmap (v6 a) = if a / 2 ^ 32 == 0xffff then v4 (a % 2 ^ 32) else v6 a

link_local : Addr → Bool
link_local invalid = false
link_local (v4 a) = a / 2 ^ 16 == 0xa9fe
link_local (v6 a) = a / 2 ^ 118 == 0x3fa

multicast : Addr → Bool
multicast invalid = false
multicast (v4 a) = a / 2 ^ 28 == 0xe
multicast (v6 a) = a / 2 ^ 120 == 0xff

loopback : Addr → Bool
loopback invalid = false
loopback (v4 a) = a / 2 ^ 24 == 127
loopback (v6 a) = a == 1

unfoldable pub is_link_local_unicast : Addr → Bool
unfolding unmap link_local
is_link_local_unicast a = link_local (unmap a)

unfoldable pub is_multicast : Addr → Bool
unfolding unmap multicast
is_multicast a = multicast (unmap a)

unfoldable pub is_loopback : Addr → Bool
unfolding unmap loopback
is_loopback a = loopback (unmap a)

-- `bytes.Equal`, and the equality of the printed forms of two MAC addresses.
unfoldable pub bytes_eq : Bytes → Bytes → Bool
bytes_eq [] [] = true
bytes_eq (x ∷ xs) (y ∷ ys) = x == y && bytes_eq xs ys
bytes_eq _ _ = false

pub bytes_eq_iff : (a b : Bytes) → (bytes_eq a b ≡ true) ↔ (a ≡ b)
unfolding bytes_eq
bytes_eq_iff [] [] = ground arith
bytes_eq_iff (x ∷ a) (y ∷ b) = ground (arith, bytes_eq_iff a b)
bytes_eq_iff _ _ = ground arith

pub addr4_at_lem : (b : Bytes) (i : ℕ) → i + 4 ≤ length b → addr4_at b i ≡ ret (v4 (be32_at b i))
unfolding addr4_at
addr4_at_lem b i h = ground arith

pub addr16_at_lem :
    (b : Bytes) (i : ℕ)
    → i + 16 ≤ length b
    → addr16_at b i ≡ ret (v6 (number_from 0 (take 16 (drop i b))))
unfolding addr16_at
addr16_at_lem b i h = ground arith
