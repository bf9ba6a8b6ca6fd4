-- ===== src/Active/Range.antt =====
-- The addresses that Hosts of internal/active/active.go lets a command probe.
use mathlib.Core.Path.{subst}
use wirepup.Base.{
  ℕ, suc, zero, ◌+◌, ◌-◌, ◌*◌, ◌/◌, ◌%◌, ◌^◌, ◌≤◌, ◌<◌, Bool, false, ◌&&◌, ◌||◌, List, [], ◌∷◌, ◌≡◌,
  refl, ap, arith, ltb, leb, ◌==◌, length, Result, ok, err, Bool-cases, inl, inr, ltb→lt, ltb→le,
}
use wirepup.Net.{Addr, addr_eq}
use wirepup.Active.{Error, ipv4_required, prefix_too_large, span, hosts_of, hosts}

abbrev pub listed : Addr → List Addr → Bool
listed x [] = false
listed x (y ∷ ys) = addr_eq x y || listed x ys

-- `v` is an address of the prefix of `a` with `bits` bits: any one where these are 31 or 32, else
-- neither the first nor the last.
abbrev pub usable : ℕ → ℕ → ℕ → Bool
usable a bits v =
    let n = 2 ^ (32 - bits) in
    v / n == a / n && (leb 31 bits || (ltb 0 (v % n) && ltb (v % n + 1) n))

listed-span :
    (base i k v : ℕ)
    → base + i + k ≤ 4294967296
    → listed (Addr.v4 v) (span base i k) ≡ (leb (base + i) v && ltb v (base + i + k))
unfolding span addr_eq
listed-span base i zero v h = ground arith
listed-span base i (suc k) v h =
    let ih = listed-span base (suc i) k v (omega arith) in rw ih (ground arith)

length-span : (base i k : ℕ) → length (span base i k) ≡ k
unfolding span
length-span base i zero = refl
length-span base i (suc k) = ap suc (length-span base (suc i) k)

abbrev pub HostsSpec : Addr → ℕ → Result Error (List Addr) → Type 0
HostsSpec Addr.invalid bits r = r ≡ err ipv4_required
HostsSpec (Addr.v6 a) bits r = r ≡ err ipv4_required
HostsSpec (Addr.v4 a) bits (err e) = (bits < 24) × (e ≡ prefix_too_large)
HostsSpec (Addr.v4 a) bits (ok l) =
    (24 ≤ bits)
    × (length l ≤ 254)
    × ((v : ℕ) → v < 4294967296 → listed (Addr.v4 v) l ≡ usable a bits v)

abbrev Listing : ℕ → ℕ → Type 0
Listing a bits =
    let l = hosts_of (a / 2 ^ (32 - bits) * 2 ^ (32 - bits)) bits in
    (length l ≤ 254) × ((v : ℕ) → v < 4294967296 → listed (Addr.v4 v) l ≡ usable a bits v)

-- One prefix length after the other, from 32 down.
listing : (k : ℕ) → k ≤ 8 → (a : ℕ) → a < 4294967296 → Listing a (32 - k)
unfolding hosts_of addr_eq
listing zero l a h = (omega arith, λ v k. ground arith)
listing (suc zero) l a h = (omega arith, λ v k. ground arith)
listing (suc (suc zero)) l a h = (
  rw length-span (omega arith),
  λ v k. rw (listed-span (a / 4 * 4) 1 2 v (omega arith)) (ground arith),
)
listing (suc (suc (suc zero))) l a h = (
  rw length-span (omega arith),
  λ v k. rw (listed-span (a / 8 * 8) 1 6 v (omega arith)) (ground arith),
)
listing (suc (suc (suc (suc zero)))) l a h = (
  rw length-span (omega arith),
  λ v k. rw (listed-span (a / 16 * 16) 1 14 v (omega arith)) (ground arith),
)
listing (suc (suc (suc (suc (suc zero))))) l a h = (
  rw length-span (omega arith),
  λ v k. rw (listed-span (a / 32 * 32) 1 30 v (omega arith)) (ground arith),
)
listing (suc (suc (suc (suc (suc (suc zero)))))) l a h = (
  rw length-span (omega arith),
  λ v k. rw (listed-span (a / 64 * 64) 1 62 v (omega arith)) (ground arith),
)
listing (suc (suc (suc (suc (suc (suc (suc zero))))))) l a h = (
  rw length-span (omega arith),
  λ v k. rw (listed-span (a / 128 * 128) 1 126 v (omega arith)) (ground arith),
)
listing (suc (suc (suc (suc (suc (suc (suc (suc zero)))))))) l a h = (
  rw length-span (omega arith),
  λ v k. rw (listed-span (a / 256 * 256) 1 254 v (omega arith)) (ground arith),
)
listing (suc (suc (suc (suc (suc (suc (suc (suc (suc k))))))))) l a h = absurd (omega arith)

-- The value of an IPv4 address is below 2^32, and its prefix has 32 bits at most; of others nothing is
-- asked.
abbrev pub IsPrefix : Addr → ℕ → Type 0
IsPrefix (Addr.v4 a) bits = (a < 4294967296) × (bits ≤ 32)
IsPrefix (Addr.v6 a) bits = Unit
IsPrefix Addr.invalid bits = Unit

-- `Hosts`, for every prefix, where one of IPv4 has an address below 2^32 and 32 bits at most: it refuses
-- what is not IPv4, and a prefix of IPv4 shorter than 24 bits; else it lists at most 254 addresses, and an address is listed
-- exactly where it lies in the prefix and, for a prefix shorter than 31 bits, is neither its network
-- address nor its broadcast address.
pub hosts-HostsSpec : (x : Addr) (bits : ℕ) → IsPrefix x bits → HostsSpec x bits (hosts x bits)
unfolding hosts
hosts-HostsSpec Addr.invalid bits h = refl
hosts-HostsSpec (Addr.v6 a) bits h = refl
hosts-HostsSpec (Addr.v4 a) bits (h, l) = elim (Bool-cases (ltb bits 24)) [
  | inl e ↦ rw e (ltb→lt bits 24 e, refl)
  | inr e ↦
      let ge : 24 ≤ bits = ltb→le bits 24 e in
      let back : 32 - (32 - bits) ≡ bits = omega arith in
      let both : Listing a bits = subst (Listing a) back (listing (32 - bits) (omega arith) a h) in
      rw e (ge, both.0, both.1)
]
