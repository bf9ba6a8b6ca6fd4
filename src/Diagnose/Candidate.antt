-- ===== src/Diagnose/Candidate.antt =====
-- `candidate` of internal/diagnose/diagnose.go: a free host address for this host.
use mathlib.Core.Path.{subst}
use wirepup.Base.{
  ℕ, suc, zero, ◌+◌, ◌-◌, ◌*◌, ◌/◌, ◌%◌, ◌^◌, ◌≤◌, ◌<◌, Bool, true, false, ◌&&◌, ◌||◌, Option, none,
  some, List, [], ◌∷◌, ◌++◌, map, ◌≡◌, ◌⊎◌, inl, inr, refl, sym, ap, ◌∙◌, arith, Bool-cases,
  if◌then◌else◌, Go, ret, ◌>>=◌, Ensures,
}
use wirepup.Net.{Addr, addr_eq, is_valid}
use wirepup.Active.{as4}
use wirepup.Device.Types.{Address, Device}

pub record Prefix : Type 0 where
  pub addr : Addr
  pub bits : ℕ

-- The prefix of 24 bits around an IPv4 address: `netip.PrefixFrom(a, AssumedPrefixBits).Masked()`.
unfoldable pub assumed_prefix : ℕ → Prefix
assumed_prefix a = record { addr = Addr.v4 (a / 2 ^ 8 * 2 ^ 8); bits = 24 }

-- What the host knows about itself: its IPv4 prefixes, and the gateways of its routes.
pub record Context : Type 0 where
  pub local_ipv4 : List Prefix
  pub gateways : List Addr

unfoldable pub addresses_of : List Device → List Addr
addresses_of [] = []
addresses_of (d ∷ ds) = map (λ (a : Address). a.addr) d.ipv4 ++ addresses_of ds

unfoldable pub valid_only : List Addr → List Addr
valid_only [] = []
valid_only (a ∷ rest) = if is_valid a then a ∷ valid_only rest else valid_only rest

unfoldable pub used_by : Context → List Device → List Addr
used_by c devices =
    addresses_of devices ++ (map (λ (p : Prefix). p.addr) c.local_ipv4 ++ valid_only c.gateways)

-- `used[a]`
unfoldable pub in_use : Addr → List Addr → Bool
in_use x [] = false
in_use x (a ∷ rest) = addr_eq a x || in_use x rest

-- The loop, from the host number `i` down to 1.
unfoldable pub search : List Addr → ℕ → ℕ → Option Addr
search used base zero = none
search used base (suc i) =
    let a = Addr.v4 ((base + suc i) % 2 ^ 32) in
    let rest = search used base i in if in_use a used then rest else some a

unfoldable pub candidate : Prefix → Context → List Device → Go (Option Addr)
candidate p c devices = do
  base ← as4 p.addr
  ret (search (used_by c devices) base (2 ^ (32 - p.bits) - 2))

-- `P` holds from `lo` to `n`.
abbrev pub Between : (ℕ → Type 0) → ℕ → ℕ → Type 0
Between P lo n = (j : ℕ) → lo ≤ j → j ≤ n → P j

le-or-gt : (a b : ℕ) → (a ≤ b) ⊎ (b < a)
le-or-gt a b = ground arith

Between-suc : (P : ℕ → Type 0) (lo n : ℕ) → Between P lo n → P (suc n) → Between P lo (suc n)
Between-suc P lo n h p = λ j k l. elim (le-or-gt j n) [
  | inl e ↦ h j k e
  | inr e ↦ let q : j ≡ suc n = omega arith in subst P (sym q) p
]

abbrev host : ℕ → ℕ → Addr
host base i = Addr.v4 ((base + i) % 2 ^ 32)

-- The address of the highest host number up to `n` that is not in use.
abbrev pub Highest : List Addr → ℕ → ℕ → Option Addr → Type 0
Highest used base n none = Between (λ j. in_use (host base j) used ≡ true) 1 n
Highest used base n (some a) =
    (i : ℕ) × (1 ≤ i)
    × (i ≤ n)
    × (a ≡ host base i)
    × (in_use a used ≡ false)
    × Between (λ j. in_use (host base j) used ≡ true) (suc i) n

module _ (used : List Addr) (base : ℕ) where
  step_used :
      (n : ℕ) (o : Option Addr)
      → in_use (host base (suc n)) used ≡ true
      → Highest used base n o
      → Highest used base (suc n) o
  step_used n none u h = Between-suc (λ j. in_use (host base j) used ≡ true) 1 n h u
  step_used n (some a) u (i, l, m, e, f, h) =
      (i, l, omega arith, e, f, Between-suc (λ j. in_use (host base j) used ≡ true) (suc i) n h u)

  pub search-Highest : (n : ℕ) → Highest used base n (search used base n)
  unfolding search
  search-Highest zero = λ j k l. absurd (omega arith)
  search-Highest (suc n) = elim (Bool-cases (in_use (host base (suc n)) used)) [
    | inl u ↦ rw u (step_used n (search used base n) u (search-Highest n))
    | inr u ↦ rw u (suc n, omega arith, omega arith, refl, u, λ j k l. absurd (omega arith))
  ]

-- `x` is an address of the list, of a device, of a local prefix, or of a gateway.
abbrev pub has_address : Addr → List Address → Bool
has_address x [] = false
has_address x (a ∷ rest) = addr_eq a.addr x || has_address x rest

abbrev pub on_device : Addr → List Device → Bool
on_device x [] = false
on_device x (d ∷ ds) = has_address x d.ipv4 || on_device x ds

abbrev pub on_host : Addr → List Prefix → Bool
on_host x [] = false
on_host x (p ∷ ps) = addr_eq p.addr x || on_host x ps

abbrev pub is_gateway : Addr → List Addr → Bool
is_gateway x [] = false
is_gateway x (g ∷ gs) = (is_valid g && addr_eq g x) || is_gateway x gs

abbrev pub taken : Context → List Device → Addr → Bool
taken c devices x = on_device x devices || (on_host x c.local_ipv4 || is_gateway x c.gateways)

module _ (x : Addr) where
  in_use-append : (xs ys : List Addr) → in_use x (xs ++ ys) ≡ (in_use x xs || in_use x ys)
  unfolding in_use
  in_use-append [] ys = refl
  in_use-append (y ∷ xs) ys = ground (arith, in_use-append xs ys)

  in_use-ipv4 : (xs : List Address) → in_use x (map (λ (a : Address). a.addr) xs) ≡ has_address x xs
  unfolding in_use
  in_use-ipv4 [] = refl
  in_use-ipv4 (a ∷ xs) = ap (λ b. addr_eq a.addr x || b) (in_use-ipv4 xs)

  in_use-devices : (ds : List Device) → in_use x (addresses_of ds) ≡ on_device x ds
  unfolding in_use addresses_of
  in_use-devices [] = refl
  in_use-devices (d ∷ ds) =
      in_use-append (map (λ (a : Address). a.addr) d.ipv4) (addresses_of ds)
      ∙ rw (in_use-ipv4 d.ipv4, in_use-devices ds) refl

  in_use-local : (ps : List Prefix) → in_use x (map (λ (p : Prefix). p.addr) ps) ≡ on_host x ps
  unfolding in_use
  in_use-local [] = refl
  in_use-local (p ∷ ps) = ap (λ b. addr_eq p.addr x || b) (in_use-local ps)

  in_use-gateways : (gs : List Addr) → in_use x (valid_only gs) ≡ is_gateway x gs
  unfolding in_use valid_only
  in_use-gateways [] = refl
  in_use-gateways (g ∷ gs) = elim (Bool-cases (is_valid g)) [
    | inl e ↦ rw (e, in_use-gateways gs) refl
    | inr e ↦ rw (e, in_use-gateways gs) refl
  ]

  pub used_by-taken :
      (c : Context) (devices : List Device) → in_use x (used_by c devices) ≡ taken c devices x
  unfolding used_by
  used_by-taken c devices =
      in_use-append (addresses_of devices)
        (map (λ (p : Prefix). p.addr) c.local_ipv4 ++ valid_only c.gateways)
      ∙ rw
          (
            in_use-append (map (λ (p : Prefix). p.addr) c.local_ipv4) (valid_only c.gateways),
            in_use-devices devices,
            in_use-local c.local_ipv4,
            in_use-gateways c.gateways,
          )
          refl

-- What is suggested in the network of 256 addresses: the highest host that nobody has.
abbrev pub Suggests : Context → List Device → ℕ → Option Addr → Type 0
Suggests c devices net none = Between (λ j. taken c devices (Addr.v4 (net * 256 + j)) ≡ true) 1 254
Suggests c devices net (some x) =
    (i : ℕ) × (1 ≤ i)
    × (i ≤ 254)
    × (x ≡ Addr.v4 (net * 256 + i))
    × (taken c devices x ≡ false)
    × Between (λ j. taken c devices (Addr.v4 (net * 256 + j)) ≡ true) (suc i) 254

no_wrap : (net j : ℕ) → net < 16777216 → j ≤ 254 → (net * 256 + j) % 2 ^ 32 ≡ net * 256 + j
no_wrap net j h k = omega arith

module _ (c : Context) (devices : List Device) (net : ℕ) (h : net < 16777216) where
  still_taken :
      (j : ℕ)
      → j ≤ 254
      → in_use (host (net * 256) j) (used_by c devices) ≡ true
      → taken c devices (Addr.v4 (net * 256 + j)) ≡ true
  still_taken j l e =
      sym (used_by-taken (Addr.v4 (net * 256 + j)) c devices)
      ∙ subst (λ x. in_use (Addr.v4 x) (used_by c devices) ≡ true) (no_wrap net j h l) e

  Highest-Suggests :
      (o : Option Addr) → Highest (used_by c devices) (net * 256) 254 o → Suggests c devices net o
  Highest-Suggests none f = λ j k l. still_taken j l (f j k l)
  Highest-Suggests (some x) (i, l, m, e, u, f) = (
    i,
    l,
    m,
    e ∙ ap Addr.v4 (no_wrap net i h m),
    sym (used_by-taken x c devices) ∙ u,
    λ j k n. still_taken j n (f j k n),
  )

-- For an IPv4 address below 2^32, `candidate` in its network of 24 bits returns the highest of the
-- host addresses 1 to 254 that no device of the table, no local prefix and no valid gateway has; it
-- returns none exactly if all of them are taken.
pub candidate-Suggests :
    (a : ℕ) (c : Context) (devices : List Device)
    → a < 4294967296
    → Ensures (Suggests c devices (a / 256)) (candidate (assumed_prefix a) c devices)
unfolding candidate as4 assumed_prefix
candidate-Suggests a c devices h =
    Highest-Suggests c devices (a / 256) (omega arith)
      (search (used_by c devices) (a / 256 * 256) 254)
      (search-Highest (used_by c devices) (a / 256 * 256) 254)
