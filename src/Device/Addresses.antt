-- ===== src/Device/Addresses.antt =====
-- The address lists of a device record in internal/device/device.go: one entry changed, or one added.
use wirepup.Base.{
  ℕ, ◌+◌, ◌≤◌, true, false, none, some, List, [], ◌∷◌, ◌++◌, ◌≡◌, refl, sym, ap, ◌∙◌, arith,
  if◌then◌else◌, inl, inr, Bool-cases, All,
}
use mathlib.Core.Path.{subst}
use wirepup.Net.{Addr, addr_eq, addr_eq_iff}
use wirepup.Device.Types.{State, is_seen, Address}
use wirepup.Device.Record.{weak_count, find_address, put_address}

-- No two entries have the same address.
unfoldable pub Distinct : List Address → Type 0
Distinct [] = Unit
Distinct (a ∷ rest) = (find_address a.addr rest ≡ none) × Distinct rest

pub put-All :
    (P : Address → Type 0) (a : Address) (l : List Address)
    → P a
    → All P l
    → All P (put_address a l)
unfolding put_address
put-All P a [] h k = k
put-All P a (b ∷ bs) h k = elim (Bool-cases (addr_eq b.addr a.addr)) [
  | inl e ↦ rw e (h, k.1)
  | inr e ↦ rw e (k.0, put-All P a bs h k.1)
]

-- What the absence of an address says of the first entry.
absent-cons :
    (x : Addr) (a : Address) (l : List Address)
    → find_address x (a ∷ l) ≡ none
    → (addr_eq a.addr x ≡ false) × (find_address x l ≡ none)
unfolding find_address
absent-cons x a l h = elim (Bool-cases (addr_eq a.addr x)) [
  | inl e ↦ ground arith
  | inr e ↦ ground arith
]

cons-absent :
    (x : Addr) (a : Address) (l : List Address)
    → addr_eq a.addr x ≡ false
    → find_address x l ≡ none
    → find_address x (a ∷ l) ≡ none
unfolding find_address
cons-absent x a l h k = rw h k

-- A list without an address is still without it when one of its entries changes.
put-absent :
    (x : Addr) (a : Address) (l : List Address)
    → find_address x l ≡ none
    → find_address x (put_address a l) ≡ none
unfolding put_address
put-absent x a [] h = h
put-absent x a (b ∷ bs) h =
    let (f, k) = absent-cons x b bs h in
    elim (Bool-cases (addr_eq b.addr a.addr)) [
      | inl e ↦
          let same : a.addr ≡ b.addr = sym ((addr_eq_iff b.addr a.addr).0 e) in
          rw e (cons-absent x a bs (ap (λ y. addr_eq y x) same ∙ f) k)
      | inr e ↦ rw e (cons-absent x b (put_address a bs) f (put-absent x a bs k))
    ]

pub put-Distinct : (a : Address) (l : List Address) → Distinct l → Distinct (put_address a l)
unfolding Distinct put_address
put-Distinct a [] h = h
put-Distinct a (b ∷ bs) h = elim (Bool-cases (addr_eq b.addr a.addr)) [
  | inl e ↦
      let same : a.addr ≡ b.addr = sym ((addr_eq_iff b.addr a.addr).0 e) in
      rw e (ap (λ y. find_address y bs) same ∙ h.0, h.1)
  | inr e ↦ rw e (put-absent b.addr a bs h.0, put-Distinct a bs h.1)
]

found-head :
    (x : Addr) (a b : Address) (l : List Address)
    → find_address x (b ∷ l) ≡ some a
    → addr_eq b.addr x ≡ true
    → b ≡ a
unfolding find_address
found-head x a b l h f =
    let k : find_address x (b ∷ l) ≡ some b = rw f refl in
    ap (λ o. elim o [ some y ↦ y | none ↦ b ]) (sym k ∙ h)

found-tail :
    (x : Addr) (a b : Address) (l : List Address)
    → find_address x (b ∷ l) ≡ some a
    → addr_eq b.addr x ≡ false
    → find_address x l ≡ some a
unfolding find_address
found-tail x a b l h f = let k : find_address x (b ∷ l) ≡ find_address x l = rw f refl in sym k ∙ h

-- The entry that the loop finds has the address.
pub found-addr :
    (x : Addr) (a : Address) (l : List Address) → find_address x l ≡ some a → a.addr ≡ x
unfolding find_address
found-addr x a [] h = absurd (ground arith)
found-addr x a (b ∷ bs) h = elim (Bool-cases (addr_eq b.addr x)) [
  | inl f ↦ ap (λ c. c.addr) (sym (found-head x a b bs h f)) ∙ (addr_eq_iff b.addr x).0 f
  | inr f ↦ found-addr x a bs (found-tail x a b bs h f)
]

pub found-All :
    (P : Address → Type 0) (x : Addr) (a : Address) (l : List Address)
    → find_address x l ≡ some a
    → All P l
    → P a
unfolding find_address
found-All P x a [] h k = absurd (ground arith)
found-All P x a (b ∷ bs) h k = elim (Bool-cases (addr_eq b.addr x)) [
  | inl f ↦ subst P (found-head x a b bs h f) k.0
  | inr f ↦ found-All P x a bs (found-tail x a b bs h f) k.1
]

unequal : (x y : Addr) → addr_eq x y ≡ false → addr_eq y x ≡ false
unequal x y h = elim (Bool-cases (addr_eq y x)) [
  | inl e ↦
      let same : x ≡ y = sym ((addr_eq_iff y x).0 e) in ground (arith, (addr_eq_iff x y).1 same, h)
  | inr e ↦ e
]

abbrev pub weight : State → ℕ
weight s = if is_seen s then 1 else 0

-- A change of the entry that the loop finds, to a state of no more weight.
pub weak_count-put :
    (x : Addr) (a a' : Address) (l : List Address)
    → find_address x l ≡ some a
    → a'.addr ≡ x
    → weight a'.state ≤ weight a.state
    → weak_count (put_address a' l) ≤ weak_count l
unfolding find_address put_address weak_count
weak_count-put x a a' [] h e w = absurd (ground arith)
weak_count-put x a a' (b ∷ bs) h e w = elim (Bool-cases (addr_eq b.addr x)) [
  | inl f ↦
      let g : addr_eq b.addr a'.addr ≡ true = ap (λ y. addr_eq b.addr y) e ∙ f in
      let same : b ≡ a = found-head x a b bs h f in
      rw g (omega (arith, w, ap (λ c. weight c.state) same))
  | inr f ↦
      let g : addr_eq b.addr a'.addr ≡ false = ap (λ y. addr_eq b.addr y) e ∙ f in
      rw g (omega (arith, weak_count-put x a a' bs (found-tail x a b bs h f) e w))
]

absent-append :
    (x : Addr) (a : Address) (l : List Address)
    → find_address x l ≡ none
    → addr_eq a.addr x ≡ false
    → find_address x (l ++ (a ∷ [])) ≡ none
unfolding find_address
absent-append x a [] h e = rw e refl
absent-append x a (b ∷ bs) h e =
    let (f, k) = absent-cons x b bs h in rw f (absent-append x a bs k e)

pub append-Distinct :
    (a : Address) (l : List Address)
    → find_address a.addr l ≡ none
    → Distinct l
    → Distinct (l ++ (a ∷ []))
unfolding Distinct find_address
append-Distinct a [] h k = (refl, k)
append-Distinct a (b ∷ bs) h k =
    let (f, r) = absent-cons a.addr b bs h in
    (absent-append b.addr a bs k.0 (unequal b.addr a.addr f), append-Distinct a bs r k.1)

pub weak_count-append :
    (a : Address) (l : List Address) → weak_count (l ++ (a ∷ [])) ≡ weak_count l + weight a.state
unfolding weak_count
weak_count-append a [] = omega arith
weak_count-append a (b ∷ bs) = omega (arith, weak_count-append a bs)
