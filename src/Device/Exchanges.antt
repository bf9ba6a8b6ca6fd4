-- ===== src/Device/Exchanges.antt =====
-- One transaction for a client and a transaction id: `transaction` of internal/device/device.go.
use wirepup.Base.{
  ℕ, true, false, List, [], ◌∷◌, ◌≡◌, sym, ◌∙◌, arith, ==_iff, inl, inr, Bool-cases, Bytes,
}
use mathlib.Core.Path.{subst}
use wirepup.Net.{bytes_eq_iff}
use wirepup.Device.Types.{Ref, Transaction}
use wirepup.Device.Leases.{is_transaction, put_transaction}

-- No entry is of this id and client.
unfoldable pub Absent : ℕ → Bytes → List Transaction → Type 0
Absent xid mac [] = Unit
Absent xid mac (x ∷ xs) = (is_transaction xid mac x ≡ false) × Absent xid mac xs

-- No two entries are of the same id and client.
unfoldable pub Separate : List Transaction → Type 0
Separate [] = Unit
Separate (x ∷ xs) = Absent x.xid x.client_mac xs × Separate xs

-- The keys of an entry are those that it is looked up under.
is_transaction-keys :
    (xid : ℕ) (mac : Bytes) (x : Transaction)
    → is_transaction xid mac x ≡ true
    → (x.xid ≡ xid) × (x.client_mac ≡ mac)
unfolding is_transaction
is_transaction-keys xid mac x h =
    ((ground (arith, h)), (bytes_eq_iff x.client_mac mac).0 (ground (arith, h)))

keys-is_transaction :
    (xid : ℕ) (mac : Bytes) (x : Transaction)
    → x.xid ≡ xid
    → x.client_mac ≡ mac
    → is_transaction xid mac x ≡ true
unfolding is_transaction
keys-is_transaction xid mac x h k =
    ground (arith, (==_iff x.xid xid).1 h, (bytes_eq_iff x.client_mac mac).1 k)

-- Two keys that differ do so from either side.
is_transaction_sym :
    (xid : ℕ) (mac : Bytes) (x y : Transaction)
    → y.xid ≡ xid
    → y.client_mac ≡ mac
    → is_transaction xid mac x ≡ false
    → is_transaction x.xid x.client_mac y ≡ false
is_transaction_sym xid mac x y p q h = elim (Bool-cases (is_transaction x.xid x.client_mac y)) [
  | inr e ↦ e
  | inl e ↦
      let (i, j) = is_transaction-keys x.xid x.client_mac y e in
      ground (arith, keys-is_transaction xid mac x (sym i ∙ p) (sym j ∙ q), h)
]

module _ (xid : ℕ) (mac : Bytes) (ref : Ref) (f : Transaction → Transaction)
    (keeps : (x : Transaction) → ((f x).xid ≡ x.xid) × ((f x).client_mac ≡ x.client_mac)) where
  put-Absent :
      (x : Transaction) (xs : List Transaction)
      → is_transaction xid mac x ≡ false
      → Absent x.xid x.client_mac xs
      → Absent x.xid x.client_mac (put_transaction xid mac ref f xs)
  unfolding put_transaction Absent
  put-Absent x [] h k = (is_transaction_sym xid mac x _ (keeps _).0 (keeps _).1 h, tt)
  put-Absent x (y ∷ ys) h k = elim (Bool-cases (is_transaction xid mac y)) [
    | inl e ↦
        let (i, j) = is_transaction-keys xid mac y e in
        rw e (is_transaction_sym xid mac x (f y) ((keeps y).0 ∙ i) ((keeps y).1 ∙ j) h, k.1)
    | inr e ↦ rw e (k.0, put-Absent x ys h k.1)
  ]

  -- A write to the transaction of a client and an id that leaves both alone keeps a list in which no two
  -- transactions are of the same client and id.
  pub put_transaction-Separate :
      (xs : List Transaction) → Separate xs → Separate (put_transaction xid mac ref f xs)
  unfolding put_transaction Separate
  put_transaction-Separate [] h = (unfold Absent in tt, tt)
  put_transaction-Separate (x ∷ xs) h = elim (Bool-cases (is_transaction xid mac x)) [
    | inl e ↦
        let same : (x.xid ≡ (f x).xid) × (x.client_mac ≡ (f x).client_mac) =
          (sym (keeps x).0, sym (keeps x).1) in
        rw e (
          subst (λ i. Absent i (f x).client_mac xs) same.0
              (subst (λ m. Absent x.xid m xs) same.1 h.0),
          h.1,
        )
    | inr e ↦ rw e (put-Absent x xs e h.0, put_transaction-Separate xs h.1)
  ]
