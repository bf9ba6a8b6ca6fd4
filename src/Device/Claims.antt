-- ===== src/Device/Claims.antt =====
-- What `noteClaim` of internal/device/device.go remembers over any number of claims.
use mathlib.Core.Path.{subst}
use wirepup.Base.{
  ℕ, true, false, Option, none, some, List, [], ◌∷◌, ◌++◌, ◌≡◌, refl, sym, ap, ◌∙◌, arith, inl, inr,
  Bool-cases, Bytes,
}
use wirepup.Net.{Addr, addr_eq, addr_eq_iff, bytes_eq}
use wirepup.Device.Types.{State, is_strong, Ref, Conflict}
use wirepup.Device.Table.{Table, contains, find_claim, put_claim, claim_of, claim_from, note_claim}
use wirepup.Device.Conflicts.{
  old-silent, claim_of-addr, claim_of-put, join_claim-claims, note_claim-recorded,
}

-- The arguments of a call of `noteClaim`.
pub record Claim : Type 0 where
  pub mac : Bytes
  pub addr : Addr
  pub state : State
  pub time : ℕ
  pub ref : Ref

-- The table after some calls, one after the other.
abbrev pub claim_all : List Claim → Table → Table
claim_all [] t = t
claim_all (c ∷ cs) t = claim_all cs (note_claim c.mac c.addr c.state c.time c.ref t).0

contains-more :
    (mac : Bytes) (l r : List Bytes) → contains mac l ≡ true → contains mac (l ++ r) ≡ true
unfolding contains
contains-more mac [] r h = absurd (ground arith)
contains-more mac (m ∷ l) r h = elim (Bool-cases (bytes_eq m mac)) [
  | inl e ↦ rw e refl
  | inr e ↦ let k : contains mac l ≡ true = ground arith in rw e (contains-more mac l r k)
]

-- A claim on one address leaves those on the others alone.
find_claim-other :
    (x : Addr) (c : Conflict) (cs : List Conflict)
    → addr_eq c.addr x ≡ false
    → find_claim x (put_claim c cs) ≡ find_claim x cs
unfolding find_claim put_claim
find_claim-other x c [] h = rw h refl
find_claim-other x c (b ∷ bs) h = elim (Bool-cases (addr_eq b.addr c.addr)) [
  | inl e ↦
      let same : addr_eq b.addr x ≡ false =
        ap (λ y. addr_eq y x) ((addr_eq_iff b.addr c.addr).0 e) ∙ h in
      rw (e, h, same) refl
  | inr e ↦ elim (Bool-cases (addr_eq b.addr x)) [
    | inl f ↦ rw (e, f) refl
    | inr f ↦ rw (e, f) (find_claim-other x c bs h)
  ]
]

-- Whose claims the table has on an address does not depend on the time of a new record.
macs-time :
    (x : Addr) (now later : ℕ) (o : Option Conflict)
    → (claim_from x now o).macs ≡ (claim_from x later o).macs
unfolding claim_from
macs-time x now later none = refl
macs-time x now later (some c) = refl

module _ (mac : Bytes) (x : Addr) (later : ℕ) where
  -- The MAC address has a claim on the address.
  abbrev HasClaim : List Conflict → Type 0
  HasClaim cs = contains mac (claim_of x later cs).macs ≡ true

  put_claim-HasClaim :
      (c : Conflict) (cs : List Conflict)
      → (c.addr ≡ x → HasClaim cs → contains mac c.macs ≡ true)
      → HasClaim cs
      → HasClaim (put_claim c cs)
  unfolding claim_of
  put_claim-HasClaim c cs grows h = elim (Bool-cases (addr_eq c.addr x)) [
    | inl e ↦
        let at : c.addr ≡ x = (addr_eq_iff c.addr x).0 e in
        ap (λ (c : Conflict). contains mac c.macs) (claim_of-put x later c cs at) ∙ grows at h
    | inr e ↦ ap (λ o. contains mac (claim_from x later o).macs) (find_claim-other x c cs e) ∙ h
  ]

  -- The record that a claim starts from has the MAC address, where it is about the address.
  claim_of-HasClaim :
      (y : Addr) (now : ℕ) (cs : List Conflict)
      → y ≡ x
      → HasClaim cs
      → contains mac (claim_of y now cs).macs ≡ true
  unfolding claim_of
  claim_of-HasClaim y now cs e h =
      ap (λ y. contains mac (claim_from y now (find_claim y cs)).macs) e
      ∙ ap (contains mac) (macs-time x now later (find_claim x cs))
      ∙ h

  note_claim-HasClaim :
      (m : Bytes) (y : Addr) (s : State) (now : ℕ) (ref : Ref) (t : Table)
      → HasClaim t.claims
      → HasClaim (note_claim m y s now ref t).0.claims
  unfolding note_claim
  note_claim-HasClaim m y s now ref t h =
      let c = claim_of y now t.claims in
      let at : c.addr ≡ y = claim_of-addr y now t.claims in
      let old : c.addr ≡ x → HasClaim t.claims → contains mac c.macs ≡ true =
        λ e k. claim_of-HasClaim y now t.claims (sym at ∙ e) k in
      elim (Bool-cases (is_strong s)) [
        | inr e ↦ rw e h
        | inl e ↦ elim (Bool-cases (contains m c.macs)) [
          | inl f ↦ rw e (rw f (put_claim-HasClaim (record c { last_seen = now }) t.claims old h))
          | inr f ↦
              let c' : Conflict = record c {
                last_seen = now;
                macs = c.macs ++ (m ∷ []);
                refs = c.refs ++ (ref ∷ []);
              } in
              let kept : HasClaim (put_claim c' t.claims) =
                put_claim-HasClaim c' t.claims (λ e k. contains-more mac c.macs (m ∷ []) (old e k))
                  h in
              rw e (rw f (subst HasClaim (sym (join_claim-claims m now ref c t)) kept))
        ]
      ]

  claim_all-HasClaim :
      (cs : List Claim) (t : Table) → HasClaim t.claims → HasClaim (claim_all cs t).claims
  claim_all-HasClaim [] t h = h
  claim_all-HasClaim (c ∷ cs) t h =
      claim_all-HasClaim cs (note_claim c.mac c.addr c.state c.time c.ref t).0
        (note_claim-HasClaim c.mac c.addr c.state c.time c.ref t h)

-- A MAC address that has claimed an address with strong evidence is not reported for any later claim
-- on it, whatever the state of that one, and whatever claims of any MAC addresses on any addresses
-- stand between the two.
pub note_claim-once :
    (mac : Bytes) (x : Addr) (s r : State) (now later : ℕ) (ref ref' : Ref) (t : Table)
    (between : List Claim)
    → is_strong s ≡ true
    → (note_claim mac x r later ref' (claim_all between (note_claim mac x s now ref t).0)).1 ≡ []
note_claim-once mac x s r now later ref ref' t between e =
    let t' = (note_claim mac x s now ref t).0 in
    old-silent mac x r later ref' (claim_all between t')
      (claim_all-HasClaim mac x later between t' (note_claim-recorded mac x s now later ref t e))
