-- ===== src/Device/Conflicts.antt =====
-- When `noteClaim` of internal/device/device.go reports a conflict.
use wirepup.Base.{
  ℕ, ◌<◌, true, false, Option, none, some, List, [], ◌∷◌, ◌++◌, ◌≡◌, ◌≢◌, ◌↔◌, refl, sym, ap, ◌∙◌,
  arith, inl, inr, ltb, lt→ltb, le→ltb, Bool-cases, length, Bytes, length-append,
}
use wirepup.Net.{Addr, addr_eq, addr_eq_iff, addr_eq_refl, bytes_eq_iff}
use wirepup.Device.Types.{State, is_strong, Ref, Conflict}
use wirepup.Device.Table.{
  Table, contains, find_claim, put_claim, claim_of, claim_from, join_claim, note_claim,
}

-- The claim of another MAC address with strong evidence, the first from this one.
nonzero : (n : ℕ) → n ≢ 0 → 0 < n
nonzero n h = ground (arith, h)

abbrev pub Disputed : Bytes → State → List Bytes → Type 0
Disputed mac s macs = (is_strong s ≡ true) × (contains mac macs ≡ false) × (0 < length macs)

module _ (mac : Bytes) (x : Addr) (s : State) (now : ℕ) (ref : Ref) (t : Table) where
  abbrev before : List Bytes
  before = (claim_of x now t.claims).macs

  weak-silent : is_strong s ≡ false → (note_claim mac x s now ref t).1 ≡ []
  unfolding note_claim
  weak-silent e = rw e refl

  pub old-silent : contains mac before ≡ true → (note_claim mac x s now ref t).1 ≡ []
  unfolding note_claim
  old-silent f = elim (Bool-cases (is_strong s)) [ inl e ↦ rw e (rw f refl) | inr e ↦ rw e refl ]

  first-silent :
      contains mac before ≡ false → length before ≡ 0 → (note_claim mac x s now ref t).1 ≡ []
  unfolding note_claim join_claim
  first-silent f h = elim (Bool-cases (is_strong s)) [
    | inl e ↦
        let g : ltb (length (before ++ (mac ∷ []))) 2 ≡ true =
          lt→ltb _ _ (omega (arith, length-append before (mac ∷ []))) in
        rw e (rw f (rw g refl))
    | inr e ↦ rw e refl
  ]

  reported-dispute : Disputed mac s before → (note_claim mac x s now ref t).1 ≢ []
  unfolding note_claim join_claim
  reported-dispute (e, f, h) =
      let g : ltb (length (before ++ (mac ∷ []))) 2 ≡ false =
        le→ltb _ _ (omega (arith, length-append before (mac ∷ []))) in
      rw e (rw f (rw g (λ k. cc)))

  -- `noteClaim` raises an event exactly where strong evidence is the first claim of this MAC address
  -- on an address that another MAC address has claimed before.
  pub note_claim-Disputed :
      Disputed mac s (claim_of x now t.claims).macs ↔ ((note_claim mac x s now ref t).1 ≢ [])
  note_claim-Disputed = (
    reported-dispute,
    λ h. elim (Bool-cases (is_strong s)) [
      | inr e ↦ absurd (h (weak-silent e))
      | inl e ↦ elim (Bool-cases (contains mac before)) [
        | inl f ↦ absurd (h (old-silent f))
        | inr f ↦ (e, f, nonzero (length before) (λ z. h (first-silent f z)))
      ]
    ],
  )

-- What is found under an address after its claim has been put.
find_claim-put : (c : Conflict) (cs : List Conflict) → find_claim c.addr (put_claim c cs) ≡ some c
unfolding find_claim put_claim
find_claim-put c [] = rw (addr_eq_refl c.addr) refl
find_claim-put c (b ∷ bs) = elim (Bool-cases (addr_eq b.addr c.addr)) [
  | inl e ↦ rw e (rw (addr_eq_refl c.addr) refl)
  | inr e ↦ rw e (rw e (find_claim-put c bs))
]

contains-append : (mac : Bytes) (macs : List Bytes) → contains mac (macs ++ (mac ∷ [])) ≡ true
unfolding contains
contains-append mac [] = rw ((bytes_eq_iff mac mac).1 refl) refl
contains-append mac (m ∷ ms) = ground (arith, contains-append mac ms)

found_claim-addr :
    (x : Addr) (c : Conflict) (cs : List Conflict) → find_claim x cs ≡ some c → c.addr ≡ x
unfolding find_claim
found_claim-addr x c [] h = absurd (ground arith)
found_claim-addr x c (b ∷ bs) h = elim (Bool-cases (addr_eq b.addr x)) [
  | inl f ↦
      let k : find_claim x (b ∷ bs) ≡ some b = rw f refl in
      let same : b ≡ c = ap (λ o. elim o [ some y ↦ y | none ↦ b ]) (sym k ∙ h) in
      ap (λ c. c.addr) (sym same) ∙ (addr_eq_iff b.addr x).0 f
  | inr f ↦
      let k : find_claim x (b ∷ bs) ≡ find_claim x bs = rw f refl in
      found_claim-addr x c bs (sym k ∙ h)
]

claim_from-addr :
    (x : Addr) (now : ℕ) (cs : List Conflict) (o : Option Conflict)
    → find_claim x cs ≡ o
    → (claim_from x now o).addr ≡ x
unfolding claim_from
claim_from-addr x now cs none e = refl
claim_from-addr x now cs (some c) e = found_claim-addr x c cs e

pub claim_of-addr : (x : Addr) (now : ℕ) (cs : List Conflict) → (claim_of x now cs).addr ≡ x
unfolding claim_of
claim_of-addr x now cs = claim_from-addr x now cs (find_claim x cs) refl

pub claim_of-put :
    (x : Addr) (now : ℕ) (c : Conflict) (cs : List Conflict)
    → c.addr ≡ x
    → claim_of x now (put_claim c cs) ≡ c
unfolding claim_of claim_from
claim_of-put x now c cs e =
    ap (claim_from x now) (ap (λ y. find_claim y (put_claim c cs)) (sym e) ∙ find_claim-put c cs)

pub join_claim-claims :
    (mac : Bytes) (now : ℕ) (ref : Ref) (c : Conflict) (t : Table)
    → (join_claim mac now ref c t).0.claims
      ≡ put_claim
          (record c { last_seen = now; macs = c.macs ++ (mac ∷ []); refs = c.refs ++ (ref ∷ []) })
          t.claims
unfolding join_claim
join_claim-claims mac now ref c t = elim (Bool-cases (ltb (length (c.macs ++ (mac ∷ []))) 2)) [
  | inl e ↦ rw e refl
  | inr e ↦ rw e refl
]

-- Strong evidence is recorded, whether or not it raises an event.
pub note_claim-recorded :
    (mac : Bytes) (x : Addr) (s : State) (now later : ℕ) (ref : Ref) (t : Table)
    → is_strong s ≡ true
    → contains mac (claim_of x later (note_claim mac x s now ref t).0.claims).macs ≡ true
unfolding note_claim
note_claim-recorded mac x s now later ref t e =
    let c = claim_of x now t.claims in
    let at : c.addr ≡ x = claim_of-addr x now t.claims in
    elim (Bool-cases (contains mac c.macs)) [
      | inl f ↦ rw e (
          rw f (
            ap (λ c. contains mac c.macs)
              (claim_of-put x later (record c { last_seen = now }) t.claims at)
            ∙ f))
      | inr f ↦
          let c' : Conflict = record c {
            last_seen = now;
            macs = c.macs ++ (mac ∷ []);
            refs = c.refs ++ (ref ∷ []);
          } in
          rw e (
            rw f (
              ap (λ cs. contains mac (claim_of x later cs).macs) (join_claim-claims mac now ref c t)
              ∙ ap (λ c. contains mac c.macs) (claim_of-put x later c' t.claims at)
              ∙ contains-append mac c.macs))
    ]
