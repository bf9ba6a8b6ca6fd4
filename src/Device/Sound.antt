-- ===== src/Device/Sound.antt =====
-- Sound device records of internal/device/device.go: the invariant of one record, kept by
-- `addAddress`.
use wirepup.Base.{
  ℕ, ◌+◌, ◌≤◌, Bool, true, false, ◌&&◌, Option, none, some, List, [], ◌∷◌, ◌++◌, ◌≡◌, refl, ap, ◌∙◌,
  arith, inl, inr, leb, Bool-cases, All, All-append,
}
use mathlib.Core.Path.{subst}
use wirepup.Net.{Addr, is6}
use wirepup.Device.Types.{
  State, rank, is_strong, is_seen, Via, Confidence, confirmed, Ref, Address, Device,
}
use wirepup.Device.Record.{
  raised, later, claim_line, raise_confidence, add_timeline, weak_count, find_address, put_address,
  family, with_family, renew_address, new_address, claim_found, claim_address, max_weak_addresses,
}
use wirepup.Device.Addresses.{
  Distinct, weight, put-All, put-Distinct, found-addr, found-All, weak_count-put, append-Distinct,
  weak_count-append,
}

-- An entry with strong evidence stands on a confirmed device.
abbrev pub Backed : Confidence → Address → Type 0
Backed c a = is_strong a.state ≡ true → c ≡ confirmed

-- The addresses of one family on a device with this confidence.
pub record Good (v6 : Bool) (c : Confidence) (l : List Address) : Type 0 where
  pub distinct : Distinct l
  pub bounded : weak_count l ≤ max_weak_addresses
  pub of_family : All (λ a. is6 a.addr ≡ v6) l
  pub backed : All (Backed c) l

pub record Sound (d : Device) : Type 0 where
  pub good4 : Good false d.confidence d.ipv4
  pub good6 : Good true d.confidence d.ipv6

-- The three ways in which `addAddress` treats the addresses of a family.
module _ (v6 : Bool) (c c' : Confidence) (l : List Address)
    (up : c ≡ confirmed → c' ≡ confirmed) where
  raise-All : (l : List Address) → All (Backed c) l → All (Backed c') l
  raise-All [] h = tt
  raise-All (a ∷ l) h = ((λ s. up (h.0 s)), raise-All l h.1)

  keep-Good : Good v6 c l → Good v6 c' l
  keep-Good g = record {
    distinct = g.distinct;
    bounded = g.bounded;
    of_family = g.of_family;
    backed = raise-All l g.backed;
  }

  renew-Good :
      (x : Addr) (a a' : Address)
      → Good v6 c l
      → find_address x l ≡ some a
      → a'.addr ≡ a.addr
      → weight a'.state ≤ weight a.state
      → Backed c' a'
      → Good v6 c' (put_address a' l)
  renew-Good x a a' g h e w k = record {
    distinct = put-Distinct a' l g.distinct;
    bounded = omega (arith, g.bounded, weak_count-put x a a' l h (e ∙ found-addr x a l h) w);
    of_family =
        put-All (λ b. is6 b.addr ≡ v6) a' l
          (ap is6 e ∙ found-All (λ b. is6 b.addr ≡ v6) x a l h g.of_family) g.of_family;
    backed = put-All (Backed c') a' l k (raise-All l g.backed);
  }

  append-Good :
      (a : Address)
      → Good v6 c l
      → find_address a.addr l ≡ none
      → weak_count l + weight a.state ≤ max_weak_addresses
      → is6 a.addr ≡ v6
      → Backed c' a
      → Good v6 c' (l ++ (a ∷ []))
  append-Good a g h w f k = record {
    distinct = append-Distinct a l h g.distinct;
    bounded = omega (arith, w, weak_count-append a l);
    of_family = All-append (λ b. is6 b.addr ≡ v6) l (a ∷ []) g.of_family (f, tt);
    backed = All-append (Backed c') l (a ∷ []) (raise-All l g.backed) (k, tt);
  }

raise-confirmed :
    (s : State) (d : Device)
    → d.confidence ≡ confirmed
    → (raise_confidence s d).confidence ≡ confirmed
unfolding raise_confidence raised
raise-confirmed s d h = elim (Bool-cases (is_strong s)) [
  | inl e ↦ rw e refl
  | inr e ↦ rw e (ap raised h)
]

raise-strong :
    (s : State) (d : Device) → is_strong s ≡ true → (raise_confidence s d).confidence ≡ confirmed
unfolding raise_confidence
raise-strong s d h = rw h refl

family-Good : (x : Addr) (d : Device) → Sound d → Good (is6 x) d.confidence (family x d)
unfolding family
family-Good x d h = elim (Bool-cases (is6 x)) [ inl e ↦ rw e h.good6 | inr e ↦ rw e h.good4 ]

-- The record with other addresses in the family of `x`.
with_family-Sound :
    (x : Addr) (l : List Address) (d : Device)
    → Sound d
    → Good (is6 x) d.confidence l
    → Sound (with_family x l d)
unfolding with_family
with_family-Sound x l d h g = elim (Bool-cases (is6 x)) [
  | inl e ↦ rw e (record { good4 = h.good4; good6 = subst (λ v. Good v d.confidence l) e g })
  | inr e ↦ rw e (record { good4 = subst (λ v. Good v d.confidence l) e g; good6 = h.good6 })
]

-- The same where the claim also raises the confidence of the device.
claim_line-Sound :
    (x : Addr) (l : List Address) (via : Via) (now : ℕ) (ref : Ref) (s : State) (d : Device)
    → Sound d
    → Good (is6 x) (raise_confidence s d).confidence l
    → Sound (claim_line via x now ref s (with_family x l d))
unfolding claim_line with_family add_timeline raise_confidence
claim_line-Sound x l via now ref s d h g =
    let c = (raise_confidence s d).confidence in
    elim (Bool-cases (is6 x)) [
      | inl e ↦ rw e (record {
        good4 = keep-Good false d.confidence c d.ipv4 (raise-confirmed s d) h.good4;
        good6 = subst (λ v. Good v c l) e g;
      })
      | inr e ↦ rw e (record {
        good4 = subst (λ v. Good v c l) e g;
        good6 = keep-Good true d.confidence c d.ipv6 (raise-confirmed s d) h.good6;
      })
    ]

-- A state above another one is not "seen".
stronger-weight : (s r : State) → leb (rank s) (rank r) ≡ false → weight s ≤ weight r
unfolding rank is_seen
stronger-weight State.seen State.seen h = omega arith
stronger-weight State.seen State.probing h = absurd (ground arith)
stronger-weight State.seen State.observed h = absurd (ground arith)
stronger-weight State.seen State.claimed h = absurd (ground arith)
stronger-weight State.seen State.leased h = absurd (ground arith)
stronger-weight State.probing r h = omega arith
stronger-weight State.observed r h = omega arith
stronger-weight State.claimed r h = omega arith
stronger-weight State.leased r h = omega arith

renew_address-Sound :
    (x : Addr) (s : State) (via : Via) (now : ℕ) (ref : Ref) (d : Device) (a : Address)
    → find_address x (family x d) ≡ some a
    → Sound d
    → Sound (renew_address x s via now ref d a).0
unfolding renew_address
renew_address-Sound x s via now ref d a f h =
    let g = family-Good x d h in
    let l = family x d in
    let c = (raise_confidence s d).confidence in
    elim (Bool-cases (leb (rank s) (rank a.state))) [
      | inl e ↦
          let a' : Address = record a { last_seen = later now a.last_seen } in
          rw e (
            with_family-Sound x (put_address a' l) d h (
              renew-Good (is6 x) d.confidence d.confidence l (λ k. k) x a a' g f refl (omega arith)
                (found-All (Backed d.confidence) x a l f g.backed)))
      | inr e ↦
          let a' : Address = record a {
            last_seen = later now a.last_seen;
            state = s;
            via = via;
            ref = ref;
          } in
          rw e (
            claim_line-Sound x (put_address a' l) via now ref s d h (
              renew-Good (is6 x) d.confidence c l (raise-confirmed s d) x a a' g f refl
                (stronger-weight s a.state e) (raise-strong s d)))
    ]

new_address-Sound :
    (x : Addr) (s : State) (via : Via) (now : ℕ) (ref : Ref) (d : Device)
    → find_address x (family x d) ≡ none
    → Sound d
    → Sound (new_address x s via now ref d).0
unfolding new_address
new_address-Sound x s via now ref d f h =
    let g = family-Good x d h in
    let l = family x d in
    let c = (raise_confidence s d).confidence in
    let a : Address = record {
      addr = x;
      state = s;
      via = via;
      first_seen = now;
      last_seen = now;
      ref = ref;
    } in
    elim (Bool-cases (is_seen s && leb max_weak_addresses (weak_count l))) [
      | inl e ↦ rw e (record { good4 = h.good4; good6 = h.good6 })
      | inr e ↦ rw e (
          claim_line-Sound x (l ++ (a ∷ [])) via now ref s d h (
            append-Good (is6 x) d.confidence c l (raise-confirmed s d) a g f
              (ground (arith, e, g.bounded)) refl (raise-strong s d)))
    ]

claim_found-Sound :
    (x : Addr) (s : State) (via : Via) (now : ℕ) (ref : Ref) (d : Device) (o : Option Address)
    → find_address x (family x d) ≡ o
    → Sound d
    → Sound (claim_found x s via now ref d o).0
unfolding claim_found
claim_found-Sound x s via now ref d none e h = new_address-Sound x s via now ref d e h
claim_found-Sound x s via now ref d (some a) e h = renew_address-Sound x s via now ref d a e h

-- `addAddress` keeps a device record sound: in either family no address stands twice, at most 16
-- entries are only "seen", every entry is of the family, and an entry with strong evidence stands
-- on a confirmed device.
pub claim_address-Sound :
    (x : Addr) (s : State) (via : Via) (now : ℕ) (ref : Ref) (d : Device)
    → Sound d
    → Sound (claim_address x s via now ref d).0
unfolding claim_address
claim_address-Sound x s via now ref d h =
    claim_found-Sound x s via now ref d (find_address x (family x d)) refl h
