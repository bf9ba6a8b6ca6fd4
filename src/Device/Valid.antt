-- ===== src/Device/Valid.antt =====
-- Valid tables of internal/device/device.go, and that every packet keeps the table valid.
use wirepup.Base.{
  ℕ, Bool, true, false, ◌&&◌, Option, none, some, List, [], ◌∷◌, ◌++◌, ◌≡◌, refl, sym, ap, ◌∙◌,
  arith, if◌then◌else◌, inl, inr, Bool-cases, Bytes, All,
}
use mathlib.Core.Path.{subst}
use wirepup.Net.{Addr, bytes_eq, bytes_eq_iff}
use wirepup.Protocol.Icmpv6.{Prefix}
use wirepup.Device.Types.{State, Via, Protocol, Ref, Line, Device}
use wirepup.Device.Types.{Address, rank, is_seen}
use wirepup.Net.{is6}
use wirepup.Base.{leb}
use wirepup.Device.Record.{
  add_name, has_name, has_protocol, has_vlan, with_family, family, claim_line, claim_found,
  renew_address, new_address, max_weak_addresses, weak_count, find_address, raise_confidence,
  add_timeline, add_protocol, mark_router, add_vlan_record, claim_address,
}
use wirepup.Device.Table.{Table, find_device, modify, saw}
use wirepup.Device.Apply.{add_prefixes}
use wirepup.Device.Sound.{Sound, Good, claim_address-Sound}

-- No two records have the same key.
unfoldable pub Keyed : List Device → Type 0
Keyed [] = Unit
Keyed (d ∷ ds) = (find_device d.id ds ≡ none) × Keyed ds

abbrev pub Kept : List Device → Type 0
Kept ds = Keyed ds × All Sound ds

-- The table has one record for a key, and every record is sound.
unfoldable pub Valid : Table → Type 0
Valid t = Kept t.devices

-- A write that keeps the record of a key sound and under its key.
abbrev pub Keeps : Bytes → (Device → Device) → Type 0
Keeps mac f = (d : Device) → d.id ≡ mac → Sound d → (f d).id ≡ mac × Sound (f d)

absent-cons :
    (m : Bytes) (d : Device) (ds : List Device)
    → find_device m (d ∷ ds) ≡ none
    → (bytes_eq d.id m ≡ false) × (find_device m ds ≡ none)
unfolding find_device
absent-cons m d ds h = elim (Bool-cases (bytes_eq d.id m)) [
  | inl e ↦ ground arith
  | inr e ↦ ground arith
]

cons-absent :
    (m : Bytes) (d : Device) (ds : List Device)
    → bytes_eq d.id m ≡ false
    → find_device m ds ≡ none
    → find_device m (d ∷ ds) ≡ none
unfolding find_device
cons-absent m d ds h k = rw h k

module _ (mac : Bytes) (f : Device → Device) (k : Keeps mac f) where
  modify-absent :
      (m : Bytes) (ds : List Device)
      → All Sound ds
      → find_device m ds ≡ none
      → find_device m (modify mac f ds) ≡ none
  unfolding modify
  modify-absent m [] s h = h
  modify-absent m (d ∷ ds) s h =
      let (g, r) = absent-cons m d ds h in
      elim (Bool-cases (bytes_eq d.id mac)) [
        | inl e ↦
            let at = (bytes_eq_iff d.id mac).0 e in
            rw e (cons-absent m (f d) ds (ap (λ i. bytes_eq i m) ((k d at s.0).0 ∙ sym at) ∙ g) r)
        | inr e ↦ rw e (cons-absent m d (modify mac f ds) g (modify-absent m ds s.1 r))
      ]

  pub modify-Kept : (ds : List Device) → Kept ds → Kept (modify mac f ds)
  unfolding modify Keyed
  modify-Kept [] h = h
  modify-Kept (d ∷ ds) ((a, u), (s, v)) = elim (Bool-cases (bytes_eq d.id mac)) [
    | inl e ↦
        let at = (bytes_eq_iff d.id mac).0 e in
        let (i, s') = k d at s in rw e ((ap (λ j. find_device j ds) (i ∙ sym at) ∙ a, u), (s', v))
    | inr e ↦
        let (u', v') = modify-Kept ds (u, v) in rw e ((modify-absent d.id ds v a, u'), (s, v'))
  ]

append-absent :
    (m : Bytes) (d : Device) (ds : List Device)
    → find_device m ds ≡ none
    → bytes_eq d.id m ≡ false
    → find_device m (ds ++ (d ∷ [])) ≡ none
append-absent m d [] h e = cons-absent m d [] e h
append-absent m d (c ∷ cs) h e =
    let (g, r) = absent-cons m c cs h in
    cons-absent m c (cs ++ (d ∷ [])) g (append-absent m d cs r e)

unequal : (a b : Bytes) → bytes_eq a b ≡ false → bytes_eq b a ≡ false
unequal a b h = elim (Bool-cases (bytes_eq b a)) [
  | inl e ↦
      let same : a ≡ b = sym ((bytes_eq_iff b a).0 e) in
      ground (arith, (bytes_eq_iff a b).1 same, h)
  | inr e ↦ e
]

pub append-Kept :
    (d : Device) (ds : List Device)
    → find_device d.id ds ≡ none
    → Sound d
    → Kept ds
    → Kept (ds ++ (d ∷ []))
unfolding Keyed find_device
append-Kept d [] h s k = ((refl, tt), (s, tt))
append-Kept d (c ∷ cs) h s ((a, u), (v, w)) =
    let (g, r) = absent-cons d.id c cs h in
    let (u', w') = append-Kept d cs r s (u, w) in
    ((append-absent c.id d cs a (unequal c.id d.id g), u'), (v, w'))

-- A write that leaves the addresses and the confidence alone.
same-Sound :
    (d e : Device)
    → e.ipv4 ≡ d.ipv4
    → e.ipv6 ≡ d.ipv6
    → e.confidence ≡ d.confidence
    → Sound d
    → Sound e
same-Sound d e p q r h = record {
  good4 =
      subst (λ c. Good false c e.ipv4) (sym r) (subst (Good false d.confidence) (sym p) h.good4);
  good6 = subst (λ c. Good true c e.ipv6) (sym r) (subst (Good true d.confidence) (sym q) h.good6);
}

-- A predicate at both branches of a test.
pub branch {ℓ κ} :
    {A : Type ℓ} (P : A → Type κ) (b : Bool) {x y : A} → P x → P y → P (if b then x else y)
branch P true h k = h
branch P false h k = k

pub saw-Keeps : (mac : Bytes) (now : ℕ) → Keeps mac (saw now)
saw-Keeps mac now d e h = (e, same-Sound d (saw now d) refl refl refl h)

pub timeline-Keeps :
    (mac : Bytes) (now : ℕ) (line : Line) (ref : Ref) → Keeps mac (add_timeline now line ref)
unfolding add_timeline
timeline-Keeps mac now line ref d e h =
    (e, same-Sound d (add_timeline now line ref d) refl refl refl h)

pub protocol-Keeps : (mac : Bytes) (p : Protocol) → Keeps mac (add_protocol p)
unfolding add_protocol
protocol-Keeps mac p d e h =
    branch (λ (c : Device). c.id ≡ mac × Sound c) (has_protocol p d.protocols) (e, h)
      (e, same-Sound d _ refl refl refl h)

pub name-Keeps :
    (mac value : Bytes) (via : Via) (ref : Ref) (now : ℕ) → Keeps mac (add_name value via ref now)
unfolding add_name
name-Keeps mac value via ref now d e h =
    branch (λ (c : Device). c.id ≡ mac × Sound c) (has_name value via d.names) (e, h)
      (timeline-Keeps mac now _ ref _ e (same-Sound d _ refl refl refl h))

pub router-Keeps : (mac : Bytes) (now : ℕ) (ref : Ref) → Keeps mac (mark_router now ref)
unfolding mark_router
router-Keeps mac now ref d e h =
    let d' : Device = record d { router = true } in
    let (i, s) = protocol-Keeps mac Protocol.ipv6_router d' e (same-Sound d d' refl refl refl h) in
    branch (λ (c : Device). c.id ≡ mac × Sound c) d.router (e, h)
      (timeline-Keeps mac now _ ref _ i s)

pub prefixes-Keeps :
    (mac : Bytes) (now : ℕ) (ref : Ref) (ps : List Prefix) → Keeps mac (add_prefixes now ref ps)
unfolding add_prefixes
prefixes-Keeps mac now ref [] d e h = (e, h)
prefixes-Keeps mac now ref (p ∷ ps) d e h =
    let (i, s) = timeline-Keeps mac now _ ref d e h in prefixes-Keeps mac now ref ps _ i s

pub vlan_record-Keeps :
    (mac : Bytes) (id now : ℕ) (ref : Ref) → Keeps mac (λ d. (add_vlan_record id now ref d).0)
unfolding add_vlan_record
vlan_record-Keeps mac id now ref d e h =
    branch (λ (r : Device × Bool). r.0.id ≡ mac × Sound r.0) (has_vlan id d.vlans) (e, h)
      (timeline-Keeps mac now _ ref _ e (same-Sound d _ refl refl refl h))

family-id : (x : Addr) (l : List Address) (d : Device) → (with_family x l d).id ≡ d.id
unfolding with_family
family-id x l d = branch (λ (c : Device). c.id ≡ d.id) (is6 x) refl refl

claim_line-id :
    (x : Addr) (l : List Address) (via : Via) (now : ℕ) (ref : Ref) (s : State) (d : Device)
    → (claim_line via x now ref s (with_family x l d)).id ≡ d.id
unfolding claim_line add_timeline raise_confidence
claim_line-id x l via now ref s d = family-id x l d

claim_found-id :
    (x : Addr) (s : State) (via : Via) (now : ℕ) (ref : Ref) (d : Device) (o : Option Address)
    → (claim_found x s via now ref d o).0.id ≡ d.id
unfolding claim_found renew_address new_address
claim_found-id x s via now ref d (some a) =
    branch (λ (r : Device × Bool). r.0.id ≡ d.id) (leb (rank s) (rank a.state)) (family-id x _ d)
      (claim_line-id x _ via now ref s d)
claim_found-id x s via now ref d none =
    branch (λ (r : Device × Bool). r.0.id ≡ d.id)
      (is_seen s && leb max_weak_addresses (weak_count (family x d))) refl
      (claim_line-id x _ via now ref s d)

pub claim_address-Keeps :
    (mac : Bytes) (x : Addr) (s : State) (via : Via) (now : ℕ) (ref : Ref)
    → Keeps mac (λ d. (claim_address x s via now ref d).0)
unfolding claim_address
claim_address-Keeps mac x s via now ref d e h = (
  claim_found-id x s via now ref d (find_address x (family x d)) ∙ e,
  claim_address-Sound x s via now ref d h,
)

-- The write of a record that was computed before.
pub found-Keeps : (mac : Bytes) (d : Device) → d.id ≡ mac → Sound d → Keeps mac (λ _. d)
found-Keeps mac d e h c _ _ = (e, h)

-- What the table knows of the record under a key.
pub found-Sound :
    (mac : Bytes) (d : Device) (ds : List Device)
    → find_device mac ds ≡ some d
    → All Sound ds
    → (d.id ≡ mac) × Sound d
unfolding find_device
found-Sound mac d [] h k = absurd (ground arith)
found-Sound mac d (c ∷ cs) h k = elim (Bool-cases (bytes_eq c.id mac)) [
  | inl e ↦
      let r : find_device mac (c ∷ cs) ≡ some c = rw e refl in
      let same : c ≡ d = ap (λ o. elim o [ some y ↦ y | none ↦ c ]) (sym r ∙ h) in
      subst (λ y. (y.id ≡ mac) × Sound y) same ((bytes_eq_iff c.id mac).0 e, k.0)
  | inr e ↦
      let r : find_device mac (c ∷ cs) ≡ find_device mac cs = rw e refl in
      found-Sound mac d cs (sym r ∙ h) k.1
]
