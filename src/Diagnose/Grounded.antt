-- ===== src/Diagnose/Grounded.antt =====
-- What `Run` of internal/diagnose/diagnose.go infers and recommends rests on what it has observed.
use wirepup.Base.{
  ℕ, ◌/◌, ◌*◌, Bool, true, false, not, ◌||◌, Option, none, some, List, [], ◌∷◌, ◌++◌, ◌≡◌, ◌≢◌, ◌⊎◌,
  inl, inr, refl, sym, ◌∙◌, All, All-append, All-map, Ensures, Ensures-bind, Ensures-if, Go, ret,
}
use wirepup.Net.{Addr, is4, is_valid, addr_eq}
use wirepup.Active.{as4}
use wirepup.Device.Types.{is_strong, Address, Device, Conflict}
use wirepup.Device.Valid.{branch}
use wirepup.Diagnose.Candidate.{
  Prefix, Context, assumed_prefix, candidate, used_by, search, taken, used_by-taken, Highest,
  search-Highest,
}
use wirepup.Diagnose.Report.{
  l2_evidence, address_claim, outside_local_subnet, same_l2_diff_subnet, temporary_address,
  target_on_local_subnet, duplicate_address, target_not_observed, local_context, no_local_ipv4,
  Finding, Report, observe, infer, recommend, general, about, claimed, suggestion, prefix_around,
  containing, observe_context, outside, evaluate_found, evaluate_address, evaluate_strong,
  evaluate_target, each_address, each_device, report_conflicts, note_unseen, conflicts_on,
  diagnose_target, run, Code,
}

-- One of the findings at least has the property.
abbrev pub Some : (Finding → Type 0) → List Finding → Type 0
Some P [] = ⊥
Some P (g ∷ gs) = P g ⊎ Some P gs

Some-more : (P : Finding → Type 0) (obs more : List Finding) → Some P obs → Some P (obs ++ more)
Some-more P [] more h = absurd h
Some-more P (g ∷ gs) more (inl e) = inl e
Some-more P (g ∷ gs) more (inr h) = inr (Some-more P gs more h)

Some-last :
    (P : Finding → Type 0) (g : Finding) (obs : List Finding) → P g → Some P (obs ++ (g ∷ []))
Some-last P g [] e = inl e
Some-last P g (x ∷ obs) e = inr (Some-last P g obs e)

-- The findings that need no evidence: those about the host itself, and that a target was not seen.
abbrev pub is_uncited : Code → Bool
is_uncited code = elim code [
  | local_context ↦ true
  | no_local_ipv4 ↦ true
  | target_not_observed ↦ true
  | _ ↦ false
]

abbrev pub Cites : Finding → Type 0
Cites f = (is_uncited f.code ≡ true) ⊎ (f.evidence ≢ [])

-- `f` cites evidence, and an observed finding has the same; or `f` says that a target was not seen, and
-- is observed as it is.
abbrev pub Rests : Finding → List Finding → Type 0
Rests f obs =
    ((f.evidence ≢ []) × Some (λ g. g.evidence ≡ f.evidence) obs)
    ⊎ ((f.code ≡ target_not_observed) × Some (λ g. g ≡ f) obs)

Rests-more : (f : Finding) (obs more : List Finding) → Rests f obs → Rests f (obs ++ more)
Rests-more f obs more (inl (c, h)) = inl (c, Some-more _ obs more h)
Rests-more f obs more (inr (c, h)) = inr (c, Some-more _ obs more h)

-- A conflict cites a packet at least.
abbrev pub HasRefs : Conflict → Type 0
HasRefs c = c.refs ≢ []

conflicts_on-HasRefs :
    (x : Addr) (cs : List Conflict) → All HasRefs cs → All HasRefs (conflicts_on x cs)
unfolding conflicts_on
conflicts_on-HasRefs x [] h = tt
conflicts_on-HasRefs x (c ∷ cs) h =
    branch (All HasRefs) (addr_eq c.addr x) (h.0, conflicts_on-HasRefs x cs h.1)
      (conflicts_on-HasRefs x cs h.1)

-- Only IPv4 addresses in the list of a device for them.
abbrev pub Holds4 : Device → Type 0
Holds4 d = All (λ (a : Address). is4 a.addr ≡ true) d.ipv4

module _ (c : Context) (devices : List Device) where
  -- No address, or one that nobody has.
  abbrev pub IsFree : Addr → Type 0
  IsFree x = (x ≡ Addr.invalid) ⊎ (taken c devices x ≡ false)

  abbrev pub Recommends : List Finding → Finding → Type 0
  Recommends obs f = Rests f obs × IsFree f.address

  -- Everything observed cites evidence, where it needs some; everything inferred or recommended rests on
  -- something observed, and a recommended address is free.
  abbrev pub Grounded : Report → Type 0
  Grounded r =
      All Cites r.observed
      × All (λ f. Rests f r.observed) r.inferred
      × All (Recommends r.observed) r.recommended

  observe-Grounded : (f : Finding) (r : Report) → Cites f → Grounded r → Grounded (observe f r)
  observe-Grounded f r c (o, h, k) = (
    All-append Cites r.observed (f ∷ []) o (c, tt),
    All-map _ _ (λ g b. Rests-more g r.observed (f ∷ []) b) r.inferred h,
    All-map _ _ (λ g b. (Rests-more g r.observed (f ∷ []) b.0, b.1)) r.recommended k,
  )

  infer-Grounded :
      (f : Finding) (r : Report) → Rests f r.observed → Grounded r → Grounded (infer f r)
  infer-Grounded f r b (o, h, k) = (o, All-append _ r.inferred (f ∷ []) h (b, tt), k)

  recommend-Grounded :
      (f : Finding) (r : Report) → Recommends r.observed f → Grounded r → Grounded (recommend f r)
  recommend-Grounded f r b (o, h, k) = (o, h, All-append _ r.recommended (f ∷ []) k (b, tt))

  IsFree-option :
      (base n : ℕ) (o : Option Addr) → Highest (used_by c devices) base n o → IsFree (suggestion o)
  IsFree-option base n none h = inl refl
  IsFree-option base n (some x) (i, l, m, e, u, f) = inr (sym (used_by-taken x c devices) ∙ u)

  candidate-IsFree :
      (x : Addr)
      → is4 x ≡ true
      → Ensures (λ o. IsFree (suggestion o)) (candidate (prefix_around x) c devices)
  unfolding candidate prefix_around as4 assumed_prefix is4
  candidate-IsFree Addr.invalid h = absurd (cc)
  candidate-IsFree (Addr.v6 a) h = absurd (cc)
  candidate-IsFree (Addr.v4 a) h =
      IsFree-option (a / 256 * 256) 254 (search (used_by c devices) (a / 256 * 256) 254)
        (search-Highest (used_by c devices) (a / 256 * 256) 254)

  claimed-Grounded : (d : Device) (a : Address) (r : Report) → Grounded r → Grounded (claimed d a r)
  claimed-Grounded d a r g =
      observe-Grounded (about address_claim d a) (observe (about l2_evidence d a) r) (inr (λ z. cc))
        (observe-Grounded (about l2_evidence d a) r (inr (λ z. cc)) g)

  -- What `claimed` has observed is what the other findings rest on.
  claimed-Rests :
      (f : Finding) (d : Device) (a : Address) (r : Report)
      → a.ref ∷ [] ≡ f.evidence
      → Rests f (claimed d a r).observed
  claimed-Rests f d a r e = inl (
    (λ z. cc),
    Some-last (λ g. g.evidence ≡ f.evidence) (about address_claim d a)
        (observe (about l2_evidence d a) r).observed e,
  )

  outside-Grounded :
      (d : Device) (a : Address) (r : Report)
      → is4 a.addr ≡ true
      → Grounded r
      → Ensures Grounded (outside c d a devices (claimed d a r))
  unfolding outside
  outside-Grounded d a r v g =
      Ensures-bind (λ o. IsFree (suggestion o)) Grounded
        (candidate (prefix_around a.addr) c devices) _ (candidate-IsFree a.addr v)
        (λ o free.
          let r1 : Report = claimed d a r in
          let f1 : Finding = about outside_local_subnet d a in
          let f2 : Finding = about same_l2_diff_subnet d a in
          let f3 : Finding = general temporary_address (a.ref ∷ []) (suggestion o) in
          recommend-Grounded f3 (infer f2 (infer f1 r1)) (claimed-Rests f3 d a r refl, free)
            (infer-Grounded f2 (infer f1 r1) (claimed-Rests f2 d a r refl)
              (infer-Grounded f1 r1 (claimed-Rests f1 d a r refl) (claimed-Grounded d a r g))))

  found-Grounded :
      (d : Device) (a : Address) (r : Report) (o : Option Prefix)
      → is4 a.addr ≡ true
      → Grounded r
      → Ensures Grounded (evaluate_found c d a devices (claimed d a r) o)
  unfolding evaluate_found
  found-Grounded d a r (some p) v g =
      infer-Grounded (about target_on_local_subnet d a) (claimed d a r)
        (claimed-Rests (about target_on_local_subnet d a) d a r refl) (claimed-Grounded d a r g)
  found-Grounded d a r none v g = outside-Grounded d a r v g

  local-Grounded :
      (d : Device) (a : Address) (r : Report)
      → is4 a.addr ≡ true
      → Grounded r
      → Ensures Grounded (evaluate_address c d a devices r)
  unfolding evaluate_address
  local-Grounded d a r v g = at_prefixes c.local_ipv4
    where
      at_prefixes :
          (ps : List Prefix)
          → Ensures Grounded (elim ps [
            | [] ↦ ret (claimed d a r)
            | _ ∷ _ ↦ evaluate_found c d a devices (claimed d a r) (containing c.local_ipv4 a.addr)
          ])
      at_prefixes [] = claimed-Grounded d a r g
      at_prefixes (p ∷ ps) = found-Grounded d a r (containing c.local_ipv4 a.addr) v g

  strong-Grounded :
      (d : Device) (a : Address) (r : Report)
      → is4 a.addr ≡ true
      → Grounded r
      → Ensures Grounded (evaluate_strong c devices d a r)
  unfolding evaluate_strong
  strong-Grounded d a r v g =
      Ensures-if Grounded (not (is_strong a.state) || d.is_local) _ _ (λ e. g)
        (λ e. local-Grounded d a r v g)

  target-Grounded :
      (d : Device) (a : Address) (r : Report)
      → is4 a.addr ≡ true
      → Grounded r
      → Ensures Grounded (evaluate_target c devices d a r)
  unfolding evaluate_target
  target-Grounded d a r v g =
      Ensures-if Grounded (not (addr_eq a.addr r.target) || not (is_strong a.state)) _ _ (λ e. g)
        (λ e. local-Grounded d a (record r { target_seen = true }) v g)

  module _ (body : Device → Address → Report → Go Report)
      (step : (d : Device) (a : Address) (r : Report)
        → is4 a.addr ≡ true
        → Grounded r
        → Ensures Grounded (body d a r)) where
    each_address-Grounded :
        (d : Device) (l : List Address) (r : Report)
        → All (λ (a : Address). is4 a.addr ≡ true) l
        → Grounded r
        → Ensures Grounded (each_address body d l r)
    unfolding each_address
    each_address-Grounded d [] r h g = g
    each_address-Grounded d (a ∷ l) r (v, h) g =
        Ensures-bind Grounded Grounded (body d a r) _ (step d a r v g)
          (λ r' g'. each_address-Grounded d l r' h g')

    each_device-Grounded :
        (ds : List Device) (r : Report)
        → All Holds4 ds
        → Grounded r
        → Ensures Grounded (each_device body ds r)
    unfolding each_device
    each_device-Grounded [] r h g = g
    each_device-Grounded (d ∷ ds) r (v, h) g =
        Ensures-bind Grounded Grounded (each_address body d d.ipv4 r) _
          (each_address-Grounded d d.ipv4 r v g) (λ r' g'. each_device-Grounded ds r' h g')

  -- An observation and an inference with its evidence.
  cited-Grounded :
      (f : Finding) (r : Report) → f.evidence ≢ [] → Grounded r → Grounded (infer f (observe f r))
  cited-Grounded f r c g =
      infer-Grounded f (observe f r)
        (inl (c, Some-last (λ g. g.evidence ≡ f.evidence) f r.observed refl))
        (observe-Grounded f r (inr c) g)

  conflicts-Grounded :
      (cs : List Conflict) (r : Report)
      → All HasRefs cs
      → Grounded r
      → Grounded (report_conflicts cs r)
  unfolding report_conflicts
  conflicts-Grounded [] r h g = g
  conflicts-Grounded (x ∷ cs) r h g =
      conflicts-Grounded cs _ h.1 (cited-Grounded (general duplicate_address x.refs x.addr) r h.0 g)

  unseen-Grounded : (r : Report) → Grounded r → Grounded (note_unseen r)
  unfolding note_unseen
  unseen-Grounded r g =
      let f : Finding = general target_not_observed [] r.target in
      branch Grounded r.target_seen g (
        infer-Grounded f (observe f r) (inr (refl, Some-last (λ g. g ≡ f) f r.observed refl))
          (observe-Grounded f r (inl refl) g))

  context-Grounded : (r : Report) → Grounded r → Grounded (observe_context c r)
  unfolding observe_context
  context-Grounded r g = at_prefixes c.local_ipv4
    where
      at_prefixes :
          (ps : List Prefix)
          → Grounded (elim ps [
            | [] ↦ observe (general no_local_ipv4 [] Addr.invalid) r
            | _ ∷ _ ↦ observe (general local_context [] Addr.invalid) r
          ])
      at_prefixes [] = observe-Grounded _ r (inl refl) g
      at_prefixes (p ∷ ps) = observe-Grounded _ r (inl refl) g

  -- `Run` returns on every table whose devices have only IPv4 addresses in their lists of these, for every host
  -- context, every list of conflicts that each have a reference and every target or none. An observed finding cites
  -- evidence, but for the one about the host itself and one that the target was not seen. Whatever the report infers
  -- or recommends cites evidence, the same as a finding that it observes; but that the target was not seen is
  -- inferred without any, and is observed with the same words. A recommended address is one that no device of the table,
  -- no local prefix and no valid gateway has.
  pub run-Grounded :
      (conflicts : List Conflict) (target : Addr)
      → All Holds4 devices
      → All HasRefs conflicts
      → Ensures Grounded (run c devices conflicts target)
  unfolding run diagnose_target
  run-Grounded conflicts target h k =
      let r0 : Report = record {
        target = target;
        target_seen = false;
        observed = [];
        inferred = [];
        recommended = [];
      } in
      let g0 : Grounded (observe_context c r0) = context-Grounded r0 (tt, tt, tt) in
      Ensures-if Grounded (is_valid target) _ _
        (λ e.
          Ensures-bind Grounded Grounded
            (each_device (evaluate_target c devices) devices (observe_context c r0)) _
            (each_device-Grounded (evaluate_target c devices) target-Grounded devices _ h g0)
            (λ r' g'.
              conflicts-Grounded _ (note_unseen r')
                (conflicts_on-HasRefs (observe_context c r0).target conflicts k)
                (unseen-Grounded r' g')))
        (λ e.
          Ensures-bind Grounded Grounded
            (each_device (evaluate_strong c devices) devices (observe_context c r0)) _
            (each_device-Grounded (evaluate_strong c devices) strong-Grounded devices _ h g0)
            (λ r' g'. conflicts-Grounded conflicts r' k g'))
