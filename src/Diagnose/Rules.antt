-- ===== src/Diagnose/Rules.antt =====
-- `dhcpRules` and `autoIPRules` of internal/diagnose/rules.go. A time that was never set is `none`; times are in
-- nanoseconds.
use wirepup.Base.{
  ℕ, ◌+◌, Bool, true, false, not, ◌&&◌, Option, none, some, List, [], ◌∷◌, ◌++◌, ltb, leb,
  if◌then◌else◌, Bytes, ◌≡◌, refl, sym, ap, ◌∙◌, inl, inr, Bool-cases, arith,
}
use mathlib.Core.List.{append_assoc, append-nil}
use wirepup.Net.{Addr, is4, is_link_local_unicast}
use wirepup.Device.Types.{Ref, is_strong, Address, Device, Transaction}
use wirepup.Device.Table.{contains}

-- The findings of these rules: `mac` is whom they are about, and `fallback` whether the text of an Auto-IP finding speaks of a
-- failed exchange.
pub data Code : Type 0 where
  dhcp_no_offer dhcp_nak auto_ip_fallback : Code

pub record Finding : Type 0 where
  pub code : Code
  pub evidence : List Ref
  pub mac : Bytes
  pub address : Addr
  pub fallback : Bool

pub record Findings : Type 0 where
  pub observed : List Finding
  pub inferred : List Finding
  pub recommended : List Finding

abbrev pub dhcp_offer_grace : ℕ
dhcp_offer_grace = 2000000000

abbrev pub is_set : Option ℕ → Bool
is_set none = false
is_set (some t) = true

-- `!end.IsZero() && end.Sub(x.Discover) < dhcpOfferGrace`, for a discover that is set.
unfoldable pub in_grace : Option ℕ → Option ℕ → Bool
in_grace (some end) (some discover) = ltb end (discover + dhcp_offer_grace)
in_grace _ _ = false

abbrev pub dhcp_finding : Code → Transaction → Finding
dhcp_finding code x = record {
  code = code;
  evidence = x.ref ∷ [];
  mac = x.client_mac;
  address = Addr.invalid;
  fallback = false;
}

abbrev pub silent : Transaction → Bool
silent x = is_set x.discover && not (is_set x.offer) && not (is_set x.ack)

abbrev pub note_no_offer : Transaction → Findings → Findings
note_no_offer x r = record {
  observed = r.observed ++ (dhcp_finding dhcp_no_offer x ∷ []);
  inferred = r.inferred ++ (dhcp_finding dhcp_no_offer x ∷ []);
  recommended = r.recommended ++ (dhcp_finding dhcp_no_offer x ∷ []);
}

unfoldable pub note_nak : Transaction → Findings → Findings
note_nak x r =
    if is_set x.nak
    then record r {
      observed = r.observed ++ (dhcp_finding dhcp_nak x ∷ []);
      inferred = r.inferred ++ (dhcp_finding dhcp_nak x ∷ []);
    }
    else r

-- One round; within the grace it goes on with the next exchange, past the NAK as well.
unfoldable pub dhcp_rule : Option ℕ → Transaction → Findings → Findings
dhcp_rule end x r =
    if silent x
    then (if in_grace end x.discover then r else note_nak x (note_no_offer x r))
    else note_nak x r

unfoldable pub dhcp_rules : List Transaction → Option ℕ → Findings → Findings
dhcp_rules [] end r = r
dhcp_rules (x ∷ xs) end r = dhcp_rules xs end (dhcp_rule end x r)

-- The clients whose exchange counts as failed.
unfoldable pub failed : List Transaction → Option ℕ → List Bytes
failed [] end = []
failed (x ∷ xs) end =
    if is_set x.discover && not (is_set x.ack) && not (in_grace end x.discover)
    then x.client_mac ∷ failed xs end
    else failed xs end

unfoldable pub auto_ip_addresses : List Bytes → Device → List Address → Findings → Findings
auto_ip_addresses lost d [] r = r
auto_ip_addresses lost d (a ∷ rest) r = auto_ip_addresses lost d rest (
    if is4 a.addr && is_link_local_unicast a.addr && is_strong a.state
    then record r {
      inferred =
          r.inferred
          ++ (record {
            code = auto_ip_fallback;
            evidence = a.ref ∷ [];
            mac = d.id;
            address = a.addr;
            fallback = contains d.id lost;
          }
              ∷ []);
    }
    else r)

unfoldable pub auto_ip_devices : List Bytes → List Device → Findings → Findings
auto_ip_devices lost [] r = r
auto_ip_devices lost (d ∷ ds) r = auto_ip_devices lost ds (auto_ip_addresses lost d d.ipv4 r)

unfoldable pub auto_ip_rules : List Transaction → List Device → Option ℕ → Findings → Findings
auto_ip_rules ts ds end r = auto_ip_devices (failed ts end) ds r

abbrev pub is_no_offer : Finding → Bool
is_no_offer f = elim f.code [ dhcp_no_offer ↦ true | _ ↦ false ]

-- The findings among these that report a discover without an offer.
abbrev pub no_offers : List Finding → List Finding
no_offers [] = []
no_offers (f ∷ fs) = if is_no_offer f then f ∷ no_offers fs else no_offers fs

-- Whether an exchange waits in vain, by the times of its discover, its offer and its acknowledgement, and the end of the
-- window: the end lies two seconds behind the discover at least, or there is none.
abbrev pub waits : Option ℕ → Option ℕ → Option ℕ → Option ℕ → Bool
waits (some d) none none (some e) = leb (d + 2000000000) e
waits (some d) none none none = true
waits (some d) none (some a) e = false
waits (some d) (some o) a e = false
waits none o a e = false

-- One for each exchange that waits in vain.
abbrev pub unanswered : List Transaction → Option ℕ → List Finding
unanswered [] end = []
unanswered (x ∷ xs) end =
    if waits x.discover x.offer x.ack end
    then dhcp_finding dhcp_no_offer x ∷ unanswered xs end
    else unanswered xs end

no_offers-append : (fs gs : List Finding) → no_offers (fs ++ gs) ≡ no_offers fs ++ no_offers gs
no_offers-append [] gs = refl
no_offers-append (f ∷ fs) gs = elim (Bool-cases (is_no_offer f)) [
  | inl e ↦ rw (e, no_offers-append fs gs) refl
  | inr e ↦ rw (e, no_offers-append fs gs) refl
]

nak-no_offers :
    (x : Transaction) (r : Findings) → no_offers (note_nak x r).observed ≡ no_offers r.observed
unfolding note_nak
nak-no_offers x r = elim (Bool-cases (is_set x.nak)) [
  | inl e ↦ rw e (
      no_offers-append r.observed (dhcp_finding dhcp_nak x ∷ [])
      ∙ append-nil (no_offers r.observed))
  | inr e ↦ rw e refl
]

-- What one round adds.
abbrev added : Transaction → Option ℕ → List Finding
added x end =
    if silent x && not (in_grace end x.discover) then dhcp_finding dhcp_no_offer x ∷ [] else []

-- The test of the code says the same.
waits-test :
    (d o a e : Option ℕ)
    → waits d o a e ≡ ((is_set d && not (is_set o) && not (is_set a)) && not (in_grace e d))
unfolding in_grace
waits-test none o a e = refl
waits-test (some d) (some o) a e = refl
waits-test (some d) none (some a) e = refl
waits-test (some d) none none none = refl
waits-test (some d) none none (some e) = ground arith

waits-silent :
    (x : Transaction) (end : Option ℕ)
    → waits x.discover x.offer x.ack end ≡ (silent x && not (in_grace end x.discover))
waits-silent x end = waits-test x.discover x.offer x.ack end

rule-no_offers :
    (end : Option ℕ) (x : Transaction) (r : Findings)
    → no_offers (dhcp_rule end x r).observed ≡ no_offers r.observed ++ added x end
unfolding dhcp_rule
rule-no_offers end x r = elim (Bool-cases (silent x)) [
  | inr e ↦ rw e (nak-no_offers x r ∙ sym (append-nil (no_offers r.observed)))
  | inl e ↦ elim (Bool-cases (in_grace end x.discover)) [
    | inl f ↦ rw (e, f) (sym (append-nil (no_offers r.observed)))
    | inr f ↦
        rw (e, f)
          (nak-no_offers x (note_no_offer x r)
            ∙ no_offers-append r.observed (dhcp_finding dhcp_no_offer x ∷ []))
  ]
]

unanswered-cons :
    (x : Transaction) (xs : List Transaction) (end : Option ℕ)
    → unanswered (x ∷ xs) end ≡ added x end ++ unanswered xs end
unanswered-cons x xs end = elim (Bool-cases (waits x.discover x.offer x.ack end)) [
  | inl e ↦
      let due : (silent x && not (in_grace end x.discover)) ≡ true = sym (waits-silent x end) ∙ e in
      rw (e, due) refl
  | inr e ↦
      let early : (silent x && not (in_grace end x.discover)) ≡ false =
        sym (waits-silent x end) ∙ e in
      rw (e, early) refl
]

-- The observed findings of a discover without an offer that `dhcpRules` adds to a report are, in the order of the
-- exchanges, exactly one for each exchange that has a discover, no offer and no acknowledgement, and whose discover is two
-- seconds old at the end of the window or has no end to wait for.
pub dhcp_rules-unanswered :
    (xs : List Transaction) (end : Option ℕ) (r : Findings)
    → no_offers (dhcp_rules xs end r).observed ≡ no_offers r.observed ++ unanswered xs end
unfolding dhcp_rules
dhcp_rules-unanswered [] end r = sym (append-nil (no_offers r.observed))
dhcp_rules-unanswered (x ∷ xs) end r =
    dhcp_rules-unanswered xs end (dhcp_rule end x r)
    ∙ ap (λ t. t ++ unanswered xs end) (rule-no_offers end x r)
    ∙ append_assoc (no_offers r.observed) (added x end) (unanswered xs end)
    ∙ ap (λ t. no_offers r.observed ++ t) (sym (unanswered-cons x xs end))
