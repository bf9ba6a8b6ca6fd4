-- ===== src/Protocol/Lldp/Mandatory.antt =====
-- lldp.Parse on every buffer: it returns, and accepts exactly the units with the mandatory TLVs.
use wirepup.Base.{
  ℕ, zero, suc, ◌+◌, ◌-◌, ◌/◌, ◌%◌, ◌≤◌, Bool, true, false, ◌&&◌, ◌||◌, Option, none, some, List,
  [], ◌∷◌, ◌≡◌, inl, inr, refl, ap, ◌∙◌, arith, ltb, leb, ◌==◌, if◌then◌else◌, length, take, drop,
  Bytes, byte, be16_at, Ensures, drop-drop, Ensures-map, Ensures-bind, Go, ◌>>=◌, index, slice,
  from, be16, be32, slice_lem, be16_lem, Bool-cases, leb→le, ltb→le, length-drop,
}
use wirepup.Protocol.Lldp.{
  Error, mandatory, Frame, Seen, network_address, management_address, identifier, org_specific,
  apply_tlv, parse_loop, parse, chassis_tlv, port_tlv, optional_tlv, empty, vlan_name, link_status,
  mark_malformed,
}
use wirepup.Net.{addr4_at, addr16_at}
use native.Mathlib.Nat.{zero-add, suc-add, add-zero}

-- The TLVs of a unit, up to its end mark or the first that runs past the end.
unfoldable pub tlvs : ℕ → Bytes → List (ℕ × Bytes)
tlvs zero b = []
tlvs (suc fuel) b =
    let len = be16_at b 0 % 512 in
    let rest = tlvs fuel (drop (2 + len) b) in
    if ltb (length b) (2 + len) || be16_at b 0 / 512 == 0
    then []
    else (be16_at b 0 / 512, take len (drop 2 b)) ∷ rest

-- A TLV of the type with two bytes at least.
unfoldable pub holds : ℕ → List (ℕ × Bytes) → Bool
holds typ [] = false
holds typ ((t, v) ∷ ts) = (t == typ && leb 2 (length v)) || holds typ ts

module _ (is_text : Bytes → Bool) where
  network_address_returns : (v : Bytes) → Ensures (λ _. Unit) (network_address v)
  unfolding network_address index addr4_at addr16_at
  network_address_returns v = ground arith

  management_address_returns : (v : Bytes) → Ensures (λ _. Unit) (management_address v)
  unfolding management_address index slice
  management_address_returns v =
      ground (arith, network_address_returns (take (1 + byte v 0 - 1) (drop 1 v)))

module _ (is_text : Bytes → Bool) where
  identifier_returns :
      (sub : ℕ) (v : Bytes) (m n : ℕ) → Ensures (λ _. Unit) (identifier is_text sub v m n)
  unfolding identifier
  identifier_returns sub v m n = ground (arith, network_address_returns is_text v)

  vlan_name_returns :
      (f : Frame) (v : Bytes) → 3 ≤ length v → Ensures (λ _. Unit) (vlan_name is_text f v)
  unfolding vlan_name be16 index slice
  vlan_name_returns f v h = ground arith

  link_status_returns :
      (f : Frame) (v : Bytes) → 5 ≤ length v → Ensures (λ _. Unit) (link_status is_text f v)
  unfolding link_status be32 index
  link_status_returns f v h = ground arith

  org_specific_returns : (f : Frame) (v : Bytes) → Ensures (λ _. Unit) (org_specific is_text f v)
  unfolding org_specific index from be16
  org_specific_returns f v =
      ground (arith, vlan_name_returns f (drop 4 v), link_status_returns f (drop 4 v))

  chassis_tlv_returns :
      (f : Frame) (v : Bytes) → 2 ≤ length v → Ensures (λ _. Unit) (chassis_tlv is_text f v)
  unfolding chassis_tlv index from
  chassis_tlv_returns f v h = ground (arith, identifier_returns (byte v 0) (drop 1 v) 4 5)

  port_tlv_returns :
      (f : Frame) (v : Bytes) → 2 ≤ length v → Ensures (λ _. Unit) (port_tlv is_text f v)
  unfolding port_tlv index from
  port_tlv_returns f v h = ground (arith, identifier_returns (byte v 0) (drop 1 v) 3 4)

  optional_tlv_returns :
      (typ : ℕ) (v : Bytes) (f : Frame) → Ensures (λ _. Unit) (optional_tlv is_text typ v f)
  unfolding optional_tlv be16
  optional_tlv_returns typ v f =
      ground (arith, management_address_returns is_text v, org_specific_returns f v)

  -- What one TLV adds to `seen`.
  abbrev mark : ℕ → Bytes → Seen → Seen
  mark typ v seen = record {
    chassis = (typ == 1 && leb 2 (length v)) || seen.chassis;
    port = (typ == 2 && leb 2 (length v)) || seen.port;
    time = (typ == 3 && leb 2 (length v)) || seen.time;
  }

  apply_tlv-mark :
      (typ : ℕ) (v : Bytes) (f : Frame) (seen : Seen)
      → Ensures (λ (r : Frame × Seen). r.1 ≡ mark typ v seen) (apply_tlv is_text typ v f seen)
  unfolding apply_tlv be16
  apply_tlv-mark typ v f seen =
      ground (arith, chassis_tlv_returns f v, port_tlv_returns f v, optional_tlv_returns typ v f)

  -- What a list of TLVs adds to `seen`.
  abbrev mark_all : List (ℕ × Bytes) → Seen → Seen
  mark_all ts seen = record {
    chassis = holds 1 ts || seen.chassis;
    port = holds 2 ts || seen.port;
    time = holds 3 ts || seen.time;
  }

  mark_all-mark :
      (typ : ℕ) (v : Bytes) (ts : List (ℕ × Bytes)) (seen : Seen)
      → mark_all ts (mark typ v seen) ≡ mark_all ((typ, v) ∷ ts) seen
  unfolding holds
  mark_all-mark typ v ts seen = ground arith

  at_offset : (b : Bytes) (off i : ℕ) → byte (drop off b) i ≡ byte b (off + i)
  at_offset b zero i = rw zero-add
  at_offset [] (suc off) i = refl
  at_offset (x ∷ b) (suc off) i = rw suc-add (at_offset b off i)

  abbrev Reads : List (ℕ × Bytes) → Seen → Frame × Seen → Type 0
  Reads ts seen r = r.1 ≡ mark_all ts seen

  -- A round that ends the loop, and a round that goes on.
  tlvs-nil :
      (fuel : ℕ) (b : Bytes)
      → (ltb (length b) (2 + be16_at b 0 % 512) || be16_at b 0 / 512 == 0) ≡ true
      → tlvs (suc fuel) b ≡ []
  unfolding tlvs
  tlvs-nil fuel b h = rw h

  tlvs-cons :
      (fuel : ℕ) (b : Bytes)
      → (ltb (length b) (2 + be16_at b 0 % 512) || be16_at b 0 / 512 == 0) ≡ false
      → tlvs (suc fuel) b
        ≡ (be16_at b 0 / 512, take (be16_at b 0 % 512) (drop 2 b))
          ∷ tlvs fuel (drop (2 + be16_at b 0 % 512) b)
  unfolding tlvs
  tlvs-cons fuel b h = rw h

  Reads-nil : (f : Frame) (seen : Seen) (ts : List (ℕ × Bytes)) → ts ≡ [] → Reads ts seen (f, seen)
  unfolding holds
  Reads-nil f seen ts e = rw e refl

  round-Reads :
      (typ : ℕ) (v : Bytes) (f : Frame) (seen : Seen) (ts : List (ℕ × Bytes))
      (next_round : Frame × Seen → Go (Frame × Seen))
      → ((r : Frame × Seen) → Ensures (Reads ts r.1) (next_round r))
      → Ensures (Reads ((typ, v) ∷ ts) seen) (apply_tlv is_text typ v f seen >>= next_round)
  round-Reads typ v f seen ts next_round ih =
      Ensures-bind (λ (r : Frame × Seen). r.1 ≡ mark typ v seen) _ (apply_tlv is_text typ v f seen)
        next_round (apply_tlv-mark typ v f seen)
        (λ r e.
          Ensures-map (Reads ts r.1) _ (next_round r)
            (λ q w. w ∙ ap (mark_all ts) e ∙ mark_all-mark typ v ts seen) (ih r))

  -- The loop ends, and its `seen` is what the TLVs from its offset on say.
  parse_loop-Reads :
      (fuel : ℕ) (f : Frame) (seen : Seen) (b : Bytes) (off : ℕ)
      → length b ≤ off + fuel
      → Ensures (Reads (tlvs fuel (drop off b)) seen) (parse_loop is_text fuel f seen b off)
  unfolding parse_loop
  parse_loop-Reads zero f seen b off h =
      let out : leb (off + 2) (length b) ≡ false = ground arith in
      rw out (Reads-nil f seen (tlvs zero (drop off b)) (unfold tlvs in refl))
  parse_loop-Reads (suc fuel) f seen b off h =
      let hdr : ℕ = be16_at b off in
      let len : ℕ = hdr % 512 in
      let stop : ℕ = off + 2 + len in
      let same : be16_at (drop off b) 0 ≡ hdr =
        rw (at_offset b off 0, at_offset b off 1, add-zero off) refl in
      let take_eq : stop - (off + 2) ≡ len = omega arith in
      let stop_eq : off + (2 + len) ≡ stop = omega arith in
      let left : length (drop off b) ≡ length b - off = length-drop off b in
      elim (Bool-cases (leb (off + 2) (length b))) [
        | inr out ↦ rw out (Reads-nil f seen _ (tlvs-nil fuel (drop off b) (ground (arith, left))))
        | inl inside ↦
            rw (inside, be16_lem b off (leb→le _ _ inside))
              (elim (Bool-cases (ltb (length b) stop)) [
                | inl over ↦ rw over (
                    Reads-nil (mark_malformed f) seen _
                      (tlvs-nil fuel (drop off b) (rw same (ground (arith, left)))))
                | inr fits ↦
                    rw (fits, slice_lem b (off + 2) stop (omega arith) (ltb→le _ _ fits))
                      (elim (Bool-cases (hdr / 512 == 0)) [
                        | inl done ↦ rw done (
                            Reads-nil f seen _
                              (tlvs-nil fuel (drop off b) (rw (same, done) (ground arith))))
                        | inr more ↦ rw more (
                            rw
                              (
                                tlvs-cons fuel (drop off b)
                                    (rw (same, more) (ground (arith, left))),
                                same,
                              )
                              (rw (drop-drop off 2 b, drop-drop off (2 + len) b, take_eq, stop_eq)
                                (round-Reads (hdr / 512) (take len (drop (off + 2) b)) f seen
                                  (tlvs fuel (drop stop b)) _
                                  (λ r. parse_loop-Reads fuel r.0 r.1 b stop (omega arith)))))
                      ])
              ])
      ]

  -- `Parse` returns on every buffer. It accepts exactly the units with a chassis ID, a port ID and a
  -- TTL of two bytes at least before the end mark and before a TLV that runs past the end, in any
  -- order and whatever else the unit holds.
  pub parse-mandatory :
      (b : Bytes)
      → Ensures
          (λ (r : Frame × Option Error). r.1 ≡ (
            if holds 1 (tlvs (length b) b)
              && holds 2 (tlvs (length b) b)
              && holds 3 (tlvs (length b) b)
            then none
            else some mandatory))
          (parse is_text b)
  unfolding parse
  parse-mandatory b =
      Ensures-bind
        (Reads (tlvs (length b) b) (record { chassis = false; port = false; time = false })) _ _ _
        (parse_loop-Reads (length b) empty _ b 0 (omega arith)) (λ r e. rw e (ground arith))
