-- ===== src/Protocol/Ipv6/Walk.antt =====
-- The walk over the extension headers: bounded, and the payload is the end of the packet.
use wirepup.Base.{
  ℕ, zero, suc, ◌+◌, ◌-◌, ◌*◌, ◌/◌, ◌^◌, ◌≤◌, ◌<◌, true, false, [], ◌≡◌, ◌≢◌, ◌⊎◌, inl, inr, refl,
  arith, ltb, leb, ◌==◌, length, take, drop, Bytes, byte, be16_at, Ensures, take_all, IsSuffix,
  nil-IsSuffix, IsSuffix-refl, IsSuffix-drop, Ensures-map, Ensures-bind, Go, ret, ◌>>=◌, Result, ok,
  err, index, slice, from, be16, index_lem, Bool-cases, ==_iff, ltb→lt, ltb→le, lt→ltb, length-take,
  length-drop,
}
use wirepup.Net.{v6, addr16_at, number_from}
use wirepup.Protocol.Ipv6.{Error, Packet, is_options, skip_header, skip_fragment, walk, parse}

-- The walk from `p` over `body`, with `n` headers at most: what it counts, delivers and keeps.
pub record Walked (n : ℕ) (p : Packet) (body : Bytes) (q : Packet) : Type 0 where
  pub counted : q.ext_headers ≤ p.ext_headers + n
  pub grows : p.ext_headers ≤ q.ext_headers
  pub fits : 8 * q.ext_headers + length q.payload ≤ 8 * p.ext_headers + length body
  pub at_end : IsSuffix q.payload body
  pub withheld : (q.payload ≡ []) ⊎ (q.payload_drop ≡ false)
  pub dispatched : (q.payload_drop ≡ true) ⊎ (is_options q.next_header ≡ false)
  pub kept :
      (q.src ≡ p.src)
      × (q.dst ≡ p.dst)
      × (q.truncated ≡ p.truncated)
      × (q.payload_len ≡ p.payload_len)

abbrev IsFresh : Packet → Type 0
IsFresh p = (p.payload ≡ []) × (p.payload_drop ≡ false)

give_up-Walked :
    (n : ℕ) (p : Packet) (body : Bytes)
    → IsFresh p
    → Walked n p body (record p { payload_drop = true })
give_up-Walked n p body h = record {
  counted = omega arith;
  grows = omega arith;
  fits = ground arith;
  at_end = rw h.0 (nil-IsSuffix body);
  withheld = inl h.0;
  dispatched = inl refl;
  kept = (refl, refl, refl, refl);
}

module _ (n : ℕ) (next_round : Packet → Bytes → Go Packet)
    (ih : (p : Packet) (body : Bytes)
      → IsFresh p
      → Ensures (Walked n p body) (next_round p body)) where
  skip_header-Walked :
      (p : Packet) (body : Bytes) (hl : ℕ)
      → IsFresh p
      → 8 ≤ hl
      → Ensures (Walked (suc n) p body) (skip_header next_round p body hl)
  unfolding skip_header index from
  skip_header-Walked p body hl fresh h = elim (Bool-cases (ltb (length body) hl)) [
    | inl short ↦ rw short (give_up-Walked (suc n) p body fresh)
    | inr long ↦
        let p' = record p { next_header = byte body 0; ext_headers = p.ext_headers + 1 } in
        let fit : hl ≤ length body = ltb→le (length body) hl long in
        rw (long, lt→ltb 0 (length body) (omega arith), unfolded fit)
          (Ensures-map (Walked n p' (drop hl body)) (Walked (suc n) p body)
            (next_round p' (drop hl body))
            (λ q w. record {
              counted = omega (arith, w.counted);
              grows = omega (arith, w.grows);
              fits = omega (arith, w.fits, length-drop hl body);
              at_end =
                  IsSuffix-drop hl q.payload body fit (omega (arith, w.fits, w.grows)) w.at_end;
              withheld = w.withheld;
              dispatched = w.dispatched;
              kept = w.kept;
            })
            (ih p' (drop hl body) fresh))
  ]
    where
      unfolded : hl ≤ length body → leb hl (length body) ≡ true
      unfolded k = ground arith

  skip_fragment-Walked :
      (p : Packet) (body : Bytes)
      → IsFresh p
      → 8 ≤ length body
      → Ensures (Walked (suc n) p body) (skip_fragment next_round p body)
  unfolding skip_fragment be16 index
  skip_fragment-Walked p body fresh h = elim (Bool-cases (be16_at body 2 / 2 ^ 3 == 0)) [
    | inl first ↦
        rw (lt→ltb 0 (length body) (omega arith), read, first)
          (Ensures-map (Walked (suc n) (record p { fragment = true }) body) (Walked (suc n) p body)
            _
            (λ q w. record {
              counted = w.counted;
              grows = w.grows;
              fits = w.fits;
              at_end = w.at_end;
              withheld = w.withheld;
              dispatched = w.dispatched;
              kept = w.kept;
            })
            (skip_header-Walked (record p { fragment = true }) body 8 fresh (omega arith)))
    | inr later ↦
        rw (lt→ltb 0 (length body) (omega arith), read, later)
          (record {
            counted = omega arith;
            grows = omega arith;
            fits = rw fresh.0 (omega arith);
            at_end = rw fresh.0 (nil-IsSuffix body);
            withheld = inl fresh.0;
            dispatched = inl refl;
            kept = (refl, refl, refl, refl);
          })
  ]
    where
      read : leb (2 + 2) (length body) ≡ true
      read = ground arith

-- Every walk ends, within the rounds that it is given.
pub walk-Walked :
    (n : ℕ) (p : Packet) (body : Bytes) → IsFresh p → Ensures (Walked n p body) (walk n p body)
unfolding walk
walk-Walked zero p body fresh = give_up-Walked zero p body fresh
walk-Walked (suc n) p body fresh = elim (Bool-cases (is_options p.next_header)) [
  | inl options ↦ rw options (elim (Bool-cases (ltb (length body) 2)) [
    | inl short ↦ rw short (give_up-Walked (suc n) p body fresh)
    | inr long ↦
        rw (long, index_lem body 1 (ltb→le _ _ long))
          (skip_header-Walked n (walk n) (walk-Walked n) p body _ fresh (omega arith))
  ])
  | inr other ↦ rw other (elim (Bool-cases (p.next_header == 51)) [
    | inl auth ↦ rw auth (elim (Bool-cases (ltb (length body) 2)) [
      | inl short ↦ rw short (give_up-Walked (suc n) p body fresh)
      | inr long ↦
          rw (long, index_lem body 1 (ltb→le _ _ long))
            (skip_header-Walked n (walk n) (walk-Walked n) p body _ fresh (omega arith))
    ])
    | inr plain ↦ rw plain (elim (Bool-cases (p.next_header == 44)) [
      | inl fragment ↦ rw fragment (elim (Bool-cases (ltb (length body) 8)) [
        | inl short ↦ rw short (give_up-Walked (suc n) p body fresh)
        | inr long ↦
            rw long (skip_fragment-Walked n (walk n) (walk-Walked n) p body fresh (ltb→le _ _ long))
      ])
      | inr upper ↦ rw upper (record {
        counted = omega arith;
        grows = omega arith;
        fits = omega arith;
        at_end = IsSuffix-refl body;
        withheld = inr fresh.1;
        dispatched = inr other;
        kept = (refl, refl, refl, refl);
      })
    ])
  ])
]

-- The bytes that the header declares, as far as the buffer holds them.
abbrev pub body_of : Bytes → Bytes
body_of b = take (be16_at b 4) (drop 40 b)

abbrev pub Ipv6Spec : Bytes → Result Error Packet → Type 0
Ipv6Spec b (err Error.truncated) = length b < 40
Ipv6Spec b (err Error.version) = (40 ≤ length b) × (byte b 0 / 16 ≢ 6)
Ipv6Spec b (ok p) =
    (byte b 0 / 16 ≡ 6)
    × (p.payload_len ≡ be16_at b 4)
    × (p.truncated ≡ ltb (length b) (40 + p.payload_len))
    × (p.ext_headers ≤ 8)
    × (8 * p.ext_headers + length p.payload ≤ p.payload_len)
    × IsSuffix p.payload (body_of b)
    × ((p.payload ≡ []) ⊎ (p.payload_drop ≡ false))
    × ((p.payload_drop ≡ true) ⊎ (is_options p.next_header ≡ false))

-- What `Parse` knows of the packet before the walk.
abbrev start : Bytes → Packet
start b = record {
  next_header = byte b 6;
  hop_limit = byte b 7;
  payload_len = be16_at b 4;
  src = v6 (number_from 0 (take 16 (drop 8 b)));
  dst = v6 (number_from 0 (take 16 (drop 24 b)));
  fragment = false;
  payload_drop = false;
  truncated = ltb (length b) (40 + be16_at b 4);
  ext_headers = 0;
  payload = [];
}

parse-walk :
    (b : Bytes)
    → 40 ≤ length b
    → byte b 0 / 16 ≡ 6
    → parse b ≡ (walk 8 (start b) (body_of b) >>= λ p. ret (ok p))
unfolding parse be16 index addr16_at slice
parse-walk b h v = ground (
  arith,
  length-drop 40 b,
  take_all (length b - 40) (drop 40 b),
  take_all (be16_at b 4) (drop 40 b),
)

parse_refused :
    (b : Bytes) → (byte b 0 / 16 == 6) ≡ false → 40 ≤ length b → parse b ≡ ret (err Error.version)
unfolding parse index
parse_refused b v h = ground arith

-- On every buffer `Parse` returns: an error for a short buffer or another version, and else a
-- packet with at most eight extension headers, whose payload is the end of the declared body, is
-- empty when it is withheld, and when it is delivered stands behind no further options header.
pub parse-Ipv6Spec : (b : Bytes) → Ensures (Ipv6Spec b) (parse b)
parse-Ipv6Spec b = elim (Bool-cases (ltb (length b) 40)) [
  | inl short ↦ unfold parse in rw short (ltb→lt _ _ short)
  | inr long ↦ elim (Bool-cases (byte b 0 / 16 == 6)) [
    | inl six ↦ rw (parse-walk b (ltb→le _ _ long) ((==_iff _ 6).0 six)) (
        Ensures-bind (Walked 8 (start b) (body_of b)) (Ipv6Spec b) (walk 8 (start b) (body_of b))
          (λ p. ret (ok p)) (walk-Walked 8 (start b) (body_of b) (refl, refl))
          (λ p w. delivered p w ((==_iff _ 6).0 six)))
    | inr other ↦ rw (parse_refused b other (ltb→le _ _ long)) (ground arith)
  ]
]
  where
    delivered :
        (p : Packet) → Walked 8 (start b) (body_of b) p → byte b 0 / 16 ≡ 6 → Ipv6Spec b (ok p)
    delivered p w six = (
      six,
      w.kept.3,
      rw w.kept.3 w.kept.2,
      omega (arith, w.counted),
      omega (arith, w.fits, w.kept.3, length-take (be16_at b 4) (drop 40 b)),
      w.at_end,
      w.withheld,
      w.dispatched,
    )
