-- ===== src/Protocol/Dhcpv4/Total.antt =====
-- dhcpv4.Parse on every buffer.
use wirepup.Base.{
  ℕ, ◌+◌, ◌-◌, ◌≤◌, ◌<◌, min, Bool, true, false, not, ◌&&◌, Option, none, some, ◌≡◌, ◌≢◌, ◌⊎◌, inl,
  inr, refl, ◌∙◌, arith, ltb, ◌==◌, if◌then◌else◌, length, take, drop, Bytes, byte, be16_at,
  be32_at, has_bit, ap, Ensures, Ensures-map, Ensures-bind, Result, ok, err, index_lem, slice_lem,
  from_lem, be16_lem, be32_lem, Bool-cases, ltb→lt, ltb→le,
}
use wirepup.Net.{v4, addr4_at_lem}
use wirepup.Protocol.Dhcpv4.Overrun.{overruns, walk, walk-overruns}
use wirepup.Protocol.Dhcpv4.{
  Error, truncated, cookie, options, op, Message, parse_fixed, parse_after, parse, c_string,
}
use wirepup.Protocol.Dhcpv4.Kept.{Kept, verdict, Parsed, parse_options-Parsed}

-- `m` has the header's fields.
pub record HasHeader (b : Bytes) (m : Message) : Type 0 where
  pub is_known : (byte b 0 ≡ 1) ⊎ (byte b 0 ≡ 2)
  pub op_field : m.op_field ≡ byte b 0
  pub xid : m.xid ≡ be32_at b 4
  pub client_ip : m.client_ip ≡ v4 (be32_at b 12)
  pub your_ip : m.your_ip ≡ v4 (be32_at b 16)
  pub client_mac : m.client_mac ≡ take (min 16 (byte b 2)) (drop 28 b)
  pub htype : m.htype ≡ byte b 1
  pub hlen : m.hlen ≡ byte b 2
  pub secs : m.secs ≡ be16_at b 8
  pub broadcast : m.broadcast ≡ has_bit (byte b 10) 7
  pub server_ip : m.server_ip ≡ v4 (be32_at b 20)
  pub relay_ip : m.relay_ip ≡ v4 (be32_at b 24)
  pub server_name : m.server_name ≡ c_string (take 64 (drop 44 b))

abbrev has_cookie : Bytes → Bool
has_cookie b = be32_at b 236 == 0x63825363

-- The options behind the cookie.
abbrev pub overrun : Bytes → Bool
overrun b = overruns (length (drop 240 b)) (drop 240 b)

abbrev pub DhcpSpec : Bytes → Message × Option Error → Type 0
DhcpSpec b (m, some truncated) = length b < 240
DhcpSpec b (m, some cookie) = (240 ≤ length b) × (has_cookie b ≡ false)
DhcpSpec b (m, some op) = (240 ≤ length b) × (has_cookie b ≡ true) × (byte b 0 ≢ 1) × (byte b 0 ≢ 2)
DhcpSpec b (m, some options) =
    (240 ≤ length b) × (has_cookie b ≡ true) × HasHeader b m × (overrun b ≡ true)
DhcpSpec b (m, none) =
    (240 ≤ length b) × (has_cookie b ≡ true) × HasHeader b m × (overrun b ≡ false)

abbrev Fixed : Bytes → Result Error Message → Type 0
Fixed b (err op) = (byte b 0 ≢ 1) × (byte b 0 ≢ 2)
Fixed b (err _) = ⊥
Fixed b (ok m) = HasHeader b m

address_len : (n : ℕ) → 28 + (if ltb 16 n then 16 else n) - 28 ≡ min 16 n
address_len n = ground arith

address_end :
    (n : ℕ) → (28 ≤ 28 + (if ltb 16 n then 16 else n)) × (28 + (if ltb 16 n then 16 else n) ≤ 44)
address_end n = ground arith

parse_fixed-Fixed : (b : Bytes) → 240 ≤ length b → Ensures (Fixed b) (parse_fixed b)
unfolding parse_fixed
parse_fixed-Fixed b h =
    rw
      (
        index_lem b 0 (omega arith),
        index_lem b 1 (omega arith),
        index_lem b 2 (omega arith),
        be32_lem b 4 (omega arith),
        be16_lem b 8 (omega arith),
        index_lem b 10 (omega arith),
        addr4_at_lem b 12 (omega arith),
        addr4_at_lem b 16 (omega arith),
        addr4_at_lem b 20 (omega arith),
        addr4_at_lem b 24 (omega arith),
      )
      (elim (Bool-cases (not (byte b 0 == 1) && not (byte b 0 == 2))) [
        | inl unknown ↦ rw unknown (ground arith)
        | inr known ↦
            let bounds = address_end (byte b 2) in
            rw
              (
                known,
                slice_lem b 28 (28 + (if ltb 16 (byte b 2) then 16 else byte b 2)) bounds.0
                    (omega arith),
                slice_lem b 44 108 (omega arith) (omega arith),
                address_len,
              )
              (record {
                is_known = ground arith;
                op_field = refl;
                xid = refl;
                client_ip = refl;
                your_ip = refl;
                client_mac = refl;
                htype = refl;
                hlen = refl;
                secs = refl;
                broadcast = refl;
                server_ip = refl;
                relay_ip = refl;
                server_name = refl;
              })
      ])

after-DhcpSpec :
    (b : Bytes)
    → 240 ≤ length b
    → has_cookie b ≡ true
    → (r : Result Error Message) → Fixed b r
    → Ensures (DhcpSpec b) (parse_after b r)
unfolding parse_after
after-DhcpSpec b h c (err op) f = (h, c, f.0, f.1)
after-DhcpSpec b h c (err truncated) f = absurd f
after-DhcpSpec b h c (err cookie) f = absurd f
after-DhcpSpec b h c (err options) f = absurd f
after-DhcpSpec b h c (ok m) f =
    let n : ℕ = length (drop 240 b) in
    rw (from_lem b 240 h) (
      Ensures-map (Parsed m (walk n (drop 240 b) 0)) (DhcpSpec b) _
        (λ r p.
          carry r.0 r.1 (overrun b) refl p.0 (p.1 ∙ ap verdict (walk-overruns n (drop 240 b) 0)))
        (parse_options-Parsed n m (drop 240 b) 0 (omega arith)))
  where
    header : (m' : Message) → Kept m m' → HasHeader b m'
    header m' k = record {
      is_known = f.is_known;
      op_field = k.op_field ∙ f.op_field;
      xid = k.xid ∙ f.xid;
      client_ip = k.client_ip ∙ f.client_ip;
      your_ip = k.your_ip ∙ f.your_ip;
      client_mac = k.client_mac ∙ f.client_mac;
      htype = k.htype ∙ f.htype;
      hlen = k.hlen ∙ f.hlen;
      secs = k.secs ∙ f.secs;
      broadcast = k.broadcast ∙ f.broadcast;
      server_ip = k.server_ip ∙ f.server_ip;
      relay_ip = k.relay_ip ∙ f.relay_ip;
      server_name = k.server_name ∙ f.server_name;
    }

    carry :
        (m' : Message) (e : Option Error) (over : Bool)
        → overrun b ≡ over
        → Kept m m'
        → e ≡ verdict over
        → DhcpSpec b (m', e)
    carry m' none false w k o = (h, c, header m' k, w)
    carry m' (some options) true w k o = (h, c, header m' k, w)
    carry m' none true w k o = cc
    carry m' (some options) false w k o = cc
    carry m' (some truncated) false w k o = cc
    carry m' (some truncated) true w k o = cc
    carry m' (some cookie) false w k o = cc
    carry m' (some cookie) true w k o = cc
    carry m' (some op) false w k o = cc
    carry m' (some op) true w k o = cc

-- On every buffer `Parse` returns. It refuses one shorter than the fixed part and cookie, without
-- the cookie, or of another op. Else the message has every field of the header that it keeps, at its
-- place in the bytes, and the error for options comes exactly where the length or the value of one
-- runs past the end, and not where one ends with the buffer.
pub parse-DhcpSpec : (b : Bytes) → Ensures (DhcpSpec b) (parse b)
unfolding parse
parse-DhcpSpec b = elim (Bool-cases (ltb (length b) 240)) [
  | inl short ↦ rw short (ltb→lt _ _ short)
  | inr long ↦
      rw (long, be32_lem b 236 (ltb→le _ _ long))
        (elim (Bool-cases (has_cookie b)) [
          | inl dhcp ↦ rw dhcp (
              Ensures-bind (Fixed b) (DhcpSpec b) (parse_fixed b) (parse_after b)
                (parse_fixed-Fixed b (ltb→le _ _ long))
                (λ r f. after-DhcpSpec b (ltb→le _ _ long) dhcp r f))
          | inr bootp ↦ rw bootp (ltb→le _ _ long, bootp)
        ])
]
