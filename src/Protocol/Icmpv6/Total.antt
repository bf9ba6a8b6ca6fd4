-- ===== src/Protocol/Icmpv6/Total.antt =====
-- icmpv6.Parse on every buffer.
use wirepup.Base.{
  ℕ, ◌≤◌, ◌<◌, Bool, ◌&&◌, ◌||◌, Option, none, some, ◌≡◌, ◌≢◌, ◌⊎◌, inl, inr, refl, ◌∙◌, arith, ltb,
  ◌==◌, if◌then◌else◌, has_bit, length, take, drop, Bytes, byte, be16_at, be16_at, be32_at, Ensures,
  Ensures-map, Ensures-bind, index_lem, from_lem, be16_lem, be32_lem, Bool-cases, ltb→lt, ltb→le,
}
use native.Mathlib.Decide.{ℕ_discrete}
use wirepup.Net.{invalid, v6, number_from, addr16_at_lem}
use wirepup.Protocol.Icmpv6.{
  Error, truncated, Message, empty, parse_options, parse_rest, parse_advert, parse_neighbor_advert,
  parse_target, parse_body, parse,
}
use wirepup.Protocol.Icmpv6.Kept.{Kept, parse_options-Kept}

-- The bytes that a type needs behind the four of the header.
abbrev needed : ℕ → ℕ
needed kind =
    if kind == 133
    then 4
    else if kind == 134
    then 12
    else if kind == 135
    then 20
    else if kind == 136
    then 20
    else if kind == 137
    then 36
    else 0

abbrev has_target : ℕ → Bool
has_target kind = kind == 135 || kind == 136 || kind == 137

abbrev is_advert : ℕ → Bool
is_advert kind = kind == 136

abbrev is_router_advert : ℕ → Bool
is_router_advert kind = kind == 134

-- The message that the type and the body describe, but for the options.
pub record Described (kind code : ℕ) (body : Bytes) (m : Message) : Type 0 where
  pub kind_is : m.kind ≡ kind
  pub code_is : m.code ≡ code
  pub target :
      m.target ≡ (if has_target kind then v6 (number_from 0 (take 16 (drop 4 body))) else invalid)
  pub router : m.router ≡ (is_advert kind && has_bit (byte body 0) 7)
  pub solicited : m.solicited ≡ (is_advert kind && has_bit (byte body 0) 6)
  pub override : m.override ≡ (is_advert kind && has_bit (byte body 0) 5)
  pub cur_hop_limit : m.cur_hop_limit ≡ (if is_router_advert kind then byte body 0 else 0)
  pub managed : m.managed ≡ (is_router_advert kind && has_bit (byte body 1) 7)
  pub other_config : m.other_config ≡ (is_router_advert kind && has_bit (byte body 1) 6)
  pub router_lifetime : m.router_lifetime ≡ (if is_router_advert kind then be16_at body 2 else 0)
  pub reachable_time : m.reachable_time ≡ (if is_router_advert kind then be32_at body 4 else 0)
  pub retrans_timer : m.retrans_timer ≡ (if is_router_advert kind then be32_at body 8 else 0)

abbrev BodySpec : ℕ → ℕ → Bytes → Message × Option Error → Type 0
BodySpec kind code body (m, some truncated) = length body < needed kind
BodySpec kind code body (m, none) = (needed kind ≤ length body) × Described kind code body m

parse_rest-Kept :
    (m : Message) (body : Bytes) (n : ℕ)
    → n ≤ length body
    → Ensures (λ (r : Message × Option Error). Kept m r.0 × (r.1 ≡ none)) (parse_rest m body n)
parse_rest-Kept m body n h = rw (from_lem body n h) (
    Ensures-bind (Kept m) _ (parse_options (length (drop n body)) m (drop n body)) _
      (parse_options-Kept (length (drop n body)) m (drop n body) (omega arith)) (λ m' k. (k, refl)))

-- A branch of the switch: the options are read, and the message stays as described.
branch-Icmpv6Spec :
    (kind code : ℕ) (body : Bytes) (m : Message) (n : ℕ)
    → needed kind ≡ n
    → n ≤ length body
    → Described kind code body m
    → Ensures (BodySpec kind code body) (parse_rest m body n)
branch-Icmpv6Spec kind code body m n e h d =
    Ensures-map _ (BodySpec kind code body) (parse_rest m body n) (λ r k. finish r.0 r.1 k.0 k.1)
      (parse_rest-Kept m body n h)
  where
    finish :
        (m' : Message) (x : Option Error) → Kept m m' → x ≡ none → BodySpec kind code body (m', x)
    finish m' none k o = (
      omega arith,
      record {
        kind_is = k.kind ∙ d.kind_is;
        code_is = k.code ∙ d.code_is;
        target = k.target ∙ d.target;
        router = k.router ∙ d.router;
        solicited = k.solicited ∙ d.solicited;
        override = k.override ∙ d.override;
        cur_hop_limit = k.cur_hop_limit ∙ d.cur_hop_limit;
        managed = k.managed ∙ d.managed;
        other_config = k.other_config ∙ d.other_config;
        router_lifetime = k.router_lifetime ∙ d.router_lifetime;
        reachable_time = k.reachable_time ∙ d.reachable_time;
        retrans_timer = k.retrans_timer ∙ d.retrans_timer;
      },
    )
    finish m' (some truncated) k o = cc

solicit-Icmpv6Spec :
    (code : ℕ) (body : Bytes) → Ensures (BodySpec 133 code body) (parse_body (empty 133 code) body)
unfolding parse_body parse_advert parse_neighbor_advert parse_target
solicit-Icmpv6Spec code body = elim (Bool-cases (ltb (length body) 4)) [
  | inl short ↦ rw short (ltb→lt _ _ short)
  | inr long ↦
      let h : 4 ≤ length body = ltb→le _ _ long in
      rw (long) (
        branch-Icmpv6Spec 133 code body (empty 133 code) 4 refl h (record {
          kind_is = refl;
          code_is = refl;
          target = refl;
          router = refl;
          solicited = refl;
          override = refl;
          cur_hop_limit = refl;
          managed = refl;
          other_config = refl;
          router_lifetime = refl;
          reachable_time = refl;
          retrans_timer = refl;
        }))
]

router_advert-Icmpv6Spec :
    (code : ℕ) (body : Bytes) → Ensures (BodySpec 134 code body) (parse_body (empty 134 code) body)
unfolding parse_body parse_advert parse_neighbor_advert parse_target
router_advert-Icmpv6Spec code body = elim (Bool-cases (ltb (length body) 12)) [
  | inl short ↦ rw short (ltb→lt _ _ short)
  | inr long ↦
      let h : 12 ≤ length body = ltb→le _ _ long in
      rw
        (
          long,
          index_lem body 0 (omega arith),
          index_lem body 1 (omega arith),
          be16_lem body 2 (omega arith),
          be32_lem body 4 (omega arith),
          be32_lem body 8 (omega arith),
        )
        (branch-Icmpv6Spec 134 code body
          (record (empty 134 code) {
            cur_hop_limit = byte body 0;
            managed = has_bit (byte body 1) 7;
            other_config = has_bit (byte body 1) 6;
            router_lifetime = be16_at body 2;
            reachable_time = be32_at body 4;
            retrans_timer = be32_at body 8;
          })
          12 refl h
          (record {
            kind_is = refl;
            code_is = refl;
            target = refl;
            router = refl;
            solicited = refl;
            override = refl;
            cur_hop_limit = refl;
            managed = refl;
            other_config = refl;
            router_lifetime = refl;
            reachable_time = refl;
            retrans_timer = refl;
          }))
]

neighbor_solicit-Icmpv6Spec :
    (code : ℕ) (body : Bytes) → Ensures (BodySpec 135 code body) (parse_body (empty 135 code) body)
unfolding parse_body parse_advert parse_neighbor_advert parse_target
neighbor_solicit-Icmpv6Spec code body = elim (Bool-cases (ltb (length body) 20)) [
  | inl short ↦ rw short (ltb→lt _ _ short)
  | inr long ↦
      let h : 20 ≤ length body = ltb→le _ _ long in
      rw (long, addr16_at_lem body 4 (omega arith))
        (branch-Icmpv6Spec 135 code body
          (record (empty 135 code) { target = v6 (number_from 0 (take 16 (drop 4 body))) }) 20 refl
          h
          (record {
            kind_is = refl;
            code_is = refl;
            target = refl;
            router = refl;
            solicited = refl;
            override = refl;
            cur_hop_limit = refl;
            managed = refl;
            other_config = refl;
            router_lifetime = refl;
            reachable_time = refl;
            retrans_timer = refl;
          }))
]

neighbor_advert-Icmpv6Spec :
    (code : ℕ) (body : Bytes) → Ensures (BodySpec 136 code body) (parse_body (empty 136 code) body)
unfolding parse_body parse_advert parse_neighbor_advert parse_target
neighbor_advert-Icmpv6Spec code body = elim (Bool-cases (ltb (length body) 20)) [
  | inl short ↦ rw short (ltb→lt _ _ short)
  | inr long ↦
      let h : 20 ≤ length body = ltb→le _ _ long in
      rw (long, index_lem body 0 (omega arith), addr16_at_lem body 4 (omega arith))
        (branch-Icmpv6Spec 136 code body
          (record (empty 136 code) {
            router = has_bit (byte body 0) 7;
            solicited = has_bit (byte body 0) 6;
            override = has_bit (byte body 0) 5;
            target = v6 (number_from 0 (take 16 (drop 4 body)));
          })
          20 refl h
          (record {
            kind_is = refl;
            code_is = refl;
            target = refl;
            router = refl;
            solicited = refl;
            override = refl;
            cur_hop_limit = refl;
            managed = refl;
            other_config = refl;
            router_lifetime = refl;
            reachable_time = refl;
            retrans_timer = refl;
          }))
]

redirect-Icmpv6Spec :
    (code : ℕ) (body : Bytes) → Ensures (BodySpec 137 code body) (parse_body (empty 137 code) body)
unfolding parse_body parse_advert parse_neighbor_advert parse_target
redirect-Icmpv6Spec code body = elim (Bool-cases (ltb (length body) 36)) [
  | inl short ↦ rw short (ltb→lt _ _ short)
  | inr long ↦
      let h : 36 ≤ length body = ltb→le _ _ long in
      rw (long, addr16_at_lem body 4 (omega arith))
        (branch-Icmpv6Spec 137 code body
          (record (empty 137 code) { target = v6 (number_from 0 (take 16 (drop 4 body))) }) 36 refl
          h
          (record {
            kind_is = refl;
            code_is = refl;
            target = refl;
            router = refl;
            solicited = refl;
            override = refl;
            cur_hop_limit = refl;
            managed = refl;
            other_config = refl;
            router_lifetime = refl;
            reachable_time = refl;
            retrans_timer = refl;
          }))
]

other-Icmpv6Spec :
    (kind code : ℕ) (body : Bytes)
    → kind ≢ 133
    → kind ≢ 134
    → kind ≢ 135
    → kind ≢ 136
    → kind ≢ 137
    → Ensures (BodySpec kind code body) (parse_body (empty kind code) body)
unfolding parse_body
other-Icmpv6Spec kind code body a b c d e = ground arith

parse_body-Icmpv6Spec :
    (kind code : ℕ) (body : Bytes)
    → Ensures (BodySpec kind code body) (parse_body (empty kind code) body)
parse_body-Icmpv6Spec kind code body = elim (ℕ_discrete kind 133) [
  | yes e ↦ rw e (solicit-Icmpv6Spec code body)
  | no a ↦ elim (ℕ_discrete kind 134) [
    | yes e ↦ rw e (router_advert-Icmpv6Spec code body)
    | no b ↦ elim (ℕ_discrete kind 135) [
      | yes e ↦ rw e (neighbor_solicit-Icmpv6Spec code body)
      | no c ↦ elim (ℕ_discrete kind 136) [
        | yes e ↦ rw e (neighbor_advert-Icmpv6Spec code body)
        | no d ↦ elim (ℕ_discrete kind 137) [
          | yes e ↦ rw e (redirect-Icmpv6Spec code body)
          | no e ↦ other-Icmpv6Spec kind code body a b c d e
        ]
      ]
    ]
  ]
]

abbrev pub Icmpv6Spec : Bytes → Message × Option Error → Type 0
Icmpv6Spec b (m, some truncated) = (length b < 4) ⊎ (length (drop 4 b) < needed (byte b 0))
Icmpv6Spec b (m, none) =
    (4 ≤ length b)
    × (needed (byte b 0) ≤ length (drop 4 b))
    × Described (byte b 0) (byte b 1) (drop 4 b) m

-- On every buffer `Parse` returns: an error when the header or the fixed part of the type is cut
-- short, and else a message with the type and code of the bytes, and what the fixed part of the type says,
-- whatever the options: the target and the flags of a neighbor message, and the hop limit, the flags
-- and the three times of a router advertisement; for another type these are empty.
pub parse-Icmpv6Spec : (b : Bytes) → Ensures (Icmpv6Spec b) (parse b)
unfolding parse
parse-Icmpv6Spec b = elim (Bool-cases (ltb (length b) 4)) [
  | inl short ↦ rw short (inl (ltb→lt _ _ short))
  | inr long ↦
      let h : 4 ≤ length b = ltb→le _ _ long in
      rw (long, index_lem b 0 (omega arith), index_lem b 1 (omega arith), from_lem b 4 h)
        (Ensures-map (BodySpec (byte b 0) (byte b 1) (drop 4 b)) (Icmpv6Spec b) _
          (λ r s. widen h r.0 r.1 s) (parse_body-Icmpv6Spec (byte b 0) (byte b 1) (drop 4 b)))
]
  where
    widen :
        4 ≤ length b
        → (m : Message) (x : Option Error) → BodySpec (byte b 0) (byte b 1) (drop 4 b) (m, x)
        → Icmpv6Spec b (m, x)
    widen h m none s = (h, s.0, s.1)
    widen h m (some truncated) s = inr s
