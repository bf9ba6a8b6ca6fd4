-- ===== src/Protocol/Icmpv6/Kept.antt =====
-- What the options of an ICMPv6 message never change.
use wirepup.Base.{
  ℕ, zero, suc, ◌-◌, ◌*◌, ◌≤◌, ◌||◌, ◌≡◌, inl, inr, refl, ◌∙◌, arith, ltb, ◌==◌, length, take, drop,
  Bytes, byte, Ensures, Ensures-map, Ensures-bind, index, slice, be32, index_lem, slice_lem,
  from_lem, Bool-cases, ltb→le, lt→ltb, length-drop,
}
use wirepup.Net.{addr16_at}
use wirepup.Protocol.Icmpv6.{Message, parse_prefix, interpret, parse_options}

-- What an option never changes.
pub record Kept (m m' : Message) : Type 0 where
  pub kind : m'.kind ≡ m.kind
  pub code : m'.code ≡ m.code
  pub target : m'.target ≡ m.target
  pub router : m'.router ≡ m.router
  pub solicited : m'.solicited ≡ m.solicited
  pub override : m'.override ≡ m.override
  pub cur_hop_limit : m'.cur_hop_limit ≡ m.cur_hop_limit
  pub managed : m'.managed ≡ m.managed
  pub other_config : m'.other_config ≡ m.other_config
  pub router_lifetime : m'.router_lifetime ≡ m.router_lifetime
  pub reachable_time : m'.reachable_time ≡ m.reachable_time
  pub retrans_timer : m'.retrans_timer ≡ m.retrans_timer

Kept-refl : (m : Message) → Kept m m
Kept-refl m = record {
  kind = refl;
  code = refl;
  target = refl;
  router = refl;
  solicited = refl;
  override = refl;
  cur_hop_limit = refl;
  managed = refl;
  other_config = refl;
  router_lifetime = refl;
  reachable_time = refl;
  retrans_timer = refl;
}

Kept-trans : (a b c : Message) → Kept a b → Kept b c → Kept a c
Kept-trans a b c h k = record {
  kind = k.kind ∙ h.kind;
  code = k.code ∙ h.code;
  target = k.target ∙ h.target;
  router = k.router ∙ h.router;
  solicited = k.solicited ∙ h.solicited;
  override = k.override ∙ h.override;
  cur_hop_limit = k.cur_hop_limit ∙ h.cur_hop_limit;
  managed = k.managed ∙ h.managed;
  other_config = k.other_config ∙ h.other_config;
  router_lifetime = k.router_lifetime ∙ h.router_lifetime;
  reachable_time = k.reachable_time ∙ h.reachable_time;
  retrans_timer = k.retrans_timer ∙ h.retrans_timer;
}

interpret-Kept : (typ : ℕ) (v : Bytes) (m : Message) → Ensures (Kept m) (interpret typ v m)
unfolding interpret parse_prefix index be32 slice addr16_at
interpret-Kept typ v m = ground arith

-- The loop ends, and keeps what the fixed part said.
pub parse_options-Kept :
    (fuel : ℕ) (m : Message) (b : Bytes)
    → length b ≤ fuel
    → Ensures (Kept m) (parse_options fuel m b)
unfolding parse_options
parse_options-Kept zero m b h = rw (lt→ltb (length b) 2 (omega arith)) (Kept-refl m)
parse_options-Kept (suc fuel) m b h = elim (Bool-cases (ltb (length b) 2)) [
  | inl done ↦ rw done (Kept-refl m)
  | inr more ↦
      let two : 2 ≤ length b = ltb→le _ _ more in
      let n : ℕ = byte b 1 * 8 in
      rw (more, index_lem b 0 (omega arith), index_lem b 1 (omega arith))
        (elim (Bool-cases (n == 0 || ltb (length b) n)) [
          | inl bad ↦ rw bad (record {
            kind = refl;
            code = refl;
            target = refl;
            router = refl;
            solicited = refl;
            override = refl;
            cur_hop_limit = refl;
            managed = refl;
            other_config = refl;
            router_lifetime = refl;
            reachable_time = refl;
            retrans_timer = refl;
          })
          | inr good ↦
              let fits : (2 ≤ n) × (n ≤ length b) = ground arith in
              rw (good, slice_lem b 2 n fits.0 fits.1)
                (Ensures-bind (Kept m) (Kept m) (interpret (byte b 0) (take (n - 2) (drop 2 b)) m) _
                  (interpret-Kept (byte b 0) (take (n - 2) (drop 2 b)) m)
                  (λ m' k. rw (from_lem b n fits.1) (
                    Ensures-map (Kept m') (Kept m) (parse_options fuel m' (drop n b))
                      (λ q w. Kept-trans m m' q k w)
                      (parse_options-Kept fuel m' (drop n b) (omega (arith, length-drop n b))))))
        ])
]
