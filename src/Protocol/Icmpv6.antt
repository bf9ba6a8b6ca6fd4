-- ===== src/Protocol/Icmpv6.antt =====
-- internal/protocol/icmpv6/icmpv6.go: ICMPv6 messages and the Neighbor Discovery options.
pub mod Kept
pub mod Total
use wirepup.Base.{
  ℕ, zero, suc, ◌*◌, Bool, true, false, ◌&&◌, ◌||◌, Option, none, some, List, [], ◌∷◌, ◌++◌, ltb,
  leb, ◌==◌, if◌then◌else◌, has_bit, length, Bytes, Go, ret, stuck, ◌>>=◌, index, slice, from, be16,
  be32,
}
use wirepup.Net.{Addr, invalid, addr16_at}

abbrev pub header_len : ℕ
header_len = 4

abbrev pub router_solicit : ℕ
router_solicit = 133

abbrev pub router_advert : ℕ
router_advert = 134

abbrev pub neighbor_solicit : ℕ
neighbor_solicit = 135

abbrev pub neighbor_advert : ℕ
neighbor_advert = 136

abbrev pub redirect : ℕ
redirect = 137

pub data Error : Type 0 where
  truncated : Error

pub record Prefix : Type 0 where
  pub addr : Addr
  pub bits : ℕ
  pub on_link : Bool
  pub autonomous : Bool
  pub valid_life : ℕ
  pub pref_life : ℕ

pub record Message : Type 0 where
  pub kind : ℕ
  pub code : ℕ
  pub target : Addr
  pub router : Bool
  pub solicited : Bool
  pub override : Bool
  pub cur_hop_limit : ℕ
  pub managed : Bool
  pub other_config : Bool
  pub router_lifetime : ℕ
  pub reachable_time : ℕ
  pub retrans_timer : ℕ
  pub source_ll : Bytes
  pub target_ll : Bytes
  pub prefixes : List Prefix
  pub mtu : ℕ
  pub malformed : Bool

abbrev pub empty : ℕ → ℕ → Message
empty kind code = record {
  kind = kind;
  code = code;
  target = invalid;
  router = false;
  solicited = false;
  override = false;
  cur_hop_limit = 0;
  managed = false;
  other_config = false;
  router_lifetime = 0;
  reachable_time = 0;
  retrans_timer = 0;
  source_ll = [];
  target_ll = [];
  prefixes = [];
  mtu = 0;
  malformed = false;
}

unfoldable pub is_ndp : Message → Bool
is_ndp m = leb router_solicit m.kind && leb m.kind redirect

parse_prefix : Bytes → Go Prefix
parse_prefix v = do
  plen ← index v 0
  addr ← addr16_at v 14
  flags ← index v 1
  valid ← be32 v 2
  pref ← be32 v 6
  ret (record {
    addr = addr;
    bits = if ltb 128 plen then 128 else plen;
    on_link = has_bit flags 7;
    autonomous = has_bit flags 6;
    valid_life = valid;
    pref_life = pref;
  })

-- The switch of `parseOptions` on one option's type and value.
unfoldable pub interpret : ℕ → Bytes → Message → Go Message
unfolding parse_prefix
interpret typ v m =
    if typ == 1
    then if leb 6 (length v) then (do a ← slice v 0 6; ret (record m { source_ll = a })) else ret m
    else if typ == 2
    then if leb 6 (length v) then (do a ← slice v 0 6; ret (record m { target_ll = a })) else ret m
    else if typ == 3
    then if leb 30 (length v)
      then (do p ← parse_prefix v; ret (record m { prefixes = m.prefixes ++ (p ∷ []) }))
      else ret (record m { malformed = true })
    else if typ == 5
    then if leb 6 (length v) then (do n ← be32 v 2; ret (record m { mtu = n })) else ret m
    else ret m

-- `parseOptions`; every round takes 8 bytes at least.
unfoldable pub parse_options : ℕ → Message → Bytes → Go Message
parse_options zero m b = if ltb (length b) 2 then ret m else stuck
parse_options (suc fuel) m b = if ltb (length b) 2 then ret m else do
  typ ← index b 0
  units ← index b 1
  let n = units * 8
  if n == 0 || ltb (length b) n
      then ret (record m { malformed = true })
      else do v ← slice b 2 n; m' ← interpret typ v m; rest ← from b n; parse_options fuel m' rest

abbrev parse_rest : Message → Bytes → ℕ → Go (Message × Option Error)
parse_rest m body n = do
  options ← from body n
  m' ← parse_options (length options) m options
  ret (m', none)

parse_advert : Message → Bytes → Go (Message × Option Error)
parse_advert m body = do
  hop ← index body 0
  flags ← index body 1
  lifetime ← be16 body 2
  reachable ← be32 body 4
  retrans ← be32 body 8
  parse_rest
      (record m {
        cur_hop_limit = hop;
        managed = has_bit flags 7;
        other_config = has_bit flags 6;
        router_lifetime = lifetime;
        reachable_time = reachable;
        retrans_timer = retrans;
      })
      body 12

parse_neighbor_advert : Message → Bytes → Go (Message × Option Error)
parse_neighbor_advert m body = do
  flags ← index body 0
  target ← addr16_at body 4
  parse_rest
      (record m {
        router = has_bit flags 7;
        solicited = has_bit flags 6;
        override = has_bit flags 5;
        target = target;
      })
      body 20

parse_target : Message → Bytes → ℕ → Go (Message × Option Error)
parse_target m body n = do
  target ← addr16_at body 4
  parse_rest (record m { target = target }) body n

-- The switch of `Parse` on the message type.
unfoldable pub parse_body : Message → Bytes → Go (Message × Option Error)
unfolding parse_advert parse_neighbor_advert parse_target
parse_body m body =
    if m.kind == router_solicit
    then if ltb (length body) 4 then ret (m, some truncated) else parse_rest m body 4
    else if m.kind == router_advert
    then if ltb (length body) 12 then ret (m, some truncated) else parse_advert m body
    else if m.kind == neighbor_solicit
    then if ltb (length body) 20 then ret (m, some truncated) else parse_target m body 20
    else if m.kind == neighbor_advert
    then if ltb (length body) 20 then ret (m, some truncated) else parse_neighbor_advert m body
    else if m.kind == redirect
    then if ltb (length body) 36 then ret (m, some truncated) else parse_target m body 36
    else ret (m, none)

unfoldable pub parse : Bytes → Go (Message × Option Error)
parse b = if ltb (length b) header_len then ret (empty 0 0, some truncated) else do
  kind ← index b 0
  code ← index b 1
  body ← from b header_len
  parse_body (empty kind code) body
