-- ===== src/Protocol/Ipv6.antt =====
-- internal/protocol/ipv6/ipv6.go: the IPv6 fixed header and the walk over the extension headers.
pub mod Walk
use wirepup.Base.{
  ℕ, zero, suc, ◌+◌, ◌*◌, ◌/◌, ◌^◌, Bool, true, false, not, ◌||◌, [], ltb, ◌==◌, if◌then◌else◌,
  length, Bytes, Go, ret, ◌>>=◌, Result, ok, err, index, slice, from, be16,
}
use wirepup.Net.{Addr, addr16_at}

abbrev pub header_len : ℕ
header_len = 40

abbrev pub max_ext_headers : ℕ
max_ext_headers = 8

abbrev pub frag_header_len : ℕ
frag_header_len = 8

abbrev pub next_icmpv6 : ℕ
next_icmpv6 = 58

pub data Error : Type 0 where
  truncated version : Error

pub record Packet : Type 0 where
  pub next_header : ℕ
  pub hop_limit : ℕ
  pub payload_len : ℕ
  pub src : Addr
  pub dst : Addr
  pub fragment : Bool
  pub payload_drop : Bool
  pub truncated : Bool
  pub ext_headers : ℕ
  pub payload : Bytes

-- Hop-by-hop, routing, destination options, mobility, host identity and shim6.
pub is_options : ℕ → Bool
is_options nh = nh == 0 || nh == 43 || nh == 60 || nh == 135 || nh == 139 || nh == 140

abbrev pub give_up : Packet → Go Packet
give_up p = ret (record p { payload_drop = true })

-- The end of a round: the header of `hl` bytes is skipped, and the loop goes on.
pub skip_header : (Packet → Bytes → Go Packet) → Packet → Bytes → ℕ → Go Packet
skip_header next_round p body hl = if ltb (length body) hl then give_up p else do
  nh ← index body 0
  rest ← from body hl
  next_round (record p { next_header = nh; ext_headers = p.ext_headers + 1 }) rest

-- The fragment header; only a first fragment goes on.
pub skip_fragment : (Packet → Bytes → Go Packet) → Packet → Bytes → Go Packet
skip_fragment next_round p body = do
  off ← be16 body 2
  nh ← index body 0
  let seen = record p { fragment = true }
  if not (off / 2 ^ 3 == 0)
      then give_up (record seen { next_header = nh; ext_headers = p.ext_headers + 1 })
      else skip_header next_round seen body frag_header_len

-- The loop of `Parse`, on the rounds left.
unfoldable pub walk : ℕ → Packet → Bytes → Go Packet
walk zero p body = give_up p
walk (suc n) p body =
    if is_options p.next_header
    then (if ltb (length body) 2
        then give_up p
        else do len ← index body 1; skip_header (walk n) p body ((len + 1) * 8))
    else if p.next_header == 51
    then (if ltb (length body) 2
        then give_up p
        else do len ← index body 1; skip_header (walk n) p body ((len + 2) * 4))
    else if p.next_header == 44
    then if ltb (length body) frag_header_len then give_up p else skip_fragment (walk n) p body
    else ret (record p { payload = body })

unfoldable pub parse : Bytes → Go (Result Error Packet)
parse b = if ltb (length b) header_len then ret (err Error.truncated) else do
  first ← index b 0
  if not (first / 16 == 6) then ret (err version) else do
    nh ← index b 6
    hop ← index b 7
    len ← be16 b 4
    src ← addr16_at b 8
    dst ← addr16_at b 24
    let cut = ltb (length b) (header_len + len)
    let stop = if cut then length b else header_len + len
    body ← slice b header_len stop
    p ←
        walk max_ext_headers
          (record {
            next_header = nh;
            hop_limit = hop;
            payload_len = len;
            src = src;
            dst = dst;
            fragment = false;
            payload_drop = false;
            truncated = cut;
            ext_headers = 0;
            payload = [];
          })
          body
    ret (ok p)
