-- ===== src/Protocol/Ipv4.antt =====
-- internal/protocol/ipv4/ipv4.go: the IPv4 header, and the payload that it leaves.
pub mod Payload
use wirepup.Base.{
  ℕ, ◌*◌, ◌/◌, ◌%◌, ◌^◌, Bool, not, [], ltb, ◌==◌, if◌then◌else◌, has_bit, length, Bytes, Go, ret,
  ◌>>=◌, Result, ok, err, index, slice, be16,
}
use wirepup.Net.{Addr, addr4_at}

abbrev pub min_header_len : ℕ
min_header_len = 20

pub data Error : Type 0 where
  truncated version header_len : Error

pub record Packet : Type 0 where
  pub header_len : ℕ
  pub total_len : ℕ
  pub ttl : ℕ
  pub protocol : ℕ
  pub src : Addr
  pub dst : Addr
  pub frag_offset : ℕ
  pub more_frags : Bool
  pub truncated : Bool
  pub payload : Bytes
  pub payload_drop : Bool

unfoldable pub parse : Bytes → Go (Result Error Packet)
parse b = if ltb (length b) min_header_len then ret (err Error.truncated) else do
  first ← index b 0
  let hl = first % 16 * 4
  if not (first / 16 == 4)
      then ret (err version)
      else if ltb hl min_header_len
      then ret (err Error.header_len)
      else if ltb (length b) hl
      then ret (err Error.truncated)
      else do
        total ← be16 b 2
        ttl ← index b 8
        protocol ← index b 9
        src ← addr4_at b 12
        dst ← addr4_at b 16
        ff ← be16 b 6
        let declared = if ltb total hl then hl else total
        let cut = ltb (length b) declared
        let stop = if cut then length b else declared
        let dropped = not (ff % 2 ^ 13 == 0)
        payload ← if dropped then ret [] else slice b hl stop
        ret (
            ok (record {
              header_len = hl;
              total_len = total;
              ttl = ttl;
              protocol = protocol;
              src = src;
              dst = dst;
              frag_offset = ff % 2 ^ 13;
              more_frags = has_bit ff 13;
              truncated = cut;
              payload = payload;
              payload_drop = dropped;
            }))
