-- ===== src/Protocol/Udp.antt =====
-- internal/protocol/udp/udp.go: the UDP header, and the payload that it leaves.
pub mod Payload
use wirepup.Base.{
  ℕ, Bool, ltb, if◌then◌else◌, length, Bytes, Go, ret, ◌>>=◌, Result, ok, err, slice, be16,
}

abbrev pub header_len : ℕ
header_len = 8

pub data Error : Type 0 where
  truncated : Error

pub record Datagram : Type 0 where
  pub src_port : ℕ
  pub dst_port : ℕ
  pub length_field : ℕ
  pub truncated : Bool
  pub payload : Bytes

unfoldable pub parse : Bytes → Go (Result Error Datagram)
parse b = if ltb (length b) header_len then ret (err Error.truncated) else do
  src_port ← be16 b 0
  dst_port ← be16 b 2
  len ← be16 b 4
  let declared = if ltb len header_len then header_len else len
  let cut = ltb (length b) declared
  let stop = if cut then length b else declared
  payload ← slice b header_len stop
  ret (
      ok (record {
        src_port = src_port;
        dst_port = dst_port;
        length_field = len;
        truncated = cut;
        payload = payload;
      }))
