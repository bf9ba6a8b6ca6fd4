-- ===== src/Protocol/Tcp.antt =====
-- internal/protocol/tcp/tcp.go: the TCP header, and the flags that mark a connection event.
pub mod Payload
use wirepup.Base.{
  ℕ, ◌*◌, ◌/◌, Bool, ◌||◌, ltb, if◌then◌else◌, has_bit, length, Bytes, Go, ret, ◌>>=◌, Result, ok,
  err, index, from, be16, be32,
}

abbrev pub min_header_len : ℕ
min_header_len = 20

pub data Error : Type 0 where
  truncated offset : Error

pub record Segment : Type 0 where
  pub src_port : ℕ
  pub dst_port : ℕ
  pub seq : ℕ
  pub ack : ℕ
  pub flags : ℕ
  pub window : ℕ
  pub header_len : ℕ
  pub payload : Bytes

unfoldable pub parse : Bytes → Go (Result Error Segment)
parse b = if ltb (length b) min_header_len then ret (err truncated) else do
  b12 ← index b 12
  let hl = b12 / 16 * 4
  if ltb hl min_header_len
      then ret (err offset)
      else if ltb (length b) hl
      then ret (err truncated)
      else do
        src_port ← be16 b 0
        dst_port ← be16 b 2
        seq ← be32 b 4
        ack ← be32 b 8
        flags ← index b 13
        window ← be16 b 14
        payload ← from b hl
        ret (
            ok (record {
              src_port = src_port;
              dst_port = dst_port;
              seq = seq;
              ack = ack;
              flags = flags;
              window = window;
              header_len = hl;
              payload = payload;
            }))

-- SYN is bit 1, FIN bit 0 and RST bit 2.
unfoldable pub is_state_event : ℕ → Bool
is_state_event flags = has_bit flags 1 || has_bit flags 0 || has_bit flags 2
