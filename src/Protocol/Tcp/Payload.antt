-- ===== src/Protocol/Tcp/Payload.antt =====
-- What tcp.Parse returns on every buffer.
use wirepup.Base.{
  ℕ, ◌+◌, ◌*◌, ◌/◌, ◌≤◌, ◌<◌, ◌≡◌, ◌⊎◌, arith, length, drop, Bytes, byte, be16_at, be32_at, Ensures,
  Result, ok, err, index, from, be16, be32, length-drop,
}
use wirepup.Protocol.Tcp.{Error, truncated, offset, Segment, parse}

abbrev data_offset : Bytes → ℕ
data_offset b = byte b 12 / 16 * 4

abbrev pub TcpSpec : Bytes → Result Error Segment → Type 0
TcpSpec b (err truncated) = (length b < 20) ⊎ ((20 ≤ data_offset b) × (length b < data_offset b))
TcpSpec b (err offset) = (20 ≤ length b) × (data_offset b < 20)
TcpSpec b (ok s) =
    (20 ≤ s.header_len)
    × (s.header_len ≡ data_offset b)
    × (length s.payload + s.header_len ≡ length b)
    × (s.payload ≡ drop s.header_len b)
    × (s.src_port ≡ be16_at b 0)
    × (s.dst_port ≡ be16_at b 2)
    × (s.seq ≡ be32_at b 4)
    × (s.ack ≡ be32_at b 8)
    × (s.flags ≡ byte b 13)
    × (s.window ≡ be16_at b 14)

-- On every buffer `Parse` returns: an error for a buffer shorter than 20 bytes or than its data offset,
-- or for a data offset below 20; else the fields of the header, and header and payload make up the
-- whole buffer.
pub parse-TcpSpec : (b : Bytes) → Ensures (TcpSpec b) (parse b)
unfolding parse be16 be32 index from
parse-TcpSpec b = ground (arith, length-drop (data_offset b) b)
