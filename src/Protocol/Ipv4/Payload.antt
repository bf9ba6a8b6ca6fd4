-- ===== src/Protocol/Ipv4/Payload.antt =====
-- What ipv4.Parse returns on every buffer.
use wirepup.Base.{
  ℕ, ◌-◌, ◌*◌, ◌/◌, ◌%◌, ◌^◌, ◌≤◌, ◌<◌, not, [], ◌≡◌, ◌≢◌, ◌⊎◌, arith, ltb, ◌==◌, if◌then◌else◌,
  has_bit, length, take, drop, Bytes, byte, be16_at, be32_at, Ensures, take_all, Result, ok, err,
  index, slice, be16, length-drop,
}
use wirepup.Net.{v4, addr4_at}
use wirepup.Protocol.Ipv4.{Error, Packet, parse}

abbrev ihl : Bytes → ℕ
ihl b = byte b 0 % 16 * 4

abbrev pub Ipv4Spec : Bytes → Result Error Packet → Type 0
Ipv4Spec b (err Error.truncated) =
    (length b < 20) ⊎ ((byte b 0 / 16 ≡ 4) × (20 ≤ ihl b) × (length b < ihl b))
Ipv4Spec b (err Error.version) = (20 ≤ length b) × (byte b 0 / 16 ≢ 4)
Ipv4Spec b (err Error.header_len) = (20 ≤ length b) × (byte b 0 / 16 ≡ 4) × (ihl b < 20)
Ipv4Spec b (ok p) =
    (byte b 0 / 16 ≡ 4)
    × (p.header_len ≡ ihl b)
    × (20 ≤ p.header_len)
    × (p.header_len ≤ length b)
    × (p.total_len ≡ be16_at b 2)
    × (p.frag_offset ≡ be16_at b 6 % 2 ^ 13)
    × (p.more_frags ≡ has_bit (be16_at b 6) 13)
    × (p.ttl ≡ byte b 8)
    × (p.protocol ≡ byte b 9)
    × (p.src ≡ v4 (be32_at b 12))
    × (p.dst ≡ v4 (be32_at b 16))
    × (p.truncated ≡ ltb (length b) p.total_len)
    × (p.payload_drop ≡ not (p.frag_offset == 0))
    × (p.payload
        ≡ (if p.payload_drop then [] else take (p.total_len - p.header_len) (drop p.header_len b)))

-- On every buffer `Parse` returns: an error for a buffer shorter than 20 bytes or than its header, for
-- another version, or for a header length below 20; else every field of the header as its bytes say: the
-- total length, the fragment offset in the low 13 bits and the flag of more fragments above them, the
-- hop count, the protocol and the addresses. The payload is what follows the header up to the total
-- length, and empty for a later fragment; a buffer shorter than the total length is marked.
pub parse-Ipv4Spec : (b : Bytes) → Ensures (Ipv4Spec b) (parse b)
unfolding parse be16 index slice addr4_at
parse-Ipv4Spec b = ground (
  arith,
  length-drop (ihl b) b,
  take_all (length b - ihl b) (drop (ihl b) b),
  take_all (be16_at b 2 - ihl b) (drop (ihl b) b),
)
