-- ===== src/Protocol/Udp/Payload.antt =====
-- What udp.Parse returns on every buffer.
use wirepup.Base.{
  ◌-◌, ◌≤◌, ◌<◌, ◌≡◌, arith, ltb, length, take, drop, Bytes, be16_at, Ensures, take_all, Result, ok,
  err, slice, be16, length-drop,
}
use wirepup.Protocol.Udp.{Error, Datagram, parse}

-- The payload is what follows the header, cut to the declared length.
abbrev pub UdpSpec : Bytes → Result Error Datagram → Type 0
UdpSpec b (err e) = length b < 8
UdpSpec b (ok d) =
    (8 ≤ length b)
    × (d.src_port ≡ be16_at b 0)
    × (d.dst_port ≡ be16_at b 2)
    × (d.length_field ≡ be16_at b 4)
    × (d.payload ≡ take (d.length_field - 8) (drop 8 b))
    × (d.truncated ≡ ltb (length b) d.length_field)

-- On every buffer `Parse` returns: an error for a buffer shorter than 8 bytes, and else the fields of
-- the header, what follows it up to the declared length, and the mark of a datagram that is longer
-- than the buffer.
pub parse-UdpSpec : (b : Bytes) → Ensures (UdpSpec b) (parse b)
unfolding parse be16 slice
parse-UdpSpec b = ground (
  arith,
  take_all (length b - 8) (drop 8 b),
  take_all (be16_at b 4 - 8) (drop 8 b),
  length-drop 8 b,
)
