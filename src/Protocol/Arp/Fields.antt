-- ===== src/Protocol/Arp/Fields.antt =====
-- What arp.Parse returns on every buffer.
use wirepup.Base.{
  ◌≤◌, ◌<◌, Bool, true, false, ◌&&◌, ◌||◌, ◌≡◌, arith, ◌==◌, length, take, drop, Bytes, byte,
  be16_at, be32_at, Ensures, Result, ok, err, index, slice, be16,
}
use wirepup.Net.{v4, addr4_at}
use wirepup.Protocol.Arp.{Error, truncated, unsupported, opcode, Packet, parse}

-- The first six bytes of Ethernet/IPv4 ARP.
abbrev is_ethernet_ipv4 : Bytes → Bool
is_ethernet_ipv4 b = be16_at b 0 == 1 && be16_at b 2 == 0x0800 && byte b 4 == 6 && byte b 5 == 4

abbrev is_known_op : Bytes → Bool
is_known_op b = be16_at b 6 == 1 || be16_at b 6 == 2

abbrev pub ArpSpec : Bytes → Result Error Packet → Type 0
ArpSpec b (err truncated) = length b < 28
ArpSpec b (err unsupported) = (28 ≤ length b) × (is_ethernet_ipv4 b ≡ false)
ArpSpec b (err opcode) = (28 ≤ length b) × (is_ethernet_ipv4 b ≡ true) × (is_known_op b ≡ false)
ArpSpec b (ok p) =
    (28 ≤ length b)
    × (is_ethernet_ipv4 b ≡ true)
    × (is_known_op b ≡ true)
    × (p ≡ record {
      op = be16_at b 6;
      sender_mac = take 6 (drop 8 b);
      sender_ip = v4 (be32_at b 14);
      target_mac = take 6 (drop 18 b);
      target_ip = v4 (be32_at b 24);
    })

-- On every buffer `Parse` returns. It refuses one shorter than 28 bytes, one that is not Ethernet and
-- IPv4, and one whose operation is not 1 or 2, in this order; else the packet has the fields that
-- the bytes hold at their places.
pub parse-ArpSpec : (b : Bytes) → Ensures (ArpSpec b) (parse b)
unfolding parse be16 index slice addr4_at
parse-ArpSpec b = ground arith
