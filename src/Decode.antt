-- ===== src/Decode.antt =====
-- internal/decode/decode.go: one captured packet, taken through the parsers. What `unicode` says of a
-- text in an LLDP frame is a parameter, `is_text`, as in the parser.
pub mod Epics
pub mod Learning
pub mod Dispatch
pub mod Total
use wirepup.Protocol.Dhcpv4
use wirepup.Protocol.Ethernet
use wirepup.Protocol.Arp
use wirepup.Protocol.Lldp
use wirepup.Protocol.Ipv4
use wirepup.Protocol.Ipv6
use wirepup.Protocol.Icmpv6
use wirepup.Protocol.Udp
use wirepup.Protocol.Tcp
use wirepup.Epics.Ca
use wirepup.Epics.Pva
use wirepup.Base.{
  ℕ, suc, ◌+◌, Bool, true, not, ◌&&◌, ◌||◌, Option, none, some, List, [], ◌∷◌, ◌++◌, leb, ◌==◌,
  if◌then◌else◌, length, Bytes, Go, ret, ◌>>=◌, Result, ok, err,
}
use wirepup.Net.{Addr, is_unspecified}
use wirepup.Device.Types.{strong_hint, confirmed}
use wirepup.Decode.Epics.{
  Protocol, Evidence, Fact, Observation, Decoder, Found, decode_ca, decode_pva, is_ca_tcp,
  is_pva_tcp,
}

-- A captured packet, `bytes` being its `Data`. The decoder does not read its `CaptureLength`.
pub record Packet : Type 0 where
  pub link_type : ℕ
  pub timestamp : ℕ
  pub interface : Bytes
  pub original_length : ℕ
  pub bytes : Bytes

-- `LinkTypeEthernet`
abbrev pub link_type_ethernet : ℕ
link_type_ethernet = 1

abbrev seen : Evidence → Fact → Observation
seen ev fact = record { evidence = ev; fact = fact }

abbrev is_port : Udp.Datagram → ℕ → Bool
is_port dg port = dg.src_port == port || dg.dst_port == port

-- The observations of `decodeDHCP` for what its parser returns.
dhcp_observed : Evidence → Ipv4.Packet → Dhcpv4.Message × Option Dhcpv4.Error → List Observation
dhcp_observed ev ip (m, some e) = []
dhcp_observed ev ip (m, none) =
    let confidence = if m.message_type == 0 then strong_hint else ev.confidence in
    seen (record ev { protocol = Protocol.dhcp; confidence = confidence })
      (Fact.dhcp_message m ip.src ip.dst)
    ∷ []

unfoldable pub decode_dhcp : Evidence → Ipv4.Packet → Bytes → Go (List Observation)
unfolding dhcp_observed
decode_dhcp ev ip payload = do m ← Dhcpv4.parse payload; ret (dhcp_observed ev ip m)

-- The first switch of `decodeUDP`, and the second one, on the bytes alone.
unprompted : Evidence → Ipv4.Packet → Udp.Datagram → Decoder → Go Found
unprompted ev ip dg d = do
  pva ← Pva.probable dg.payload
  if pva
      then decode_pva ip.src ip.dst dg.src_port dg.dst_port Pva.Observations.Transport.udp ev
          dg.payload strong_hint d
      else if not (leb 16 (length dg.payload))
      then ret ([], d)
      else do
        ca ← Ca.probable dg.payload
        if ca
            then decode_ca ip.src ip.dst dg.src_port dg.dst_port Ca.Transport.udp ev dg.payload
                strong_hint d
            else ret ([], d)

udp_observed : Evidence → Ipv4.Packet → Decoder → Result Udp.Error Udp.Datagram → Go Found
udp_observed ev ip d (err e) = ret ([], d)
udp_observed ev ip d (ok dg) =
    if is_port dg 67 || is_port dg 68
    then (do obs ← decode_dhcp ev ip dg.payload; ret (obs, d))
    else if is_port dg d.ports.ca_server || is_port dg d.ports.ca_repeater
    then decode_ca ip.src ip.dst dg.src_port dg.dst_port Ca.Transport.udp ev dg.payload confirmed d
    else if is_port dg d.ports.pva_udp
    then decode_pva ip.src ip.dst dg.src_port dg.dst_port Pva.Observations.Transport.udp ev
        dg.payload confirmed d
    else unprompted ev ip dg d

unfoldable pub decode_udp : Evidence → Ipv4.Packet → Bytes → Decoder → Go Found
unfolding udp_observed unprompted
decode_udp ev ip payload d = do dg ← Udp.parse payload; udp_observed ev ip d dg

-- `obs = append(obs, more...)`
abbrev pub before : List Observation → Go Found → Go Found
before obs call = do (more, d) ← call; ret (obs ++ more, d)

state_event : Evidence → Addr → Addr → Tcp.Segment → List Observation
state_event ev src dst seg =
    if Tcp.is_state_event seg.flags
    then seen (record ev { protocol = Protocol.tcp })
        (Fact.tcp_segment src dst seg.src_port seg.dst_port seg.flags seg.seq (length seg.payload))
      ∷ []
    else []

tcp_observed : Evidence → Addr → Addr → Decoder → Result Tcp.Error Tcp.Segment → Go Found
tcp_observed ev src dst d (err e) = ret ([], d)
tcp_observed ev src dst d (ok seg) =
    if length seg.payload == 0 then ret (state_event ev src dst seg, d) else do
      let known = is_pva_tcp d seg.src_port || is_pva_tcp d seg.dst_port
      probable ← if known then ret true else Pva.probable seg.payload
      if probable
          then before (state_event ev src dst seg) (
              decode_pva src dst seg.src_port seg.dst_port Pva.Observations.Transport.tcp ev
                seg.payload (if known then confirmed else strong_hint) d)
          else if is_ca_tcp d seg.src_port || is_ca_tcp d seg.dst_port
          then before (state_event ev src dst seg) (
              decode_ca src dst seg.src_port seg.dst_port Ca.Transport.tcp ev seg.payload confirmed
                d)
          else ret (state_event ev src dst seg, d)

unfoldable pub decode_tcp : Evidence → Addr → Addr → Bytes → Decoder → Go Found
unfolding tcp_observed state_event
decode_tcp ev src dst payload d = do seg ← Tcp.parse payload; tcp_observed ev src dst d seg

abbrev ipv4_seen : Evidence → Ipv4.Packet → List Observation
ipv4_seen ev p =
    seen ev (
      Fact.ipv4_packet p.src p.dst p.protocol p.ttl p.total_len
        (not (p.frag_offset == 0) || p.more_frags))
    ∷ []

ipv4_observed : Evidence → Decoder → Result Ipv4.Error Ipv4.Packet → Go Found
ipv4_observed ev d (err e) = ret ([], d)
ipv4_observed ev d (ok p) =
    let ev' : Evidence = record ev { protocol = Protocol.ipv4 } in
    let obs : List Observation = ipv4_seen ev' p in
    if p.payload_drop
    then ret (obs, d)
    else if p.protocol == 17
    then before obs (decode_udp ev' p p.payload d)
    else if p.protocol == 6
    then before obs (decode_tcp ev' p.src p.dst p.payload d)
    else ret (obs, d)

unfoldable pub decode_ipv4 : Evidence → Bytes → Decoder → Go Found
unfolding ipv4_observed
decode_ipv4 ev payload d = do p ← Ipv4.parse payload; ipv4_observed ev d p

icmpv6_observed :
    Evidence
    → Ipv6.Packet
    → List Observation
    → Icmpv6.Message × Option Icmpv6.Error
    → List Observation
icmpv6_observed ev p obs (m, some e) = obs
icmpv6_observed ev p obs (m, none) =
    let confidence = if m.malformed then strong_hint else ev.confidence in
    obs
    ++ (seen (record ev { protocol = Protocol.icmpv6; confidence = confidence })
          (Fact.icmpv6_message m p.src p.dst (m.kind == 135 && is_unspecified p.src))
        ∷ [])

ipv6_observed : Evidence → Result Ipv6.Error Ipv6.Packet → Go (List Observation)
ipv6_observed ev (err e) = ret []
ipv6_observed ev (ok p) =
    let ev' : Evidence = record ev { protocol = Protocol.ipv6 } in
    let obs : List Observation =
      seen ev'
        (Fact.ipv6_packet p.src p.dst p.next_header p.hop_limit (40 + p.payload_len) p.fragment)
      ∷ [] in
    if p.payload_drop
    then ret obs
    else if p.next_header == 58
    then (do m ← Icmpv6.parse p.payload; ret (icmpv6_observed ev' p obs m))
    else ret obs

unfoldable pub decode_ipv6 : Evidence → Bytes → Go (List Observation)
unfolding ipv6_observed icmpv6_observed
decode_ipv6 ev payload = do p ← Ipv6.parse payload; ipv6_observed ev p

arp_observed : Evidence → Result Arp.Error Arp.Packet → List Observation
arp_observed ev (err e) = []
arp_observed ev (ok p) =
    seen (record ev { protocol = Protocol.arp }) (Fact.arp_packet (Arp.classify p) p) ∷ []

unfoldable pub decode_arp : Evidence → Bytes → Go (List Observation)
unfolding arp_observed
decode_arp ev payload = do p ← Arp.parse payload; ret (arp_observed ev p)

lldp_observed : Evidence → Bytes → Lldp.Frame × Option Lldp.Error → List Observation
lldp_observed ev source (f, some e) = []
lldp_observed ev source (f, none) =
    let confidence = if f.malformed then strong_hint else ev.confidence in
    seen (record ev { protocol = Protocol.lldp; confidence = confidence }) (Fact.lldp_unit source f)
    ∷ []

abbrev frame_evidence : Packet → Decoder → Evidence
frame_evidence pkt d = record {
  timestamp = pkt.timestamp;
  source = d.source;
  interface = pkt.interface;
  packet_id = d.next;
  protocol = Protocol.ethernet;
  confidence = confirmed;
}

abbrev frame_seen : Packet → Decoder → Ethernet.Frame → List Observation
frame_seen pkt d frame =
    seen (frame_evidence pkt d)
      (Fact.frame frame.destination frame.source frame.ether_type frame.vlan pkt.original_length)
    ∷ []

module _ (is_text : Bytes → Bool) where
  unfoldable pub decode_lldp : Evidence → Ethernet.Frame → Go (List Observation)
  unfolding lldp_observed
  decode_lldp ev frame = do
    r ← Lldp.parse is_text frame.payload
    ret (lldp_observed ev frame.source r)

  -- `Decode` behind the count of the frame.
  unfoldable pub payload_observed : Evidence → Decoder → Ethernet.Frame → Go Found
  payload_observed ev d frame =
      if frame.ether_type == 0x0806
      then (do obs ← decode_arp ev frame.payload; ret (obs, d))
      else if frame.ether_type == 0x88cc
      then (do obs ← decode_lldp ev frame; ret (obs, d))
      else if frame.ether_type == 0x0800
      then decode_ipv4 ev frame.payload d
      else if frame.ether_type == 0x86dd
      then (do obs ← decode_ipv6 ev frame.payload; ret (obs, d))
      else ret ([], d)

  frame_observed : Packet → Decoder → Result Ethernet.Error Ethernet.Frame → Go Found
  frame_observed pkt d (err e) =
      ret ([], record d { stats = record (d.stats) { malformed = suc d.stats.malformed } })
  frame_observed pkt d (ok frame) =
      let d' : Decoder = record d { stats = record (d.stats) { decoded = suc d.stats.decoded } } in
      before (frame_seen pkt d frame) (payload_observed (frame_evidence pkt d) d' frame)

  unfoldable pub decode : Packet → Decoder → Go Found
  unfolding frame_observed payload_observed
  decode pkt d =
      let d' : Decoder = record d {
        next = suc d.next;
        stats = record (d.stats) { packets = suc d.stats.packets };
      } in
      if not (pkt.link_type == link_type_ethernet)
      then ret ([], record d' { stats = record (d'.stats) { skipped = suc d'.stats.skipped } })
      else do frame ← Ethernet.parse pkt.bytes; frame_observed pkt d' frame

  -- The packets of a source, one after the other.
  unfoldable pub decode_all : List Packet → List Observation → Decoder → Go Found
  decode_all [] obs d = ret (obs, d)
  decode_all (pkt ∷ pkts) obs d = do (more, d') ← decode pkt d; decode_all pkts (obs ++ more) d'
