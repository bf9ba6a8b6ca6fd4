-- ===== src/Decode/Epics.antt =====
-- The state of the decoder of internal/decode/decode.go, and what it does with Channel Access and
-- pvAccess. A set of ports is the list of its members.
use wirepup.Protocol.Lldp.{Frame as LldpFrame}
use wirepup.Protocol.Icmpv6.{Message as Icmpv6Message}
use wirepup.Protocol.Dhcpv4.{Message as DhcpMessage}
use wirepup.Protocol.Ethernet.{VlanTag}
use wirepup.Protocol.Arp
use wirepup.Epics.Ca
use wirepup.Epics.Pva
use wirepup.Epics.Pva.Observations
use wirepup.Base.{
  ℕ, Bool, true, false, not, ◌&&◌, ◌||◌, Option, none, some, List, [], ◌∷◌, ◌++◌, ◌==◌,
  if◌then◌else◌, Bytes, Go, ret, ◌>>=◌,
}
use wirepup.Net.{Addr}
use wirepup.Device.Types.{Confidence, strong_hint, confirmed}

pub data Protocol : Type 0 where
  ethernet arp lldp ipv4 ipv6 icmpv6 dhcp tcp ca pva : Protocol

pub record Evidence : Type 0 where
  pub timestamp : ℕ
  pub source : Bytes
  pub interface : Bytes
  pub packet_id : ℕ
  pub protocol : Protocol
  pub confidence : Confidence

pub data Fact : Type 0 where
  frame :
      (destination source : Bytes) → (ether_type : ℕ) → (vlan : Option VlanTag) → (size : ℕ) → Fact
  arp_packet : (role : Arp.Role) → (packet : Arp.Packet) → Fact
  lldp_unit : (source : Bytes) → (unit : LldpFrame) → Fact
  ipv4_packet : (src dst : Addr) → (protocol ttl size : ℕ) → (fragment : Bool) → Fact
  ipv6_packet : (src dst : Addr) → (next_header hop_limit size : ℕ) → (fragment : Bool) → Fact
  icmpv6_message : (message : Icmpv6Message) → (src dst : Addr) → (dad : Bool) → Fact
  dhcp_message : (message : DhcpMessage) → (src dst : Addr) → Fact
  tcp_segment : (src dst : Addr) → (src_port dst_port flags seq size : ℕ) → Fact
  ca_message : Ca.Observation → Fact
  pva_message : Pva.Observations.Observation → Fact

pub record Observation : Type 0 where
  pub evidence : Evidence
  pub fact : Fact

pub record Ports : Type 0 where
  pub ca_server : ℕ
  pub ca_repeater : ℕ
  pub pva_udp : ℕ
  pub pva_tcp : ℕ

unfoldable pub default_ports : Ports
default_ports = record { ca_server = 5064; ca_repeater = 5065; pva_udp = 5076; pva_tcp = 5075 }

pub record Stats : Type 0 where
  pub packets : ℕ
  pub decoded : ℕ
  pub malformed : ℕ
  pub skipped : ℕ

pub record Decoder : Type 0 where
  pub source : Bytes
  pub next : ℕ
  pub stats : Stats
  pub ports : Ports
  pub ca_learned : List ℕ
  pub pva_learned : List ℕ

unfoldable pub new : Bytes → Decoder
unfolding default_ports
new source = record {
  source = source;
  next = 0;
  stats = record { packets = 0; decoded = 0; malformed = 0; skipped = 0 };
  ports = default_ports;
  ca_learned = [];
  pva_learned = [];
}

-- The observations of a call, and the decoder behind it.
abbrev pub Found : Type 0
Found = List Observation × Decoder

unfoldable pub has_port : ℕ → List ℕ → Bool
has_port p [] = false
has_port p (q ∷ qs) = q == p || has_port p qs

unfoldable pub is_ca_tcp : Decoder → ℕ → Bool
is_ca_tcp d port = port == d.ports.ca_server || has_port port d.ca_learned

unfoldable pub is_pva_tcp : Decoder → ℕ → Bool
is_pva_tcp d port = port == d.ports.pva_tcp || has_port port d.pva_learned

-- The confidence in the messages of a buffer, none where they do not count: a datagram with an error.
unfoldable pub judge {ℓ} : {E : Type ℓ} → Bool → Confidence → Option E → Option Confidence
judge udp conf none = some conf
judge udp conf (some e) = if udp then none else some strong_hint

unfoldable pub is_udp_ca : Ca.Transport → Bool
is_udp_ca Ca.Transport.udp = true
is_udp_ca Ca.Transport.tcp = false

unfoldable pub is_udp_pva : Pva.Observations.Transport → Bool
is_udp_pva Pva.Observations.Transport.udp = true
is_udp_pva Pva.Observations.Transport.tcp = false

abbrev pub is_answer : Ca.Kind → Bool
is_answer Ca.Kind.search_response = true
is_answer (Ca.Kind.other c) = c == 13
is_answer Ca.Kind.search = false
is_answer Ca.Kind.create_channel = false
is_answer Ca.Kind.create_channel_response = false

unfoldable pub learn_ca : Ca.Observation → Decoder → Decoder
learn_ca o d =
    if is_answer (Ca.kind_of o) && not (o.server_port == 0)
    then record d { ca_learned = o.server_port ∷ d.ca_learned }
    else d

unfoldable pub learn_pva : Pva.Observations.Observation → Decoder → Decoder
learn_pva o d =
    if (o.command == 4 || o.command == 0) && not (o.server_port == 0) && not o.malformed
    then record d { pva_learned = o.server_port ∷ d.pva_learned }
    else d

unfoldable pub lowered : Bool → Confidence → Confidence
lowered malformed Confidence.weak_hint = Confidence.weak_hint
lowered malformed Confidence.strong_hint = strong_hint
lowered malformed Confidence.confirmed = if malformed then strong_hint else confirmed

module _ (src dst : Addr) (src_port dst_port : ℕ) where
  unfoldable pub ca_messages :
      Ca.Transport → Evidence → List Ca.Message → List Observation → Decoder → Go Found
  ca_messages transport ev [] obs d = ret (obs, d)
  ca_messages transport ev (m ∷ ms) obs d = do
    o ← Ca.interpret m transport src dst src_port dst_port d.ports.ca_server
    ca_messages transport ev ms (obs ++ (record { evidence = ev; fact = ca_message o } ∷ []))
        (learn_ca o d)

  unfoldable pub judged_ca :
      Ca.Transport → Evidence → List Ca.Message → Option Confidence → Decoder → Go Found
  judged_ca transport ev ms none d = ret ([], d)
  judged_ca transport ev ms (some conf) d =
      ca_messages transport (record ev { protocol = Protocol.ca; confidence = conf }) ms [] d

  unfoldable pub decode_ca : Ca.Transport → Evidence → Bytes → Confidence → Decoder → Go Found
  unfolding judged_ca
  decode_ca transport ev payload conf d = do
    (ms, e) ← Ca.parse payload (is_udp_ca transport)
    judged_ca transport ev ms (judge (is_udp_ca transport) conf e) d

  unfoldable pub pva_messages :
      Pva.Observations.Transport
      → Evidence
      → List Pva.Message
      → List Observation
      → Decoder
      → Go Found
  pva_messages transport ev [] obs d = ret (obs, d)
  pva_messages transport ev (m ∷ ms) obs d = do
    o ← Pva.Observations.interpret m transport src dst src_port dst_port
    let ev' : Evidence = record ev { confidence = lowered o.malformed ev.confidence }
    pva_messages transport ev ms (obs ++ (record { evidence = ev'; fact = pva_message o } ∷ []))
        (learn_pva o d)

  unfoldable pub judged_pva :
      Pva.Observations.Transport
      → Evidence
      → List Pva.Message
      → Option Confidence
      → Decoder
      → Go Found
  judged_pva transport ev ms none d = ret ([], d)
  judged_pva transport ev ms (some conf) d =
      pva_messages transport (record ev { protocol = Protocol.pva; confidence = conf }) ms [] d

  unfoldable pub decode_pva :
      Pva.Observations.Transport → Evidence → Bytes → Confidence → Decoder → Go Found
  unfolding judged_pva
  decode_pva transport ev payload conf d = do
    (ms, e) ← Pva.parse payload
    judged_pva transport ev ms (judge (is_udp_pva transport) conf e) d
