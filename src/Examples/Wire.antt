-- ===== src/Examples/Wire.antt =====
-- The theorems on pvAccess, on the decoder, on the packet filter and on the active commands, on inputs written out.
use wirepup.Base.{
  ◌+◌, ◌<◌, ℕ, Bool, true, false, not, ◌&&◌, none, some, List, [], ◌∷◌, ◌++◌, ◌≡◌, ◌⊎◌, inr, refl,
  arith, ◌==◌, if◌then◌else◌, length, ◌≤◌, Bytes, ret, ◌>>=◌, Ensures, All, ok,
}
use wirepup.Net.{Addr, is4, bytes_eq}
use wirepup.Text.{codes}
use wirepup.Capture.Bpf.{
  Rule, Instruction, accept_length, assemble, ret_k, link, all_blocks, blocks_for, link_from,
  link_block, link_one, offset, resolve, total, next_of,
}
use wirepup.Epics.Pva
use wirepup.Epics.Pva.Total.{PvaHeaderSpec, PvaSpec, parse_header-PvaHeaderSpec, parse-PvaSpec}
use wirepup.Epics.Pva.Observations.{Transport, interpret}
use wirepup.Epics.Pva.Bounded.{ObservationSpec, interpret-ObservationSpec}
use wirepup.Epics.Pva.Heard.{message, Hears}
use wirepup.Epics.Pva.Search.{Searches, search_datagram-Searches}
use wirepup.Epics.Pva.Answers.{
  Responds, Announces, search_response_datagram-Responds, beacon_datagram-Announces,
}
use wirepup.Epics.Pva.Connect.{
  Creates, Validates, create_channel_request-Creates, validation_request-Validates,
}
use wirepup.Epics.Pva.Writer.{
  create_channel_request, validation_request, put_list, put_str, put_size, search_datagram,
  search_response_datagram, beacon_datagram, set_byte_order,
}
use wirepup.Decode.Epics.{new}
use wirepup.Decode.{Packet, decode, decode_all}
use wirepup.Decode.Total.{DecodeSpec, RunSpec, decode-DecodeSpec, decode_all-new}
use wirepup.Active.{Reply, arp_frame, probe_frame, parse_arp, conflicts, hosts}
use wirepup.Active.Frames.{reply_with, arp_frame-parse_arp, probe_frame-conflicts}
use wirepup.Active.Range.{HostsSpec, hosts-HostsSpec}
use wirepup.Device.Types.{Conflict, Device, State, Via, Confidence, Transaction}
use wirepup.Diagnose.Report
use wirepup.Diagnose.Grounded.{Holds4, HasRefs, Grounded, run-Grounded}
use wirepup.Diagnose.Rules.{Findings, dhcp_rules, no_offers, unanswered, dhcp_rules-unanswered}
use wirepup.Diagnose.Candidate.{Context, candidate, assumed_prefix, Suggests, candidate-Suggests}
use wirepup.Capture.Bpf.Machine.{run}
use wirepup.Capture.Bpf.Filter.{matches_any, assemble-matches}

abbrev zeros : ℕ → Bytes
zeros n = wirepup.Base.replicate n 0

abbrev arp_rule : Rule
arp_rule = record { ether_type = 0x0806; ip_proto = 0; port = 0 }

abbrev arp_program : List Instruction
arp_program =
    record { code = 0x28; jt = 0; jf = 0; k = 12 }
    ∷ record { code = 0x15; jt = 0; jf = 1; k = 0x0806 }
    ∷ ret_k accept_length
    ∷ ret_k 0
    ∷ []

arp_assembled : assemble (arp_rule ∷ []) ≡ ok arp_program
unfolding assemble link all_blocks blocks_for link_from link_block link_one offset resolve total
    next_of
arp_assembled = refl

abbrev arp_buffer : Bytes
arp_buffer = zeros 12 ++ (8 ∷ 6 ∷ zeros 28)

assemble-matches_example :
    ((run arp_program arp_buffer ≡ ret 0)
      ⊎ ((run arp_program arp_buffer ≡ ret accept_length)
          × (matches_any (arp_rule ∷ []) arp_buffer ≡ true)))
    × (78 ≤ length arp_buffer
        → run arp_program arp_buffer
          ≡ ret (if matches_any (arp_rule ∷ []) arp_buffer then accept_length else 0))
assemble-matches_example = assemble-matches arp_rule [] arp_buffer arp_program arp_assembled

abbrev guid : Bytes
guid = 1 ∷ 2 ∷ 3 ∷ 4 ∷ 5 ∷ 6 ∷ 7 ∷ 8 ∷ 9 ∷ 10 ∷ 11 ∷ 12 ∷ []

abbrev client : Addr
client = Addr.v4 0x0a000005

abbrev server : Addr
server = Addr.v4 0x0a000009

-- A control message, then a version that does not exist.
abbrev greeting : Bytes
greeting = set_byte_order true ++ (0xca ∷ 3 ∷ zeros 6)

parse_header-PvaHeaderSpec_example : Ensures (PvaHeaderSpec greeting) (Pva.parse_header greeting)
parse_header-PvaHeaderSpec_example = parse_header-PvaHeaderSpec greeting

parse-PvaSpec_example : Ensures (PvaSpec greeting) (Pva.parse greeting)
parse-PvaSpec_example = parse-PvaSpec greeting

-- A search whose payload ends in the middle of the address.
abbrev cut_search : Pva.Message
cut_search = message 3 false (zeros 20)

interpret-ObservationSpec_example :
    Ensures
      (ObservationSpec cut_search client)
      (interpret cut_search Transport.udp client server 40000 5076)
interpret-ObservationSpec_example =
    interpret-ObservationSpec cut_search Transport.udp client server 40000 5076

search_datagram-Searches_example :
    Hears Transport.udp client server 40000 5076
      (Searches 7 9 (codes "beam:current") true false 40000)
      (search_datagram 7 9 (codes "beam:current") true false 40000)
search_datagram-Searches_example =
    search_datagram-Searches Transport.udp client server 40000 5076 7 9 (codes "beam:current") true
      false 40000 (omega arith) (omega arith) (omega arith) (omega arith)

search_response_datagram-Responds_example :
    Hears Transport.udp server client 5076 40000
      (Responds server guid 7 0 5075 true (9 ∷ []))
      (search_response_datagram guid 7 (Addr.v4 0) 5075 true (9 ∷ []))
search_response_datagram-Responds_example =
    search_response_datagram-Responds Transport.udp server client 5076 40000 guid 7 0 5075 true
      (9 ∷ []) refl (omega arith) (omega arith) (omega arith) (omega arith) (omega arith, tt)

beacon_datagram-Announces_example :
    Hears Transport.udp server client 5076 5076
      (Announces server guid 1 2 0x0a000009 5075)
      (beacon_datagram guid 1 2 server 5075)
beacon_datagram-Announces_example =
    beacon_datagram-Announces Transport.udp server client 5076 5076 guid 1 2 0x0a000009 5075 refl
      (omega arith) (omega arith) (omega arith)

create_channel_request-Creates_example :
    Hears Transport.tcp client server 40000 5075
      (Creates 9 (codes "beam:current"))
      (create_channel_request 9 (codes "beam:current"))
create_channel_request-Creates_example =
    create_channel_request-Creates Transport.tcp client server 40000 5075 9 (codes "beam:current")
      (omega arith) (omega arith)

abbrev mechanisms : List Bytes
mechanisms = codes "ca" ∷ codes "anonymous" ∷ []

short_mechanisms : wirepup.Base.length (put_list put_str mechanisms) + 11 < 4294967296
unfolding put_list put_str put_size
short_mechanisms = omega arith

validation_request-Validates_example :
    Hears Transport.tcp server client 5075 40000
      (Validates 87040 32767 mechanisms)
      (validation_request 87040 32767 mechanisms)
validation_request-Validates_example =
    validation_request-Validates Transport.tcp server client 5075 40000 87040 32767 mechanisms
      (omega arith) (omega arith) (omega arith) (omega arith, (omega arith, tt)) short_mechanisms

abbrev all_text : Bytes → Bool
all_text b = true

abbrev packet : ℕ → Bytes → Packet
packet time bytes = record {
  link_type = 1;
  timestamp = time;
  interface = codes "eth0";
  original_length = length bytes;
  bytes = bytes;
}

-- An ARP frame, a frame that is cut off, and a packet of another link type.
abbrev heard : List Packet
heard =
    packet 1 arp_buffer ∷ packet 2 (zeros 9) ∷ record (packet 3 (zeros 20)) { link_type = 113 } ∷ []

decode-DecodeSpec_example :
    Ensures
      (DecodeSpec (packet 1 arp_buffer) (new (codes "eth0")))
      (decode all_text (packet 1 arp_buffer) (new (codes "eth0")))
decode-DecodeSpec_example = decode-DecodeSpec all_text (packet 1 arp_buffer) (new (codes "eth0"))

decode_all-new_example : Ensures (RunSpec heard) (decode_all all_text heard [] (new (codes "eth0")))
decode_all-new_example = decode_all-new all_text (codes "eth0") heard

abbrev own : Bytes
own = 2 ∷ 0 ∷ 0 ∷ 0 ∷ 0 ∷ 5 ∷ []

abbrev other : Bytes
other = 2 ∷ 0 ∷ 0 ∷ 0 ∷ 0 ∷ 6 ∷ []

arp_frame-parse_arp_example :
    (arp_frame own 2 client (some other) server >>= parse_arp)
    ≡ ret (some (reply_with own 2 0x0a000005 0x0a000009))
arp_frame-parse_arp_example =
    arp_frame-parse_arp own 2 0x0a000005 (some other) 0x0a000009 refl (inr refl) (omega arith)
      (omega arith)

probe_frame-conflicts_example :
    (q : Reply) × ((probe_frame other client >>= parse_arp) ≡ ret (some q))
    × (conflicts q client own ≡ (not (bytes_eq other own) && 0x0a000005 == 0x0a000005))
probe_frame-conflicts_example =
    probe_frame-conflicts other own 0x0a000005 0x0a000005 refl (omega arith)

hosts-HostsSpec_example : HostsSpec client 29 (hosts client 29)
hosts-HostsSpec_example = hosts-HostsSpec client 29 (omega arith, omega arith)

-- A host with one address and a gateway.
abbrev here : Context
here = record {
  local_ipv4 = record { addr = Addr.v4 0x0a0000fe; bits = 24 } ∷ [];
  gateways = Addr.v4 0x0a000001 ∷ [];
}

candidate-Suggests_example :
    Ensures (Suggests here [] 0x0a0000) (candidate (assumed_prefix 0x0a000005) here [])
candidate-Suggests_example = candidate-Suggests 0x0a000005 here [] (omega arith)

-- A station outside the local network that claims an address.
abbrev stranger : Device
stranger = record {
  id = other;
  macs = other ∷ [];
  ipv4 =
      record {
        addr = Addr.v4 0xc0a80007;
        state = State.claimed;
        via = Via.arp_announcement;
        first_seen = 1;
        last_seen = 1;
        ref = record { source = codes "eth0"; packet_id = 1 };
      }
      ∷ [];
  ipv6 = [];
  names = [];
  vendor = [];
  protocols = [];
  first_seen = 1;
  last_seen = 1;
  is_local = false;
  router = false;
  vlans = [];
  locally_administered = true;
  confidence = Confidence.confirmed;
  timeline = [];
  weak_overflow = 0;
}

stranger-Holds4 : All Holds4 (stranger ∷ [])
unfolding is4
stranger-Holds4 = ((refl, tt), tt)

-- An address that two MAC addresses have claimed.
abbrev contested : Conflict
contested = record {
  addr = client;
  macs = own ∷ other ∷ [];
  first_seen = 1;
  last_seen = 2;
  refs =
      record { source = codes "eth0"; packet_id = 1 }
      ∷ record { source = codes "eth0"; packet_id = 2 }
      ∷ [];
}

contested-HasRefs : All HasRefs (contested ∷ [])
contested-HasRefs = ((λ z. cc), tt)

run-Grounded_example :
    Ensures
      (Grounded here (stranger ∷ []))
      (Report.run here (stranger ∷ []) (contested ∷ []) Addr.invalid)
run-Grounded_example =
    run-Grounded here (stranger ∷ []) (contested ∷ []) Addr.invalid stranger-Holds4
      contested-HasRefs

-- A discover that nobody answers.
abbrev lonely : Transaction
lonely = record {
  xid = 5;
  client_mac = other;
  discover = some 1;
  offer = none;
  request = none;
  ack = none;
  nak = none;
  offered_ip = Addr.invalid;
  ack_ip = Addr.invalid;
  server_ip = Addr.invalid;
  ref = record { source = codes "eth0"; packet_id = 1 };
}

abbrev nothing : Findings
nothing = record { observed = []; inferred = []; recommended = [] }

dhcp_rules-unanswered_example :
    no_offers (dhcp_rules (lonely ∷ []) (some 3000000000) nothing).observed
    ≡ no_offers [] ++ unanswered (lonely ∷ []) (some 3000000000)
dhcp_rules-unanswered_example = dhcp_rules-unanswered (lonely ∷ []) (some 3000000000) nothing
