-- ===== src/Examples.antt =====
-- The theorems on inputs written out, where their hypotheses hold, and runs of the model.
pub mod Wire
use wirepup.Base.{
  ℕ, true, false, Option, none, some, List, [], ◌∷◌, ◌++◌, ◌≡◌, ◌≢◌, ◌↔◌, refl, arith, ◌&&◌,
  if◌then◌else◌, Bytes, ret, ◌>>=◌, Ensures, ok,
}
use wirepup.Net.{Addr}
use wirepup.Protocol.Ethernet
use wirepup.Protocol.Ethernet.Lossless.{FrameSpec, print, parse-FrameSpec, print-parse}
use wirepup.Protocol.Arp
use wirepup.Protocol.Arp.Fields.{ArpSpec, parse-ArpSpec}
use wirepup.Protocol.Ipv4
use wirepup.Protocol.Ipv4.Payload.{Ipv4Spec, parse-Ipv4Spec}
use wirepup.Protocol.Ipv6
use wirepup.Protocol.Ipv6.Walk.{Ipv6Spec, parse-Ipv6Spec}
use wirepup.Protocol.Udp
use wirepup.Protocol.Udp.Payload.{UdpSpec, parse-UdpSpec}
use wirepup.Protocol.Tcp
use wirepup.Protocol.Tcp.Payload.{TcpSpec, parse-TcpSpec}
use wirepup.Protocol.Icmpv6
use wirepup.Protocol.Icmpv6.Total.{Icmpv6Spec, parse-Icmpv6Spec}
use wirepup.Protocol.Dhcpv4
use wirepup.Protocol.Dhcpv4.Total.{DhcpSpec, parse-DhcpSpec}
use wirepup.Protocol.Dhcpv4.Options
use wirepup.Protocol.Dhcpv4.Options.{parse_options-print}
use wirepup.Protocol.Lldp
use wirepup.Protocol.Lldp.Mandatory.{holds, tlvs, parse-mandatory}
use wirepup.Epics.Ca
use wirepup.Epics.Ca.{Message, Transport}
use wirepup.Epics.Ca.Total.{CaSpec, parse-CaSpec}
use wirepup.Epics.Ca.RoundTrip.{IsWire, IsPrintable, print_all, parse-print_all}
use wirepup.Epics.Ca.Search.{Asks, Answers, search_datagram-Asks, search_reply-Answers}
use wirepup.Epics.Ca.Beacon.{Beacons, beacon_datagram-Beacons, probable-beacon_datagram}
use wirepup.Epics.Pva
use wirepup.Epics.Pva.Observations
use wirepup.Text.{codes, trim_space}
use wirepup.Device.Leases.{put_transaction}
use wirepup.Device.Exchanges.{Separate, Absent, put_transaction-Separate}
use wirepup.Device.Types.{Transaction, State, Via, Ref}
use wirepup.Device.Table.{Options as TableOptions, Table as DeviceTable}
use wirepup.Device.Table.{new, note_claim, claim_of, new_record}
use wirepup.Device.Record.{claim_address, weak_count}
use wirepup.Device.Apply.{Observation, Fact, apply}
use wirepup.Device.Sound.{Sound, claim_address-Sound}
use wirepup.Device.Addresses.{Distinct}
use wirepup.Device.Valid.{Valid, Keyed}
use wirepup.Device.Conflicts.{Disputed, note_claim-Disputed}
use wirepup.Device.Claims.{Claim, claim_all, note_claim-once}
use wirepup.Device.EpicsState.{CaSearch, find_by}
use wirepup.Device.Channels.{note_ca_search}
use wirepup.Device.Searches.{asked, Tracked, Tracks, note_ca_search-Tracks}
use wirepup.Device.Packets.{apply-Valid}

abbrev zeros : ℕ → Bytes
zeros n = wirepup.Base.replicate n 0

abbrev tagged : Bytes
tagged = 1 ∷ 2 ∷ 3 ∷ 4 ∷ 5 ∷ 6 ∷ 2 ∷ 0 ∷ 0 ∷ 0 ∷ 0 ∷ 9 ∷ 0x81 ∷ 0 ∷ 0xb0 ∷ 100 ∷ 8 ∷ 6 ∷ 7 ∷ []

parse-FrameSpec_example : Ensures (FrameSpec tagged) (Ethernet.parse tagged)
parse-FrameSpec_example = parse-FrameSpec tagged

abbrev tagged_frame : Ethernet.Frame
tagged_frame = record {
  destination = 1 ∷ 2 ∷ 3 ∷ 4 ∷ 5 ∷ 6 ∷ [];
  source = 2 ∷ 0 ∷ 0 ∷ 0 ∷ 0 ∷ 9 ∷ [];
  ether_type = 0x806;
  vlan = some (record { tpid = 0x8100; id = 100; priority = 5; dei = true });
  payload = 7 ∷ [];
}

tagged-parsed : Ethernet.parse tagged ≡ ret (ok tagged_frame)
unfolding Ethernet.parse wirepup.Base.be16 wirepup.Base.slice wirepup.Base.from
tagged-parsed = refl

print-parse_example : print tagged_frame ≡ tagged
print-parse_example = print-parse tagged (omega arith) tagged-parsed

-- An ARP announcement of 10.0.0.7.
abbrev announcement : Bytes
announcement =
    0
    ∷ 1
    ∷ 8
    ∷ 0
    ∷ 6
    ∷ 4
    ∷ 0
    ∷ 1
    ∷ 2
    ∷ 0
    ∷ 0
    ∷ 0
    ∷ 0
    ∷ 9
    ∷ 10
    ∷ 0
    ∷ 0
    ∷ 7
    ∷ (zeros 6 ++ (10 ∷ 0 ∷ 0 ∷ 7 ∷ []))

parse-ArpSpec_example : Ensures (ArpSpec announcement) (Arp.parse announcement)
parse-ArpSpec_example = parse-ArpSpec announcement

abbrev ipv4_packet : Bytes
ipv4_packet =
    0x45 ∷ 0 ∷ 0 ∷ 22 ∷ (zeros 5 ++ (17 ∷ 0 ∷ 0 ∷ 10 ∷ 0 ∷ 0 ∷ 1 ∷ 10 ∷ 0 ∷ 0 ∷ 2 ∷ 5 ∷ 6 ∷ 0 ∷ []))

parse-Ipv4Spec_example : Ensures (Ipv4Spec ipv4_packet) (Ipv4.parse ipv4_packet)
parse-Ipv4Spec_example = parse-Ipv4Spec ipv4_packet

abbrev udp_packet : Bytes
udp_packet = 0x13 ∷ 0xc8 ∷ 0x13 ∷ 0xc9 ∷ 0 ∷ 10 ∷ 0 ∷ 0 ∷ 1 ∷ 2 ∷ 3 ∷ []

parse-UdpSpec_example : Ensures (UdpSpec udp_packet) (Udp.parse udp_packet)
parse-UdpSpec_example = parse-UdpSpec udp_packet

abbrev tcp_packet : Bytes
tcp_packet = 0 ∷ 1 ∷ 0 ∷ 2 ∷ (zeros 8 ++ (0x50 ∷ 2 ∷ (zeros 6 ++ (9 ∷ []))))

parse-TcpSpec_example : Ensures (TcpSpec tcp_packet) (Tcp.parse tcp_packet)
parse-TcpSpec_example = parse-TcpSpec tcp_packet

-- A hop-by-hop header before an ICMPv6 payload of two bytes.
abbrev ipv6_packet : Bytes
ipv6_packet =
    0x60 ∷ 0 ∷ 0 ∷ 0 ∷ 0 ∷ 10 ∷ 0 ∷ 255 ∷ (zeros 32 ++ (58 ∷ 0 ∷ (zeros 6 ++ (1 ∷ 2 ∷ []))))

parse-Ipv6Spec_example : Ensures (Ipv6Spec ipv6_packet) (Ipv6.parse ipv6_packet)
parse-Ipv6Spec_example = parse-Ipv6Spec ipv6_packet

-- A neighbor solicitation with the source's link-layer address.
abbrev solicitation : Bytes
solicitation =
    135
    ∷ 0
    ∷ 0
    ∷ 0
    ∷ (zeros 4 ++ (0xfe ∷ 0x80 ∷ (zeros 13 ++ (1 ∷ 1 ∷ 1 ∷ 2 ∷ 0 ∷ 0 ∷ 0 ∷ 0 ∷ 9 ∷ []))))

parse-Icmpv6Spec_example : Ensures (Icmpv6Spec solicitation) (Icmpv6.parse solicitation)
parse-Icmpv6Spec_example = parse-Icmpv6Spec solicitation

-- A DHCP discover with a host name.
abbrev discover : Bytes
discover =
    1
    ∷ 1
    ∷ 6
    ∷ 0
    ∷ (zeros 232 ++ (0x63 ∷ 0x82 ∷ 0x53 ∷ 0x63 ∷ 53 ∷ 1 ∷ 1 ∷ 12 ∷ 2 ∷ 97 ∷ 98 ∷ 255 ∷ []))

parse-DhcpSpec_example : Ensures (DhcpSpec discover) (Dhcpv4.parse discover)
parse-DhcpSpec_example = parse-DhcpSpec discover

abbrev discover_options : List (ℕ × Bytes)
discover_options = (53, 1 ∷ []) ∷ (12, 97 ∷ 98 ∷ []) ∷ []

parse_options-print_example :
    Dhcpv4.parse_options 9 Dhcpv4.empty (53 ∷ 1 ∷ 1 ∷ 12 ∷ 2 ∷ 97 ∷ 98 ∷ 255 ∷ 0 ∷ []) 0
    ≡ (Options.collect discover_options Dhcpv4.empty >>= λ m. ret (m, none))
parse_options-print_example =
    parse_options-print discover_options Dhcpv4.empty (0 ∷ [])
      (((omega arith), (omega arith)), (((omega arith), (omega arith)), tt))

-- A unit whose TTL comes before its port ID.
abbrev lldp_unit : Bytes
lldp_unit = 2 ∷ 7 ∷ 4 ∷ 2 ∷ 0 ∷ 0 ∷ 0 ∷ 0 ∷ 9 ∷ 6 ∷ 2 ∷ 0 ∷ 120 ∷ 4 ∷ 3 ∷ 7 ∷ 97 ∷ 98 ∷ 0 ∷ 0 ∷ []

parse-mandatory_example :
    Ensures
      (λ (r : Lldp.Frame × Option Lldp.Error). r.1 ≡ (
        if holds 1 (tlvs 20 lldp_unit) && holds 2 (tlvs 20 lldp_unit) && holds 3 (tlvs 20 lldp_unit)
        then none
        else some Lldp.Error.mandatory))
      (Lldp.parse (λ _. true) lldp_unit)
parse-mandatory_example = parse-mandatory (λ _. true) lldp_unit

-- A beacon and an echo, as they stand in one datagram.
abbrev beacon : Message
beacon = record {
  header = record {
    command = 13;
    payload_size = 0;
    data_type = 13;
    count = 5064;
    cid = 7;
    available = 0;
    header_len = 16;
  };
  payload = [];
}

abbrev empty_wire : IsWire beacon
empty_wire = record {
  known = omega arith;
  size_fits = omega arith;
  type_fits = omega arith;
  count_fits = omega arith;
  cid_fits = omega arith;
  available_fits = omega arith;
  standard = refl;
  sized = refl;
  unextended = refl;
}

beacon-IsPrintable : IsPrintable true beacon
unfolding Ca.is_udp_command
beacon-IsPrintable = (empty_wire, refl)

parse-print_all_example :
    Ca.parse (print_all (beacon ∷ beacon ∷ [])) true ≡ ret (beacon ∷ beacon ∷ [], none)
parse-print_all_example =
    parse-print_all true beacon (beacon ∷ []) (beacon-IsPrintable, (beacon-IsPrintable, tt))

parse-CaSpec_example :
    Ensures (CaSpec true (print_all (beacon ∷ []))) (Ca.parse (print_all (beacon ∷ [])) true)
parse-CaSpec_example = parse-CaSpec (print_all (beacon ∷ [])) true

abbrev client : Addr
client = Addr.v4 0x0a000001

abbrev server : Addr
server = Addr.v4 0x0a000002

search_datagram-Asks_example :
    Ensures
      (λ d.
        Ensures
          (Asks Transport.udp client server 40000 5064 5064 3 (97 ∷ 58 ∷ 98 ∷ []) true)
          (Ca.parse d true))
      (Ca.search_datagram 3 (97 ∷ 58 ∷ 98 ∷ []) true)
search_datagram-Asks_example =
    search_datagram-Asks Transport.udp client server 40000 5064 5064 3 (97 ∷ 58 ∷ 98 ∷ []) true
      (omega arith)
      ((omega arith, omega arith), ((omega arith, omega arith), ((omega arith, omega arith), tt)))
      (omega arith)

search_reply-Answers_example :
    Ensures
      (Answers Transport.udp server client 5064 40000 5064 3 5064)
      (Ca.parse (Ca.search_reply_datagram 3 5064) true)
search_reply-Answers_example =
    search_reply-Answers Transport.udp server client 5064 40000 5064 3 5064 (omega arith)
      (omega arith)

beacon_datagram-Beacons_example :
    Ensures
      (λ d.
        Ensures
          (Beacons Transport.udp server client 5064 40000 5064 5064 7 server)
          (Ca.parse d true))
      (Ca.beacon_datagram 5064 7 server)
beacon_datagram-Beacons_example =
    beacon_datagram-Beacons Transport.udp server client 5064 40000 5064 5064 7 0x0a000002
      (omega arith) (omega arith) (omega arith) (omega arith)

probable-beacon_datagram_example :
    Ensures (λ d. Ca.probable d ≡ ret true) (Ca.beacon_datagram 5064 7 server)
probable-beacon_datagram_example =
    probable-beacon_datagram 5064 7 0x0a000002 (omega arith) (omega arith) (omega arith)
      (omega arith)

abbrev no_options : TableOptions
no_options = record { local_macs = []; vendor = λ _. [] }

abbrev host : Bytes
host = 2 ∷ 0 ∷ 0 ∷ 0 ∷ 0 ∷ 9 ∷ []

abbrev rival : Bytes
rival = 2 ∷ 0 ∷ 0 ∷ 0 ∷ 0 ∷ 10 ∷ []

abbrev ref_of : ℕ → Ref
ref_of n = record { source = []; packet_id = n }

abbrev announces : ℕ → Bytes → Observation
announces n mac = record {
  time = n;
  ref = ref_of n;
  fact = Fact.arp Arp.Role.announcement mac client client;
}

-- A beacon of a pvAccess server.
abbrev pva_beacon : Pva.Observations.Observation
pva_beacon =
    record (Pva.Observations.observe
      (record {
        header = record {
          version = 2;
          flags = 64;
          command = 0;
          payload_size = 0;
          big_endian = false;
          control = false;
          from_server = true;
        };
        payload = [];
      })
      Pva.Observations.Transport.udp client client 5076 5076) {
        guid = codes "guid";
        server_addr = client;
        server_port = 5075;
      }

abbrev packets : List Observation
packets =
    record { time = 1; ref = ref_of 1; fact = Fact.frame host none }
    ∷ announces 1 host
    ∷ announces 2 rival
    ∷ record { time = 3; ref = ref_of 3; fact = Fact.frame rival none }
    ∷ record { time = 3; ref = ref_of 3; fact = Fact.pva pva_beacon }
    ∷ []

new-Valid : Valid (new no_options)
unfolding Valid new Keyed
new-Valid = (tt, tt)

apply-Valid_example : Valid (apply packets (new no_options)).0
apply-Valid_example = apply-Valid packets (new no_options) new-Valid

new_record-Sound : Sound (new_record no_options host 1 (ref_of 1))
unfolding new_record Distinct weak_count
new_record-Sound = record {
  good4 = record { distinct = tt; bounded = omega arith; of_family = tt; backed = tt };
  good6 = record { distinct = tt; bounded = omega arith; of_family = tt; backed = tt };
}

claim_address-Sound_example :
    Sound
      (claim_address client State.leased Via.dhcp_ack 2
        (ref_of 2)
        (new_record no_options host 1 (ref_of 1))).0
claim_address-Sound_example =
    claim_address-Sound client State.leased Via.dhcp_ack 2 (ref_of 2)
      (new_record no_options host 1 (ref_of 1)) new_record-Sound

-- The table in which `host` has claimed an address.
abbrev claimed_table : DeviceTable
claimed_table = (apply (announces 1 host ∷ []) (new no_options)).0

note_claim-Disputed_example :
    Disputed rival State.claimed (claim_of client 2 claimed_table.claims).macs
    ↔ ((note_claim rival client State.claimed 2 (ref_of 2) claimed_table).1 ≢ [])
note_claim-Disputed_example =
    note_claim-Disputed rival client State.claimed 2 (ref_of 2) claimed_table

-- Claims of `host` and of `rival`, on the address and on another one.
abbrev claims_between : List Claim
claims_between =
    record { mac = host; addr = client; state = State.leased; time = 3; ref = ref_of 3 }
    ∷ record {
      mac = rival;
      addr = Addr.v4 0x0a000006;
      state = State.claimed;
      time = 4;
      ref = ref_of 4;
    }
    ∷ record { mac = host; addr = client; state = State.observed; time = 5; ref = ref_of 5 }
    ∷ []

note_claim-once_example :
    (note_claim rival client State.leased 6 (ref_of 6) (
      claim_all claims_between
        (note_claim rival client State.claimed 2 (ref_of 2) claimed_table).0)).1
    ≡ []
unfolding wirepup.Device.Types.is_strong wirepup.Device.Types.rank
note_claim-once_example =
    note_claim-once rival client State.claimed State.leased 2 6 (ref_of 2) (ref_of 6) claimed_table
      claims_between refl

abbrev offered : Transaction → Transaction
offered x = record x { offer = some 3; offered_ip = client }

-- One exchange of `host`, with the transaction id 5.
abbrev exchanges : List Transaction
exchanges = put_transaction 5 host (ref_of 1) (λ x. x) []

exchanges-Separate : Separate exchanges
unfolding Separate Absent put_transaction
exchanges-Separate = (tt, tt)

put_transaction-Separate_example : Separate (put_transaction 5 host (ref_of 2) offered exchanges)
put_transaction-Separate_example =
    put_transaction-Separate 5 host (ref_of 2) offered (λ x. (refl, refl)) exchanges
      exchanges-Separate

trims : trim_space (codes "  a b\t\n") ≡ codes "a b"
unfolding trim_space
trims = refl

-- A search request of `client`, and the list with this search in it.
abbrev ca_request : Ca.Observation
ca_request =
    record (Ca.observe
      (record {
        header = record {
          command = 6;
          payload_size = 8;
          data_type = 10;
          count = 13;
          cid = 7;
          available = 7;
          header_len = 16;
        };
        payload = codes "a:temp";
      })
      Transport.udp client server 40000 5064 Ca.Direction.to_server) {
        pv_name = codes "a:temp";
        search_id = 7;
      }

abbrev one_search : List CaSearch
one_search = record (asked ca_request host 1 (ref_of 1)) { count = 1 } ∷ []

one_search-Tracked : Tracked one_search
unfolding find_by
one_search-Tracked = ((refl, tt), omega arith)

note_ca_search-Tracks_example :
    Tracks ca_request host 2
      (ref_of 2)
      one_search
      (note_ca_search ca_request host 2 (ref_of 2) one_search)
note_ca_search-Tracks_example =
    note_ca_search-Tracks ca_request host 2 (ref_of 2) one_search one_search-Tracked
