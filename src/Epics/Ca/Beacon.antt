-- ===== src/Epics/Ca/Beacon.antt =====
-- `BeaconDatagram` of internal/epics/ca/ca.go, heard by the parser.
use wirepup.Base.{
  ℕ, ◌^◌, ◌<◌, true, Option, none, List, [], ◌∷◌, ◌≡◌, ◌≢◌, refl, arith, Ensures, ret,
}
use wirepup.Net.{Addr}
use wirepup.Epics.Ca.{
  Error, Message, Transport, Observation, Kind, kind_of, parse, interpret, is_udp_command,
  beacon_datagram, probable,
}
use wirepup.Epics.Ca.RoundTrip.{IsPrintable, parse-print_all, parse_header-print}

abbrev beacon_message : ℕ → ℕ → ℕ → Message
beacon_message port id a = record {
  header = record {
    command = 13;
    payload_size = 0;
    data_type = 13;
    count = port;
    cid = id;
    available = a;
    header_len = 16;
  };
  payload = [];
}

module _ (port id a : ℕ) (hport : port < 65536) (hid : id < 2 ^ 32) (ha : a < 2 ^ 32) where
  beacon_message-IsPrintable : IsPrintable true (beacon_message port id a)
  beacon_message-IsPrintable = (
    record {
      known = omega arith;
      size_fits = omega arith;
      type_fits = omega arith;
      count_fits = omega arith;
      cid_fits = omega arith;
      available_fits = omega arith;
      standard = refl;
      sized = refl;
      unextended = refl;
    },
    unfold is_udp_command in refl,
  )

module _ (transport : Transport) (src dst : Addr) (src_port dst_port server_port : ℕ) where
  -- Parsed as a datagram, the bytes are one beacon of a server.
  abbrev pub Beacons : ℕ → ℕ → Addr → List Message × Option Error → Type 0
  Beacons port id ip (m ∷ [], none) =
      Ensures
        (λ (o : Observation).
          (kind_of o ≡ Kind.other 13)
          × (o.server_port ≡ port)
          × (o.beacon_id ≡ id)
          × (o.server_ip ≡ ip)
          × (o.minor_version ≡ 13))
        (interpret m transport src dst src_port dst_port server_port)
  Beacons port id ip _ = ⊥

  beacon_message-Beacons :
      (port id a : ℕ)
      → port < 65536
      → a < 2 ^ 32
      → a ≢ 0
      → Beacons port id (Addr.v4 a) (beacon_message port id a ∷ [], none)
  unfolding interpret kind_of
  beacon_message-Beacons port id a hport ha nonzero = ground (arith, nonzero)

  -- The datagram that `BeaconDatagram` builds for a 16-bit server port, a 32-bit beacon id and an IPv4
  -- address other than 0.0.0.0 is parsed as one beacon, whose interpretation gives back all three, whatever the
  -- transport context.
  pub beacon_datagram-Beacons :
      (port id a : ℕ)
      → port < 65536
      → id < 2 ^ 32
      → a < 2 ^ 32
      → a ≢ 0
      → Ensures
          (λ d. Ensures (Beacons port id (Addr.v4 a)) (parse d true))
          (beacon_datagram port id (Addr.v4 a))
  unfolding beacon_datagram
  beacon_datagram-Beacons port id a hport hid ha nonzero =
      rw
        (parse-print_all true (beacon_message port id a) []
          (beacon_message-IsPrintable port id a hport hid ha, tt))
        (beacon_message-Beacons port id a hport ha nonzero)

-- `Probable` recognizes the beacon that `BeaconDatagram` builds for a 16-bit port other than 0, a
-- 32-bit beacon id and an IPv4 address.
pub probable-beacon_datagram :
    (port id a : ℕ)
    → port < 65536
    → id < 2 ^ 32
    → a < 2 ^ 32
    → port ≢ 0
    → Ensures (λ d. probable d ≡ ret true) (beacon_datagram port id (Addr.v4 a))
unfolding beacon_datagram probable
probable-beacon_datagram port id a hport hid ha nonzero =
    rw
      (parse_header-print (beacon_message port id a) []
        (beacon_message-IsPrintable port id a hport hid ha).0)
      (ground (arith, nonzero))
