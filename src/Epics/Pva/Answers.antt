-- ===== src/Epics/Pva/Answers.antt =====
-- `SearchResponseDatagram` and `BeaconDatagram` of internal/epics/pva/pva.go, heard by the parser.
use mathlib.Core.Path.{subst}
use mathlib.Core.List.{append-nil}
use wirepup.Base.{
  ℕ, ◌*◌, ◌%◌, ◌^◌, ◌<◌, Bool, true, false, not, some, List, [], ◌∷◌, ◌++◌, ◌≡◌, refl, sym, arith,
  ◌==◌, if◌then◌else◌, length, All, Bytes, put16, put32, length-append,
}
use wirepup.Net.{Addr, is_valid, is_unspecified}
use wirepup.Epics.Pva.Search.{length-put_str}
use wirepup.Epics.Pva.Heard.{Hears, Hears-framed, At-start, start, blank}
use wirepup.Epics.Pva.Reader.{Reader, read_int32, read_bytes, read_list}
use wirepup.Epics.Pva.Writer.{
  put_str, put_addr, put_list, tcp_name, flag, search_response_datagram, beacon_datagram,
}
use wirepup.Epics.Pva.Written.{
  At, Reads, read_byte-Reads, read_uint16-Reads, read_int32-Reads, read_bytes-Reads, read_str-Reads,
  read_addr-Reads, read_list-Reads, Reads-bind,
}
use wirepup.Epics.Pva.Observations.{
  Transport, Direction, Observation, resolve, read_search_response, read_beacon, read_command,
}

read_guid-Reads :
    (b rest : Bytes) (r : Reader) (guid : Bytes)
    → length guid ≡ 12
    → At b (guid ++ rest) r
    → Reads b (some guid) rest (read_bytes 12 r)
read_guid-Reads b rest r guid h a =
    subst (λ n. Reads b (some guid) rest (read_bytes n r)) h (read_bytes-Reads b rest r guid a)

-- The server that a message names by its IPv4 address, 0.0.0.0 for the source of the packet.
abbrev pub named : ℕ → Addr → Addr
named server src = if server == 0 then src else Addr.v4 server

flag-found : (found : Bool) → not (flag found 1 == 0) ≡ found
flag-found true = refl
flag-found false = refl

length-put_list32 : (ids : List ℕ) → length (put_list put32 ids) ≡ 4 * length ids
unfolding put_list
length-put_list32 [] = refl
length-put_list32 (id ∷ ids) =
    omega (arith, length-append (put32 id) (put_list put32 ids), length-put_list32 ids)

read_ids-Reads :
    (b : Bytes) (r : Reader) (ids : List ℕ)
    → All (λ id. id < 4294967296) ids
    → At b (put_list put32 ids) r
    → Reads b ids [] (read_list read_int32 (length ids) [] r)
read_ids-Reads b r ids h a =
    read_list-Reads read_int32 put32 (λ id. id < 4294967296)
      (λ x p b rest r a. read_int32-Reads b rest r x p a) ids [] b [] r h
      (subst (λ t. At b t r) (sym (append-nil (put_list put32 ids))) a)

module _ (guid : Bytes) (hg : length guid ≡ 12) (seq server port : ℕ) (hs : seq < 4294967296)
    (hn : server < 4294967296) (hp : port < 65536) where
  read_search_response-Reads :
      (b : Bytes) (r : Reader) (src : Addr) (o : Observation) (found : Bool) (ids : List ℕ)
      → length ids < 65536
      → All (λ id. id < 4294967296) ids
      → At b
          (guid
            ++ (put32 seq
                ++ (put_addr (Addr.v4 server)
                    ++ (put16 port
                        ++ (put_str tcp_name
                            ++ (flag found 1 ∷ (put16 (length ids) ++ put_list put32 ids)))))))
          r
      → Reads b
          (record o {
            direction = Direction.from_server;
            guid = guid;
            sequence_id = seq;
            server_addr = named server src;
            server_port = port;
            protocol = tcp_name;
            found = found;
            instance_ids = ids;
          })
          []
          (read_search_response src o r)
  unfolding read_search_response resolve is_valid is_unspecified
  read_search_response-Reads b r src o found ids hl hi a =
      Reads-bind b _ [] (some guid) _ _ _ (read_guid-Reads b _ r guid hg a) (λ r a.
        Reads-bind b _ [] seq _ _ _ (read_int32-Reads b _ r seq hs a) (λ r a.
          Reads-bind b _ [] (Addr.v4 server) _ _ _ (read_addr-Reads b _ r server hn a) (λ r a.
            Reads-bind b _ [] port _ _ _ (read_uint16-Reads b _ r port hp a) (λ r a.
              Reads-bind b _ [] tcp_name _ _ _ (read_str-Reads b _ r tcp_name (omega arith) a)
                (λ r a.
                  Reads-bind b _ [] (flag found 1) _ _ _ (read_byte-Reads b _ r (flag found 1) a)
                    (λ r a.
                      Reads-bind b _ [] (length ids) _ _ _
                        (read_uint16-Reads b _ r (length ids) hl a)
                        (λ r a.
                          Reads-bind b [] [] ids _ _ _ (read_ids-Reads b r ids hi a)
                            (λ r a. (r, rw (flag-found found) refl, a)))))))))

  read_beacon-Reads :
      (b : Bytes) (r : Reader) (src : Addr) (o : Observation) (count change : ℕ)
      → change < 65536
      → At b
          (guid
            ++ (0
                ∷ count
                ∷ (put16 change
                    ++ (put_addr (Addr.v4 server)
                        ++ (put16 port ++ (put_str tcp_name ++ (0xff ∷ [])))))))
          r
      → Reads b
          (record o {
            direction = Direction.from_server;
            guid = guid;
            beacon_seq = count;
            change_count = change;
            server_addr = named server src;
            server_port = port;
            protocol = tcp_name;
            status_present = false;
          })
          []
          (read_beacon src o r)
  unfolding read_beacon resolve is_valid is_unspecified
  read_beacon-Reads b r src o count change hc a =
      Reads-bind b _ [] (some guid) _ _ _ (read_guid-Reads b _ r guid hg a) (λ r a.
        Reads-bind b _ [] 0 _ _ _ (read_byte-Reads b _ r 0 a) (λ r a.
          Reads-bind b _ [] count _ _ _ (read_byte-Reads b _ r count a) (λ r a.
            Reads-bind b _ [] change _ _ _ (read_uint16-Reads b _ r change hc a) (λ r a.
              Reads-bind b _ [] (Addr.v4 server) _ _ _ (read_addr-Reads b _ r server hn a) (λ r a.
                Reads-bind b _ [] port _ _ _ (read_uint16-Reads b _ r port hp a) (λ r a.
                  Reads-bind b _ [] tcp_name _ _ _ (read_str-Reads b _ r tcp_name (omega arith) a)
                    (λ r a.
                      Reads-bind b [] [] 0xff _ _ _ (read_byte-Reads b [] r 0xff a)
                        (λ r a. (r, refl, a)))))))))

length-put_addr : (server : ℕ) → length (put_addr (Addr.v4 server)) ≡ 16
unfolding put_addr
length-put_addr server = refl

-- The fields of an answer, and those of a beacon.
abbrev pub Responds : Addr → Bytes → ℕ → ℕ → ℕ → Bool → List ℕ → Observation → Type 0
Responds src guid seq server port found ids o =
    (o.command ≡ 4)
    × (o.direction ≡ Direction.from_server)
    × (o.malformed ≡ false)
    × (o.guid ≡ guid)
    × (o.sequence_id ≡ seq)
    × (o.server_addr ≡ named server src)
    × (o.server_port ≡ port)
    × (o.protocol ≡ tcp_name)
    × (o.found ≡ found)
    × (o.instance_ids ≡ ids)

abbrev pub Announces : Addr → Bytes → ℕ → ℕ → ℕ → ℕ → Observation → Type 0
Announces src guid count change server port o =
    (o.command ≡ 0)
    × (o.direction ≡ Direction.from_server)
    × (o.malformed ≡ false)
    × (o.guid ≡ guid)
    × (o.beacon_seq ≡ count)
    × (o.change_count ≡ change)
    × (o.server_addr ≡ named server src)
    × (o.server_port ≡ port)
    × (o.status_present ≡ false)

module _ (transport : Transport) (src dst : Addr) (src_port dst_port : ℕ) where
  -- The datagram that `SearchResponseDatagram` builds for a GUID of 12 bytes, a 32-bit sequence number, an
  -- IPv4 address below 2^32, a 16-bit port and fewer than 65536 ids of 32 bits is parsed as one message, whatever the
  -- transport context. Its observation is an answer of a server, not malformed, with all of these
  -- and the found flag; where the address is 0.0.0.0, its server is the source of the packet.
  pub search_response_datagram-Responds :
      (guid : Bytes) (seq server port : ℕ) (found : Bool) (ids : List ℕ)
      → length guid ≡ 12
      → seq < 4294967296
      → server < 4294967296
      → port < 65536
      → length ids < 65536
      → All (λ id. id < 4294967296) ids
      → Hears transport src dst src_port dst_port
          (Responds src guid seq server port found ids)
          (search_response_datagram guid seq (Addr.v4 server) port found ids)
  unfolding search_response_datagram read_command
  search_response_datagram-Responds guid seq server port found ids hg hs hn hp hl hi =
      let tail : Bytes =
        put_str tcp_name ++ (flag found 1 ∷ (put16 (length ids) ++ put_list put32 ids)) in
      let payload : Bytes =
        guid ++ (put32 seq ++ (put_addr (Addr.v4 server) ++ (put16 port ++ tail))) in
      let small : length payload < 4294967296 = omega (
        arith,
        hg,
        hl,
        length-append guid (put32 seq ++ (put_addr (Addr.v4 server) ++ (put16 port ++ tail))),
        length-append (put_addr (Addr.v4 server)) (put16 port ++ tail),
        length-put_addr server,
        length-append (put_str tcp_name)
            (flag found 1 ∷ (put16 (length ids) ++ put_list put32 ids)),
        length-put_str tcp_name,
        length-put_list32 ids,
      ) in
      let wrap : length ids % 2 ^ 16 ≡ length ids = omega arith in
      rw wrap (
        Hears-framed transport src dst src_port dst_port
          (Responds src guid seq server port found ids) 4 true payload _ (omega arith) small
          (read_search_response-Reads guid hg seq server port hs hn hp payload
            (start transport src dst src_port dst_port payload) src
            (blank transport src dst src_port dst_port 4 true payload) found ids hl hi
            (At-start transport src dst src_port dst_port payload))
          (refl, refl, refl, refl, refl, refl, refl, refl, refl, refl))

  -- The datagram that `BeaconDatagram` builds for a GUID of 12 bytes, a counter, a 16-bit change count, an IPv4 address
  -- below 2^32 and a 16-bit port is parsed as one message, whatever the transport context. Its
  -- observation is a beacon of a server, not malformed, with all of these and no status; where the
  -- address is 0.0.0.0, its server is the source of the packet.
  pub beacon_datagram-Announces :
      (guid : Bytes) (count change server port : ℕ)
      → length guid ≡ 12
      → change < 65536
      → server < 4294967296
      → port < 65536
      → Hears transport src dst src_port dst_port
          (Announces src guid count change server port)
          (beacon_datagram guid count change (Addr.v4 server) port)
  unfolding beacon_datagram read_command
  beacon_datagram-Announces guid count change server port hg hc hn hp =
      let tail : Bytes = put_str tcp_name ++ (0xff ∷ []) in
      let body : Bytes =
        0 ∷ count ∷ (put16 change ++ (put_addr (Addr.v4 server) ++ (put16 port ++ tail))) in
      let payload : Bytes = guid ++ body in
      let small : length payload < 4294967296 = omega (
        arith,
        hg,
        length-append guid body,
        length-append (put_addr (Addr.v4 server)) (put16 port ++ tail),
        length-put_addr server,
        length-append (put_str tcp_name) (0xff ∷ []),
        length-put_str tcp_name,
      ) in
      Hears-framed transport src dst src_port dst_port (Announces src guid count change server port)
        0 true payload _ (omega arith) small
        (read_beacon-Reads guid hg 0 server port (omega arith) hn hp payload
          (start transport src dst src_port dst_port payload) src
          (blank transport src dst src_port dst_port 0 true payload) count change hc
          (At-start transport src dst src_port dst_port payload))
        (refl, refl, refl, refl, refl, refl, refl, refl, refl)
