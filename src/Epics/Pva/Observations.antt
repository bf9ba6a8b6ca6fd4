-- ===== src/Epics/Pva/Observations.antt =====
-- What internal/epics/pva/pva.go reads out of one message. The GUID stands for its hexadecimal text.
use wirepup.Base.{
  ℕ, zero, suc, Bool, false, not, ◌||◌, List, [], ◌∷◌, ◌++◌, ltb, ◌==◌, if◌then◌else◌, has_bit,
  length, Bytes, Go, ret, ◌>>=◌,
}
use wirepup.Net.{Addr, invalid, is_valid, is_unspecified}
use wirepup.Epics.Pva.{Message}
use wirepup.Epics.Pva.Reader.{
  Reader, fail, read_byte, skip, read_bytes, read_uint16, read_int32, rounds16, read_size, text_of,
  read_str, read_addr, read_status, read_list,
}

pub data Transport : Type 0 where
  udp tcp : Transport

pub data Direction : Type 0 where
  to_server from_server : Direction

pub record Channel : Type 0 where
  pub id : ℕ
  pub name : Bytes

pub record Observation : Type 0 where
  pub message : Message
  pub open message use *
  pub transport : Transport
  pub src : Addr
  pub dst : Addr
  pub src_port : ℕ
  pub dst_port : ℕ
  pub direction : Direction
  pub sequence_id : ℕ
  pub reply_required : Bool
  pub unicast : Bool
  pub response_addr : Addr
  pub response_port : ℕ
  pub protocols : List Bytes
  pub channels : List Channel
  pub guid : Bytes
  pub server_addr : Addr
  pub server_port : ℕ
  pub protocol : Bytes
  pub found : Bool
  pub instance_ids : List ℕ
  pub beacon_seq : ℕ
  pub change_count : ℕ
  pub status_present : Bool
  pub buffer_size : ℕ
  pub registry_max : ℕ
  pub qos : ℕ
  pub auth_nz : List Bytes
  pub client_chan_id : ℕ
  pub server_chan_id : ℕ
  pub status_ok : Bool
  pub malformed : Bool

abbrev pub observe : Message → Transport → Addr → Addr → ℕ → ℕ → Observation
observe m transport src dst src_port dst_port = record {
  message = m;
  transport = transport;
  src = src;
  dst = dst;
  src_port = src_port;
  dst_port = dst_port;
  direction = if m.from_server then from_server else to_server;
  sequence_id = 0;
  reply_required = false;
  unicast = false;
  response_addr = invalid;
  response_port = 0;
  protocols = [];
  channels = [];
  guid = [];
  server_addr = invalid;
  server_port = 0;
  protocol = [];
  found = false;
  instance_ids = [];
  beacon_seq = 0;
  change_count = 0;
  status_present = false;
  buffer_size = 0;
  registry_max = 0;
  qos = 0;
  auth_nz = [];
  client_chan_id = 0;
  server_chan_id = 0;
  status_ok = false;
  malformed = false;
}

unfoldable pub resolve : Addr → Addr → Addr
resolve a src = if not (is_valid a) || is_unspecified a then src else a

-- The names of a search; one longer than 500 bytes ends the loop as an overrun does.
unfoldable pub read_names : ℕ → List Channel → Reader → Go (List Channel × Reader)
read_names zero out r = ret (out, r)
read_names (suc n) out r = if r.failed then ret (out, r) else do
  (id, r1) ← read_int32 r
  (name, r2) ← read_str r1
  if ltb 500 (length name)
      then ret (out, fail r2)
      else read_names n (out ++ (record { id = id; name = name } ∷ [])) r2

unfoldable pub read_channel : Reader → Go (Channel × Reader)
read_channel r = do
  (id, r1) ← read_int32 r
  (name, r2) ← read_str r1
  ret (record { id = id; name = name }, r2)

unfoldable pub read_search : Observation → Reader → Go (Observation × Reader)
read_search o r = do
  (seq, r) ← read_int32 r
  (flags, r) ← read_byte r
  (addr, r) ← read_addr (skip 3 r)
  (port, r) ← read_uint16 r
  (n, r) ← read_size r
  (protocols, r) ← read_list read_str n [] r
  (count, r) ← read_uint16 r
  (channels, r) ← read_names count [] r
  ret (
    record o {
      direction = to_server;
      sequence_id = seq;
      reply_required = has_bit flags 0;
      unicast = has_bit flags 7;
      response_addr = addr;
      response_port = port;
      protocols = protocols;
      channels = channels;
    },
    r,
  )

unfoldable pub read_search_response : Addr → Observation → Reader → Go (Observation × Reader)
read_search_response src o r = do
  (guid, r) ← read_bytes 12 r
  (seq, r) ← read_int32 r
  (addr, r) ← read_addr r
  (port, r) ← read_uint16 r
  (protocol, r) ← read_str r
  (found, r) ← read_byte r
  (count, r) ← read_uint16 r
  (ids, r) ← read_list read_int32 count [] r
  ret (
    record o {
      direction = from_server;
      guid = text_of guid;
      sequence_id = seq;
      server_addr = resolve addr src;
      server_port = port;
      protocol = protocol;
      found = not (found == 0);
      instance_ids = ids;
    },
    r,
  )

unfoldable pub read_beacon : Addr → Observation → Reader → Go (Observation × Reader)
read_beacon src o r = do
  (guid, r) ← read_bytes 12 r
  (_, r) ← read_byte r
  (seq, r) ← read_byte r
  (change, r) ← read_uint16 r
  (addr, r) ← read_addr r
  (port, r) ← read_uint16 r
  (protocol, r) ← read_str r
  (status, r) ← read_byte r
  ret (
    record o {
      direction = from_server;
      guid = text_of guid;
      beacon_seq = seq;
      change_count = change;
      server_addr = resolve addr src;
      server_port = port;
      protocol = protocol;
      status_present = not (status == 0xff);
    },
    r,
  )

unfoldable pub read_validation : Observation → Reader → Go (Observation × Reader)
read_validation o r = do
  (size, r) ← read_int32 r
  (registry, r) ← read_uint16 r
  let o' : Observation = record o { buffer_size = size; registry_max = registry }
  if o.from_server
      then (do
        (n, r) ← read_size r
        (names, r) ← read_list read_str n [] r
        ret (record o' { auth_nz = names }, r))
      else (do
        (qos, r) ← read_uint16 r
        (name, r) ← read_str r
        ret (record o' { qos = qos; auth_nz = name ∷ [] }, r))

unfoldable pub read_create_channel : Observation → Reader → Go (Observation × Reader)
read_create_channel o r =
    if o.from_server
    then (do
      (client, r) ← read_int32 r
      (server, r) ← read_int32 r
      (status, r) ← read_status r
      ret (record o { client_chan_id = client; server_chan_id = server; status_ok = status }, r))
    else (do
      (count, r) ← read_uint16 r
      (channels, r) ← read_list read_channel (rounds16 count) [] r
      ret (record o { channels = channels }, r))

unfoldable pub read_validated : Observation → Reader → Go (Observation × Reader)
read_validated o r = do
  (status, r) ← read_status r
  ret (record o { direction = to_server; status_ok = status }, r)

-- The switch of `Interpret`.
unfoldable pub read_command : Addr → Observation → Reader → Go (Observation × Reader)
read_command src o r =
    if o.command == 3
    then read_search o r
    else if o.command == 4
    then read_search_response src o r
    else if o.command == 0
    then read_beacon src o r
    else if o.command == 1
    then read_validation o r
    else if o.command == 7
    then read_create_channel o r
    else if o.command == 9
    then read_validated o r
    else ret (o, r)

unfoldable pub interpret : Message → Transport → Addr → Addr → ℕ → ℕ → Go Observation
interpret m transport src dst src_port dst_port =
    let o = observe m transport src dst src_port dst_port in
    if m.control then ret o else do
      let r : Reader = record { b = m.payload; off = 0; big = m.big_endian; failed = false }
      (o', r') ← read_command src o r
      ret (record o' { malformed = r'.failed })

-- `Kind`: the other commands and the control messages are told apart by their numbers.
pub data Kind : Type 0 where
  control : ℕ → Kind
  create_channel create_channel_response validation_request validation_response : Kind
  other : ℕ → Kind

unfoldable pub kind_of : Observation → Kind
kind_of o =
    if o.control
    then Kind.control o.command
    else if o.command == 7
    then elim o.direction [ from_server ↦ create_channel_response | to_server ↦ create_channel ]
    else if o.command == 1
    then elim o.direction [ from_server ↦ validation_request | to_server ↦ validation_response ]
    else other o.command
