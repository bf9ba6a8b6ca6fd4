-- ===== src/Epics/Ca.antt =====
-- internal/epics/ca/ca.go: Channel Access messages.
pub mod Total
pub mod RoundTrip
pub mod Search
pub mod Beacon
use wirepup.Base.{
  ℕ, zero, suc, ◌+◌, ◌*◌, ◌/◌, ◌%◌, ◌^◌, Bool, true, false, not, ◌&&◌, ◌||◌, Option, none, some,
  List, [], ◌∷◌, ◌++◌, ltb, leb, ◌==◌, if◌then◌else◌, length, Bytes, put16, put32, Go, ret, panic,
  stuck, ◌>>=◌, slice, from, be16, be32,
}
use wirepup.Net.{Addr, invalid, v4, v6}
use wirepup.Text.{until_nul}

abbrev pub default_server_port : ℕ
default_server_port = 5064

abbrev pub header_len : ℕ
header_len = 16

abbrev pub extended_header_len : ℕ
extended_header_len = 24

abbrev pub minor_revision : ℕ
minor_revision = 13

abbrev pub any_sender : ℕ
any_sender = 0xffffffff

abbrev pub cmd_version : ℕ
cmd_version = 0

abbrev pub cmd_search : ℕ
cmd_search = 6

abbrev pub cmd_error : ℕ
cmd_error = 11

abbrev pub cmd_beacon : ℕ
cmd_beacon = 13

abbrev pub cmd_not_found : ℕ
cmd_not_found = 14

abbrev pub cmd_repeater_confirm : ℕ
cmd_repeater_confirm = 17

abbrev pub cmd_create_chan : ℕ
cmd_create_chan = 18

abbrev pub cmd_access_rights : ℕ
cmd_access_rights = 22

abbrev pub cmd_repeater_reg : ℕ
cmd_repeater_reg = 24

abbrev pub last_command : ℕ
last_command = 27

abbrev pub do_reply : ℕ
do_reply = 10

abbrev pub dont_reply : ℕ
dont_reply = 5

-- `udpCommands`
unfoldable pub is_udp_command : ℕ → Bool
is_udp_command c = c == 0 || c == 6 || c == 14 || c == 13 || c == 24 || c == 17 || c == 23

pub data Error : Type 0 where
  truncated command payload not_ca : Error

pub record Header : Type 0 where
  pub command : ℕ
  pub payload_size : ℕ
  pub data_type : ℕ
  pub count : ℕ
  pub cid : ℕ
  pub available : ℕ
  pub header_len : ℕ

pub record Message : Type 0 where
  pub header : Header
  pub open header use *
  pub payload : Bytes

abbrev empty_header : Header
empty_header = record {
  command = 0;
  payload_size = 0;
  data_type = 0;
  count = 0;
  cid = 0;
  available = 0;
  header_len = 0;
}

check_command : Header → Header × Option Error
check_command h = (h, (if ltb last_command h.command then some command else none))

unfoldable pub parse_header : Bytes → Go (Header × Option Error)
unfolding check_command
parse_header b = if ltb (length b) header_len then ret (empty_header, some truncated) else do
  cmd ← be16 b 0
  size ← be16 b 2
  data_type ← be16 b 4
  count ← be16 b 6
  cid ← be32 b 8
  available ← be32 b 12
  let h : Header = record {
    command = cmd;
    payload_size = size;
    data_type = data_type;
    count = count;
    cid = cid;
    available = available;
    header_len = header_len;
  }
  if size == 0xffff && count == 0
      then (if ltb (length b) extended_header_len then ret (empty_header, some truncated) else do
        long_size ← be32 b 16
        long_count ← be32 b 20
        ret (
            check_command (record h {
              payload_size = long_size;
              count = long_count;
              header_len = extended_header_len;
            })))
      else ret (check_command h)

-- The part of a round of `Parse` behind the header; `next_round` takes the messages and the offset.
unfoldable pub parse_message :
    (List Message → ℕ → Go (List Message × Option Error))
    → Bool
    → List Message
    → Bytes
    → ℕ
    → Header × Option Error
    → Go (List Message × Option Error)
parse_message next_round udp out b off (h, some e) = ret (out, some e)
parse_message next_round udp out b off (h, none) =
    if udp && not (is_udp_command h.command)
    then ret (out, some not_ca)
    else let start = off + h.header_len in
      let stop = start + h.payload_size in
      if ltb (length b) stop || ltb stop start then ret (out, some payload) else do
        p ← slice b start stop
        next_round (out ++ (record { header = h; payload = p } ∷ [])) stop

-- The loop of `Parse`; every message takes 16 bytes at least.
unfoldable pub parse_loop : ℕ → Bool → List Message → Bytes → ℕ → Go (List Message × Option Error)
parse_loop zero udp out b off = if ltb off (length b) then stuck else ret (out, none)
parse_loop (suc fuel) udp out b off = if not (ltb off (length b)) then ret (out, none) else do
  here ← from b off
  h ← parse_header here
  parse_message (λ out' off'. parse_loop fuel udp out' b off') udp out b off h

-- `if len(out) == 0 { return nil, ErrTruncated }`
unfoldable pub or_empty : List Message × Option Error → List Message × Option Error
or_empty ([], none) = ([], some truncated)
or_empty r = r

unfoldable pub parse : Bytes → Bool → Go (List Message × Option Error)
parse b udp = do r ← parse_loop (length b) udp [] b 0; ret (or_empty r)

probable_header : Header × Option Error → Bool
probable_header (h, some e) = false
probable_header (h, none) =
    if h.command == cmd_search
    then (h.data_type == do_reply || h.data_type == dont_reply || h.cid == any_sender)
      && h.payload_size % 8 == 0
    else if h.command == cmd_beacon
    then h.payload_size == 0 && not (h.count == 0) && ltb h.count 65536
    else if h.command == cmd_version
    then h.payload_size == 0 && leb h.count 64
    else false

unfoldable pub probable : Bytes → Go Bool
unfolding probable_header
probable b = do h ← parse_header b; ret (probable_header h)

pub data Transport : Type 0 where
  udp tcp : Transport

pub data Direction : Type 0 where
  to_server from_server : Direction

pub record Observation : Type 0 where
  pub message : Message
  pub open message use *
  pub transport : Transport
  pub src : Addr
  pub dst : Addr
  pub src_port : ℕ
  pub dst_port : ℕ
  pub direction : Direction
  pub pv_name : Bytes
  pub search_id : ℕ
  pub reply_wanted : Bool
  pub minor_version : ℕ
  pub server_port : ℕ
  pub server_ip : Addr
  pub beacon_id : ℕ
  pub text : Bytes
  pub rights : ℕ
  pub sid : ℕ

-- `Kind`: the names that `commandNames` gives to the other commands are told apart by the number.
pub data Kind : Type 0 where
  search search_response create_channel create_channel_response : Kind
  other : ℕ → Kind

unfoldable pub kind_of : Observation → Kind
kind_of o =
    if o.command == cmd_search
    then elim o.direction [ from_server ↦ search_response | to_server ↦ search ]
    else if o.command == cmd_create_chan
    then elim o.direction [ from_server ↦ create_channel_response | to_server ↦ create_channel ]
    else other o.command

unfoldable pub is_search_response : Message → Bool
is_search_response m =
    if ltb 0 (length m.payload)
      && m.cid == m.available
      && (m.data_type == do_reply || m.data_type == dont_reply)
    then false
    else m.count == 0 && (length m.payload == 0 || length m.payload == 8)

direction_by_port : ℕ → ℕ → Direction
direction_by_port dst_port server_port = if dst_port == server_port then to_server else from_server

addr_from_u32 : ℕ → Addr
addr_from_u32 v = v4 (v % 2 ^ 32)

is_printable : Bytes → Bool
is_printable [] = true
is_printable (c ∷ cs) = leb 0x20 c && leb c 0x7e && is_printable cs

unfoldable pub c_string : Bytes → Bytes
unfolding is_printable
c_string b =
    let text = until_nul b in
    if ltb 512 (length text) then [] else if is_printable text then text else []

-- The observation of `Interpret` before its switch, with the direction that the switch sets.
abbrev pub observe : Message → Transport → Addr → Addr → ℕ → ℕ → Direction → Observation
observe m transport src dst src_port dst_port direction = record {
  message = m;
  transport = transport;
  src = src;
  dst = dst;
  src_port = src_port;
  dst_port = dst_port;
  direction = direction;
  pv_name = [];
  search_id = 0;
  reply_wanted = false;
  minor_version = 0;
  server_port = 0;
  server_ip = invalid;
  beacon_id = 0;
  text = [];
  rights = 0;
  sid = 0;
}

-- `binary.BigEndian.Uint16(m.Payload[0:2])`, where the payload has two bytes
reply_version : Bytes → Go ℕ
reply_version p = if leb 2 (length p) then be16 p 0 else ret 0

interpret_search : Message → Addr → (Direction → Observation) → Go Observation
interpret_search m src o =
    if is_search_response m
    then (do
      minor ← reply_version m.payload
      ret (record (o from_server) {
        search_id = m.available;
        server_port = m.data_type;
        server_ip = if not (m.cid == any_sender) then addr_from_u32 m.cid else src;
        minor_version = minor;
      }))
    else ret (record (o to_server) {
      search_id = m.cid;
      pv_name = c_string m.payload;
      reply_wanted = m.data_type == do_reply;
      minor_version = m.count % 2 ^ 16;
    })

interpret_beacon : Message → Addr → (Direction → Observation) → Observation
interpret_beacon m src o = record (o from_server) {
  minor_version = m.data_type;
  server_port = m.count % 2 ^ 16;
  beacon_id = m.cid;
  server_ip = if not (m.available == 0) then addr_from_u32 m.available else src;
}

interpret_create : Message → (Direction → Observation) → Observation
interpret_create m o =
    if ltb 0 (length m.payload)
    then record (o to_server) { pv_name = c_string m.payload; minor_version = m.available % 2 ^ 16 }
    else record (o from_server) { sid = m.available }

unfoldable pub interpret : Message → Transport → Addr → Addr → ℕ → ℕ → ℕ → Go Observation
unfolding interpret_search interpret_beacon interpret_create direction_by_port addr_from_u32
    reply_version
interpret m transport src dst src_port dst_port server_port =
    let o = observe m transport src dst src_port dst_port in
    if m.command == cmd_search
    then interpret_search m src o
    else if m.command == cmd_not_found
    then ret (record (o from_server) { search_id = m.available; server_ip = src })
    else if m.command == cmd_beacon
    then ret (interpret_beacon m src o)
    else if m.command == cmd_version
    then ret
        (record (o (direction_by_port dst_port server_port)) { minor_version = m.count % 2 ^ 16 })
    else if m.command == cmd_repeater_reg || m.command == cmd_repeater_confirm
    then ret (record (o (if m.command == cmd_repeater_confirm then from_server else to_server)) {
      server_ip = if not (m.available == 0) then addr_from_u32 m.available else invalid;
    })
    else if m.command == cmd_create_chan
    then ret (interpret_create m o)
    else if m.command == 20 || m.command == 21
    then ret (record (o to_server) { text = c_string m.payload })
    else if m.command == cmd_access_rights
    then ret (record (o from_server) { rights = m.available })
    else if m.command == 26 || m.command == 27 || m.command == cmd_error
    then ret (o from_server)
    else ret (o (direction_by_port dst_port server_port))

-- A 16-byte header, as the datagram constructors fill it in.
abbrev pub put_header : ℕ → ℕ → ℕ → ℕ → ℕ → ℕ → Bytes
put_header cmd size data_type count cid available =
    put16 cmd
    ++ (put16 size ++ (put16 data_type ++ (put16 count ++ (put32 cid ++ put32 available))))

-- `for len(name)%payloadAlign != 0 { name = append(name, 0) }`; eight rounds are enough.
unfoldable pub pad : ℕ → Bytes → Go Bytes
pad zero name = if length name % 8 == 0 then ret name else stuck
pad (suc fuel) name =
    let rest = pad fuel (name ++ (0 ∷ [])) in if length name % 8 == 0 then ret name else rest

unfoldable pub search_datagram : ℕ → Bytes → Bool → Go Bytes
search_datagram id pv wanted = do
  name ← pad 8 (pv ++ (0 ∷ []))
  let flag = if wanted then do_reply else dont_reply
  ret (
      put_header cmd_version 0 1 minor_revision id 0
      ++ (put_header cmd_search (length name) flag minor_revision id id ++ name))

unfoldable pub search_reply_datagram : ℕ → ℕ → Bytes
search_reply_datagram id server_port =
    put_header cmd_search 8 server_port 0 any_sender id
    ++ (put16 minor_revision ++ (0 ∷ 0 ∷ 0 ∷ 0 ∷ 0 ∷ 0 ∷ []))

-- `As4`, where the address is valid; it panics on an IPv6 address that maps no IPv4 address.
server_number : Addr → Go ℕ
server_number invalid = ret 0
server_number (v4 a) = ret a
server_number (v6 a) = if a / 2 ^ 32 == 0xffff then ret (a % 2 ^ 32) else panic

unfoldable pub beacon_datagram : ℕ → ℕ → Addr → Go Bytes
unfolding server_number
beacon_datagram server_port beacon_id server_ip = do
  a ← server_number server_ip
  ret (put_header cmd_beacon 0 minor_revision server_port beacon_id a)
