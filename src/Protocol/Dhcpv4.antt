-- ===== src/Protocol/Dhcpv4.antt =====
-- internal/protocol/dhcpv4/dhcpv4.go: DHCPv4 messages and their options.
pub mod Options
pub mod Overrun
pub mod Kept
pub mod Total
use wirepup.Base.{
  ℕ, zero, suc, ◌+◌, ◌*◌, Bool, false, not, ◌&&◌, Option, none, some, List, [], ◌∷◌, ltb, ◌==◌,
  if◌then◌else◌, has_bit, length, Bytes, Go, ret, stuck, ◌>>=◌, Result, ok, err, index, slice, from,
  be16, be32,
}
use wirepup.Net.{Addr, invalid, v4, addr4_at}
use wirepup.Text.{trim_space, until_nul}

abbrev pub fixed_len : ℕ
fixed_len = 236

abbrev pub cookie_len : ℕ
cookie_len = 4

abbrev pub magic_cookie : ℕ
magic_cookie = 0x63825363

abbrev pub discover : ℕ
discover = 1

abbrev pub offer : ℕ
offer = 2

abbrev pub request : ℕ
request = 3

abbrev pub ack : ℕ
ack = 5

abbrev pub nak : ℕ
nak = 6

pub data Error : Type 0 where
  truncated cookie options op : Error

-- What `clientID` prints: nothing, a MAC address, or hex digits behind the type.
pub data ClientId : Type 0 where
  none_given : ClientId
  mac : Bytes → ClientId
  typed : ℕ → Bytes → ClientId

pub record Message : Type 0 where
  pub op_field : ℕ
  pub htype : ℕ
  pub hlen : ℕ
  pub xid : ℕ
  pub secs : ℕ
  pub broadcast : Bool
  pub client_ip : Addr
  pub your_ip : Addr
  pub server_ip : Addr
  pub relay_ip : Addr
  pub client_mac : Bytes
  pub server_name : Bytes
  pub message_type : ℕ
  pub hostname : Bytes
  pub requested_ip : Addr
  pub server_id : Addr
  pub lease_time : ℕ
  pub subnet_mask : Addr
  pub routers : List Addr
  pub dns : List Addr
  pub client_id : ClientId
  pub options_map : List (ℕ × Bytes)

-- `m.Options[code] = v` on an association list.
unfoldable pub set_option : ℕ → Bytes → List (ℕ × Bytes) → List (ℕ × Bytes)
set_option k v [] = (k, v) ∷ []
set_option k v ((j, w) ∷ m) = if j == k then (k, v) ∷ m else (j, w) ∷ set_option k v m

unfoldable pub addr4 : Bytes → Go Addr
addr4 v = if not (length v == 4) then ret invalid else addr4_at v 0

-- `addrList`: whole groups of four bytes.
unfoldable pub addr_list : Bytes → List Addr
addr_list (a ∷ b ∷ c ∷ d ∷ rest) = v4 (a * 16777216 + b * 65536 + c * 256 + d) ∷ addr_list rest
addr_list _ = []

unfoldable pub client_id_of : Bytes → Go ClientId
client_id_of v = if ltb (length v) 2 then ret none_given else do
  typ ← index v 0
  rest ← from v 1
  ret (if typ == 1 && length v == 7 then mac rest else typed typ rest)

abbrev pub c_string : Bytes → Bytes
c_string v = trim_space (until_nul v)

unfoldable pub interpret : Message → ℕ → Bytes → Go Message
unfolding addr4 client_id_of
interpret m code v =
    if code == 53
    then if length v == 1 then (do t ← index v 0; ret (record m { message_type = t })) else ret m
    else if code == 12
    then ret (record m { hostname = c_string v })
    else if code == 50
    then (do a ← addr4 v; ret (record m { requested_ip = a }))
    else if code == 54
    then (do a ← addr4 v; ret (record m { server_id = a }))
    else if code == 1
    then (do a ← addr4 v; ret (record m { subnet_mask = a }))
    else if code == 51
    then if length v == 4 then (do n ← be32 v 0; ret (record m { lease_time = n })) else ret m
    else if code == 3
    then ret (record m { routers = addr_list v })
    else if code == 6
    then ret (record m { dns = addr_list v })
    else if code == 61
    then (do c ← client_id_of v; ret (record m { client_id = c }))
    else ret m

-- `parseOptions` from the offset `i` on; every round moves `i` on by one at least.
unfoldable pub parse_options : ℕ → Message → Bytes → ℕ → Go (Message × Option Error)
parse_options zero m b i = if ltb i (length b) then stuck else ret (m, none)
parse_options (suc fuel) m b i = if not (ltb i (length b)) then ret (m, none) else do
  code ← index b i
  if code == 0
      then parse_options fuel m b (i + 1)
      else if code == 255
      then ret (m, none)
      else if ltb (length b) (i + 2)
      then ret (m, some options)
      else do
        n ← index b (i + 1)
        if ltb (length b) (i + 2 + n) then ret (m, some options) else do
          v ← slice b (i + 2) (i + 2 + n)
          m' ← interpret (record m { options_map = set_option code v m.options_map }) code v
          parse_options fuel m' b (i + (2 + n))

abbrev pub empty : Message
empty = record {
  op_field = 0;
  htype = 0;
  hlen = 0;
  xid = 0;
  secs = 0;
  broadcast = false;
  client_ip = invalid;
  your_ip = invalid;
  server_ip = invalid;
  relay_ip = invalid;
  client_mac = [];
  server_name = [];
  message_type = 0;
  hostname = [];
  requested_ip = invalid;
  server_id = invalid;
  lease_time = 0;
  subnet_mask = invalid;
  routers = [];
  dns = [];
  client_id = none_given;
  options_map = [];
}

-- The fixed part of `Parse`, which ends where the options begin.
unfoldable pub parse_fixed : Bytes → Go (Result Error Message)
parse_fixed b = do
  op_field ← index b 0
  htype ← index b 1
  hlen ← index b 2
  xid ← be32 b 4
  secs ← be16 b 8
  flags ← index b 10
  client_ip ← addr4_at b 12
  your_ip ← addr4_at b 16
  server_ip ← addr4_at b 20
  relay_ip ← addr4_at b 24
  if not (op_field == 1) && not (op_field == 2) then ret (err op) else do
    let hl = if ltb 16 hlen then 16 else hlen
    client_mac ← slice b 28 (28 + hl)
    name ← slice b 44 108
    ret (
        ok (record empty {
          op_field = op_field;
          htype = htype;
          hlen = hlen;
          xid = xid;
          secs = secs;
          broadcast = has_bit flags 7;
          client_ip = client_ip;
          your_ip = your_ip;
          server_ip = server_ip;
          relay_ip = relay_ip;
          client_mac = client_mac;
          server_name = c_string name;
        }))

pub parse_after : Bytes → Result Error Message → Go (Message × Option Error)
parse_after b (err e) = ret (empty, some e)
parse_after b (ok m) = do
  rest ← from b (fixed_len + cookie_len)
  parse_options (length rest) m rest 0

unfoldable pub parse : Bytes → Go (Message × Option Error)
parse b = if ltb (length b) (fixed_len + cookie_len) then ret (empty, some truncated) else do
  magic ← be32 b fixed_len
  if not (magic == magic_cookie)
      then ret (empty, some cookie)
      else do fixed ← parse_fixed b; parse_after b fixed
