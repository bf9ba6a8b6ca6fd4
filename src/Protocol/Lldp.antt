-- ===== src/Protocol/Lldp.antt =====
-- internal/protocol/lldp/lldp.go: LLDP data units.
pub mod Mandatory
use wirepup.Base.{
  ℕ, zero, suc, ◌+◌, ◌*◌, ◌/◌, ◌%◌, Bool, true, false, not, ◌&&◌, ◌||◌, Option, none, some, List,
  [], ◌∷◌, ◌++◌, ltb, leb, ◌==◌, if◌then◌else◌, has_bit, length, Bytes, Go, ret, stuck, ◌>>=◌,
  index, slice, from, be16, be32,
}
use wirepup.Net.{Addr, addr4_at, addr16_at}

pub data Error : Type 0 where
  mandatory : Error

-- What an identifier or a text field prints: a MAC address, an IP address, the bytes themselves,
-- or their hex digits.
pub data Text : Type 0 where
  mac : Bytes → Text
  ip : Addr → Text
  plain : Bytes → Text
  hex : Bytes → Text

pub data LinkAggregation : Type 0 where
  unreported not_capable capable : LinkAggregation
  aggregated : ℕ → LinkAggregation

pub record Frame : Type 0 where
  pub chassis_id_subtype : ℕ
  pub chassis_id : Text
  pub port_id_subtype : ℕ
  pub port_id : Text
  pub ttl : ℕ
  pub port_description : Text
  pub system_name : Text
  pub system_description : Text
  pub capabilities : List ℕ
  pub enabled_caps : List ℕ
  pub management_addrs : List Addr
  pub port_vlan_id : ℕ
  pub vlan_names : List (ℕ × Text)
  pub max_frame_size : ℕ
  pub link_aggregation : LinkAggregation
  pub med_present : Bool
  pub unknown_tlvs : ℕ
  pub malformed : Bool

-- The bits 1, 2 and 4 of `seen`.
pub record Seen : Type 0 where
  pub chassis : Bool
  pub port : Bool
  pub time : Bool

abbrev pub empty : Frame
empty = record {
  chassis_id_subtype = 0;
  chassis_id = plain [];
  port_id_subtype = 0;
  port_id = plain [];
  ttl = 0;
  port_description = plain [];
  system_name = plain [];
  system_description = plain [];
  capabilities = [];
  enabled_caps = [];
  management_addrs = [];
  port_vlan_id = 0;
  vlan_names = [];
  max_frame_size = 0;
  link_aggregation = unreported;
  med_present = false;
  unknown_tlvs = 0;
  malformed = false;
}

abbrev pub mark_malformed : Frame → Frame
mark_malformed f = record f { malformed = true }

unfoldable pub network_address : Bytes → Go (Option Addr)
network_address v = if ltb (length v) 1 then ret none else do
  family ← index v 0
  if family == 1 && length v == 5
      then (do a ← addr4_at v 1; ret (some a))
      else if family == 2 && length v == 17
      then (do a ← addr16_at v 1; ret (some a))
      else ret none

unfoldable pub management_address : Bytes → Go (Option Addr)
management_address v = if ltb (length v) 9 then ret none else do
  n ← index v 0
  if ltb n 1 || ltb (length v) (1 + n)
      then ret none
      else do a ← slice v 1 (1 + n); network_address a

-- The positions of the set bits, which stand for the entries of `capabilityNames`.
capabilities_from : ℕ → ℕ → ℕ → List ℕ
capabilities_from zero i bits = []
capabilities_from (suc n) i bits =
    let rest = capabilities_from n (i + 1) bits in if has_bit bits i then i ∷ rest else rest

unfoldable pub capabilities : ℕ → List ℕ
unfolding capabilities_from
capabilities bits = capabilities_from 11 0 bits

unfoldable pub set_name : ℕ → Text → List (ℕ × Text) → List (ℕ × Text)
set_name k v [] = (k, v) ∷ []
set_name k v ((j, w) ∷ m) = if j == k then (k, v) ∷ m else (j, w) ∷ set_name k v m

-- `is_text v`: `unicode.IsPrint` holds of every rune of `string(v)`.
module _ (is_text : Bytes → Bool) where
  unfoldable pub printable : Bytes → Text
  printable v = if is_text v then plain v else hex v

  pub named : Option Addr → Bytes → Text
  named none v = printable v
  named (some a) v = ip a

  unfoldable pub identifier : ℕ → Bytes → ℕ → ℕ → Go Text
  identifier subtype v mac_sub net_sub =
      if subtype == mac_sub
      then (if length v == 6 then ret (mac v) else ret (printable v))
      else if subtype == net_sub
      then (do a ← network_address v; ret (named a v))
      else ret (printable v)

  pub vlan_name : Frame → Bytes → Go Frame
  vlan_name f content = do
    vid ← be16 content 0
    n ← index content 2
    if ltb (length content) (3 + n) then ret (mark_malformed f) else do
      name ← slice content 3 (3 + n)
      ret (record f { vlan_names = set_name vid (printable name) f.vlan_names })

  pub link_status : Frame → Bytes → Go Frame
  link_status f content = do
    bits ← index content 0
    id ← be32 content 1
    ret (record f {
      link_aggregation =
          if has_bit bits 0 then if has_bit bits 1 then aggregated id else capable else not_capable;
    })

  unfoldable pub org_specific : Frame → Bytes → Go Frame
  org_specific f v = if ltb (length v) 4 then ret (mark_malformed f) else do
    a ← index v 0
    b ← index v 1
    c ← index v 2
    sub ← index v 3
    content ← from v 4
    let oui = a * 65536 + b * 256 + c
    if oui == 0x0080c2 && sub == 1 && leb 2 (length content)
        then (do id ← be16 content 0; ret (record f { port_vlan_id = id }))
        else if oui == 0x0080c2 && sub == 3 && leb 3 (length content)
        then vlan_name f content
        else if oui == 0x00120f && sub == 4 && leb 2 (length content)
        then (do size ← be16 content 0; ret (record f { max_frame_size = size }))
        else if oui == 0x00120f && sub == 3 && leb 5 (length content)
        then link_status f content
        else if oui == 0x0012bb
        then ret (record f { med_present = true })
        else ret (record f { unknown_tlvs = f.unknown_tlvs + 1 })

  pub chassis_tlv : Frame → Bytes → Go Frame
  chassis_tlv f v = do
    sub ← index v 0
    rest ← from v 1
    id ← identifier sub rest 4 5
    ret (record f { chassis_id_subtype = sub; chassis_id = id })

  pub port_tlv : Frame → Bytes → Go Frame
  port_tlv f v = do
    sub ← index v 0
    rest ← from v 1
    id ← identifier sub rest 3 4
    ret (record f { port_id_subtype = sub; port_id = id })

  pub add_management : Option Addr → Frame → Frame
  add_management none f = mark_malformed f
  add_management (some a) f = record f { management_addrs = f.management_addrs ++ (a ∷ []) }

  -- The TLVs that `seen` does not record.
  pub optional_tlv : ℕ → Bytes → Frame → Go Frame
  optional_tlv typ v f =
      if typ == 4
      then ret (record f { port_description = printable v })
      else if typ == 5
      then ret (record f { system_name = printable v })
      else if typ == 6
      then ret (record f { system_description = printable v })
      else if typ == 7
      then (if ltb (length v) 4 then ret (mark_malformed f) else do
        all ← be16 v 0
        enabled ← be16 v 2
        ret (record f { capabilities = capabilities all; enabled_caps = capabilities enabled }))
      else if typ == 8
      then (do a ← management_address v; ret (add_management a f))
      else if typ == 127
      then org_specific f v
      else ret (record f { unknown_tlvs = f.unknown_tlvs + 1 })

  -- The switch of the loop of `Parse`.
  unfoldable pub apply_tlv : ℕ → Bytes → Frame → Seen → Go (Frame × Seen)
  apply_tlv typ v f seen =
      if typ == 1
      then (if ltb (length v) 2
          then ret (mark_malformed f, seen)
          else do f' ← chassis_tlv f v; ret (f', record seen { chassis = true }))
      else if typ == 2
      then (if ltb (length v) 2
          then ret (mark_malformed f, seen)
          else do f' ← port_tlv f v; ret (f', record seen { port = true }))
      else if typ == 3
      then (if ltb (length v) 2
          then ret (mark_malformed f, seen)
          else do t ← be16 v 0; ret (record f { ttl = t }, record seen { time = true }))
      else do f' ← optional_tlv typ v f; ret (f', seen)

  -- The loop of `Parse` from the offset `off` on; every round takes two bytes at least.
  unfoldable pub parse_loop : ℕ → Frame → Seen → Bytes → ℕ → Go (Frame × Seen)
  parse_loop zero f seen b off = if leb (off + 2) (length b) then stuck else ret (f, seen)
  parse_loop (suc fuel) f seen b off = if not (leb (off + 2) (length b)) then ret (f, seen) else do
    hdr ← be16 b off
    let len = hdr % 512
    if ltb (length b) (off + 2 + len) then ret (mark_malformed f, seen) else do
      v ← slice b (off + 2) (off + 2 + len)
      if hdr / 512 == 0
          then ret (f, seen)
          else do r ← apply_tlv (hdr / 512) v f seen; parse_loop fuel r.0 r.1 b (off + 2 + len)

  unfoldable pub parse : Bytes → Go (Frame × Option Error)
  parse b = do
    r ← parse_loop (length b) empty (record { chassis = false; port = false; time = false }) b 0
    ret (r.0, (if r.1.chassis && r.1.port && r.1.time then none else some mandatory))
