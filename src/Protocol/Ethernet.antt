-- ===== src/Protocol/Ethernet.antt =====
-- internal/protocol/ethernet/ethernet.go: the frame header and one 802.1Q tag.
pub mod Lossless
use wirepup.Base.{
  ℕ, ◌+◌, ◌-◌, ◌*◌, ◌/◌, ◌%◌, ◌^◌, ◌≤◌, ◌<◌, Bool, true, false, ◌&&◌, ◌||◌, Option, none, some,
  List, [], ◌∷◌, ◌≡◌, refl, arith, ltb, leb, ◌==◌, if◌then◌else◌, has_bit, length, take, drop,
  Bytes, byte, be16_at, Go, ret, ◌>>=◌, Result, ok, err, index, slice, from, be16, index_lem,
  slice_lem, from_lem, be16_lem, Bool-cases, inl, inr, ltb→le,
}

abbrev pub header_len : ℕ
header_len = 14

abbrev pub tag_len : ℕ
tag_len = 4

abbrev pub ether_type_vlan : ℕ
ether_type_vlan = 0x8100

abbrev pub ether_type_qinq : ℕ
ether_type_qinq = 0x88a8

pub data Error : Type 0 where
  truncated : Error

pub record VlanTag : Type 0 where
  pub tpid : ℕ
  pub id : ℕ
  pub priority : ℕ
  pub dei : Bool

pub record Frame : Type 0 where
  pub destination : Bytes
  pub source : Bytes
  pub ether_type : ℕ
  pub vlan : Option VlanTag
  pub payload : Bytes

unfoldable pub parse : Bytes → Go (Result Error Frame)
parse b = if ltb (length b) header_len then ret (err truncated) else do
  destination ← slice b 0 6
  source ← slice b 6 12
  ether_type ← be16 b 12
  if ether_type == ether_type_vlan || ether_type == ether_type_qinq
      then (if ltb (length b) (header_len + tag_len) then ret (err truncated) else do
        tci ← be16 b 14
        inner ← be16 b 16
        payload ← from b (header_len + tag_len)
        ret (
            ok (record {
              destination = destination;
              source = source;
              ether_type = inner;
              vlan = some (record {
                tpid = ether_type;
                id = tci % 4096;
                priority = tci / 2 ^ 13;
                dei = has_bit tci 12;
              });
              payload = payload;
            })))
      else do
        payload ← from b header_len
        ret (
            ok (record {
              destination = destination;
              source = source;
              ether_type = ether_type;
              vlan = none;
              payload = payload;
            }))
