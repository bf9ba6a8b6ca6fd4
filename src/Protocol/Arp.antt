-- ===== src/Protocol/Arp.antt =====
-- internal/protocol/arp/arp.go: Ethernet/IPv4 ARP packets and their roles.
pub mod Fields
use wirepup.Base.{
  ℕ, Bool, not, ◌&&◌, ◌||◌, ltb, ◌==◌, if◌then◌else◌, length, Bytes, Go, ret, ◌>>=◌, Result, ok,
  err, index, slice, be16,
}
use wirepup.Net.{Addr, addr4_at, addr_eq, is_unspecified, is4, is_link_local_unicast}

abbrev pub packet_len : ℕ
packet_len = 28

abbrev pub op_request : ℕ
op_request = 1

abbrev pub op_reply : ℕ
op_reply = 2

pub data Error : Type 0 where
  truncated unsupported opcode : Error

pub data Role : Type 0 where
  request reply probe announcement : Role

pub record Packet : Type 0 where
  pub op : ℕ
  pub sender_mac : Bytes
  pub sender_ip : Addr
  pub target_mac : Bytes
  pub target_ip : Addr

unfoldable pub parse : Bytes → Go (Result Error Packet)
parse b = if ltb (length b) packet_len then ret (err truncated) else do
  hardware ← be16 b 0
  protocol ← be16 b 2
  hardware_len ← index b 4
  protocol_len ← index b 5
  if not (hardware == 1)
        || not (protocol == 0x0800)
        || not (hardware_len == 6)
        || not (protocol_len == 4)
      then ret (err unsupported)
      else do
        op ← be16 b 6
        sender_mac ← slice b 8 14
        sender_ip ← addr4_at b 14
        target_mac ← slice b 18 24
        target_ip ← addr4_at b 24
        if not (op == op_request) && not (op == op_reply)
            then ret (err opcode)
            else ret (
                ok (record {
                  op = op;
                  sender_mac = sender_mac;
                  sender_ip = sender_ip;
                  target_mac = target_mac;
                  target_ip = target_ip;
                }))

unfoldable pub classify : Packet → Role
classify p =
    if p.op == op_request && is_unspecified p.sender_ip
    then probe
    else if addr_eq p.sender_ip p.target_ip
    then announcement
    else if p.op == op_reply
    then reply
    else request

unfoldable pub is_link_local : Addr → Bool
is_link_local a = is4 a && is_link_local_unicast a
