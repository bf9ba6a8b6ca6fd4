-- ===== src/Active.antt =====
-- internal/active/active.go: the frames that the active commands send, the addresses that they may
-- probe, and what a heard ARP packet says against a claim. Rates, sockets and texts are outside.
pub mod Frames
pub mod Range
use wirepup.Base.{
  ℕ, suc, zero, ◌+◌, ◌-◌, ◌*◌, ◌/◌, ◌%◌, ◌^◌, Bool, false, not, Option, none, some, List, [], ◌∷◌,
  ◌++◌, ltb, ◌==◌, if◌then◌else◌, length, take, replicate, Bytes, put16, put32, Go, ret, panic,
  ◌>>=◌, Result, ok, err, be16, from,
}
use wirepup.Net.{Addr, addr_eq, bytes_eq}
use wirepup.Protocol.Arp
use wirepup.Protocol.Arp.{Role, op_reply, op_request}

abbrev pub frame_len : ℕ
frame_len = 42

abbrev pub min_prefix_bits : ℕ
min_prefix_bits = 24

pub data Error : Type 0 where
  ipv4_required prefix_too_large : Error

-- A reply, without the time at which the receiver stamps it.
pub record Reply : Type 0 where
  pub mac : Bytes
  pub ip : Addr
  pub kind : Role
  pub target_ip : Addr

-- `copy` into a field of `n` zero bytes.
abbrev pub copied : ℕ → Bytes → Bytes
copied n b = take n (b ++ replicate n 0)

-- `As4`; it panics on the zero address and on an IPv6 address that maps no IPv4 address.
unfoldable pub as4 : Addr → Go ℕ
as4 Addr.invalid = panic
as4 (Addr.v4 a) = ret a
as4 (Addr.v6 a) = if a / 2 ^ 32 == 0xffff then ret (a % 2 ^ 32) else panic

abbrev pub broadcast : Bytes
broadcast = 0xff ∷ 0xff ∷ 0xff ∷ 0xff ∷ 0xff ∷ 0xff ∷ []

-- `dst`: a reply goes to its target, all else to everyone.
unfoldable pub destination : ℕ → Option Bytes → Bytes
destination op none = broadcast
destination op (some mac) = if op == op_reply then mac else broadcast

unfoldable pub target_field : Option Bytes → Bytes
target_field none = replicate 6 0
target_field (some mac) = copied 6 mac

unfoldable pub arp_frame : Bytes → ℕ → Addr → Option Bytes → Addr → Go Bytes
arp_frame src_mac op sender_ip target_mac target_ip = do
  s ← as4 sender_ip
  t ← as4 target_ip
  ret (
      copied 6 (destination op target_mac)
      ++ (copied 6 src_mac
          ++ (put16 0x0806
              ++ (put16 1
                  ++ (put16 0x0800
                      ++ (6
                          ∷ 4
                          ∷ (put16 op
                              ++ (copied 6 src_mac
                                  ++ (put32 s ++ (target_field target_mac ++ put32 t))))))))))

unfoldable pub probe_frame : Bytes → Addr → Go Bytes
probe_frame src_mac target = arp_frame src_mac op_request (Addr.v4 0) none target

-- The addresses `base + i`, for `k` values of `i` from `i` on.
unfoldable pub span : ℕ → ℕ → ℕ → List Addr
span base i zero = []
span base i (suc k) = Addr.v4 ((base + i) % 2 ^ 32) ∷ span base (suc i) k

unfoldable pub hosts_of : ℕ → ℕ → List Addr
hosts_of base bits =
    if bits == 32
    then Addr.v4 base ∷ []
    else if bits == 31
    then Addr.v4 base ∷ Addr.v4 ((base + 1) % 2 ^ 32) ∷ []
    else span base 1 (2 ^ (32 - bits) - 2)

-- `Hosts`, for a prefix of 32 bits at most.
unfoldable pub hosts : Addr → ℕ → Result Error (List Addr)
hosts Addr.invalid bits = err ipv4_required
hosts (Addr.v6 a) bits = err ipv4_required
hosts (Addr.v4 a) bits =
    if ltb bits min_prefix_bits
    then err prefix_too_large
    else ok (hosts_of (a / 2 ^ (32 - bits) * 2 ^ (32 - bits)) bits)

reply_of : Arp.Packet → Reply
reply_of p = record {
  mac = p.sender_mac;
  ip = p.sender_ip;
  kind = Arp.classify p;
  target_ip = p.target_ip;
}

parsed_reply : Result Arp.Error Arp.Packet → Option Reply
parsed_reply (ok p) = some (reply_of p)
parsed_reply (err e) = none

unfoldable pub parse_arp : Bytes → Go (Option Reply)
unfolding parsed_reply reply_of
parse_arp b = if ltb (length b) frame_len then ret none else do
  ether_type ← be16 b 12
  if not (ether_type == 0x0806)
      then ret none
      else do payload ← from b 14; r ← Arp.parse payload; ret (parsed_reply r)

unfoldable pub conflicts_kind : Role → Reply → Addr → Bool
conflicts_kind Role.request r target = addr_eq r.ip target
conflicts_kind Role.reply r target = addr_eq r.ip target
conflicts_kind Role.announcement r target = addr_eq r.ip target
conflicts_kind Role.probe r target = addr_eq r.target_ip target

unfoldable pub conflicts : Reply → Addr → Bytes → Bool
conflicts r target self = if bytes_eq r.mac self then false else conflicts_kind r.kind r target
