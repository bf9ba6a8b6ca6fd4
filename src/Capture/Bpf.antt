-- ===== src/Capture/Bpf.antt =====
-- internal/capture/bpf/bpf.go: the assembler of classic BPF programs.
pub mod Machine
pub mod Link
pub mod Chain
pub mod Blocks
pub mod Filter
use wirepup.Base.{
  ℕ, suc, ◌+◌, ◌-◌, ◌&&◌, ◌||◌, List, [], ◌∷◌, ◌++◌, ltb, ◌==◌, if◌then◌else◌, length, Result, ok,
  err,
}

pub record Instruction : Type 0 where
  pub code : ℕ
  pub jt : ℕ
  pub jf : ℕ
  pub k : ℕ

abbrev pub op_ld_half_abs : ℕ
op_ld_half_abs = 0x28

abbrev pub op_ld_byte_abs : ℕ
op_ld_byte_abs = 0x30

abbrev pub op_ld_half_ind : ℕ
op_ld_half_ind = 0x48

abbrev pub op_ldx_msh_byte : ℕ
op_ldx_msh_byte = 0xb1

abbrev pub op_jeq_k : ℕ
op_jeq_k = 0x15

abbrev pub op_jset_k : ℕ
op_jset_k = 0x45

abbrev pub op_ret_k : ℕ
op_ret_k = 0x06

abbrev pub accept_length : ℕ
accept_length = 262144

pub record Rule : Type 0 where
  pub ether_type : ℕ
  pub ip_proto : ℕ
  pub port : ℕ

-- A symbolic jump target: -1, -2, or an index inside the block.
pub data Target : Type 0 where
  target_accept target_next : Target
  target_index : ℕ → Target

pub record Pending : Type 0 where
  pub code : ℕ
  pub jt : Target
  pub jf : Target
  pub k : ℕ

pub data Error : Type 0 where
  empty_rule transport_rule jump_range : Error

-- An instruction that does not jump; its targets are zero values.
abbrev pub plain : ℕ → ℕ → Pending
plain code k = record { code = code; jt = target_index 0; jf = target_index 0; k = k }

abbrev pub jump : ℕ → Target → Target → ℕ → Pending
jump code jt jf k = record { code = code; jt = jt; jf = jf; k = k }

-- The part of `ipv4Block` for the protocol, and for the port, behind `n` instructions.
abbrev pub proto_part : ℕ → Rule → ℕ → List Pending
proto_part off r n =
    if r.ip_proto == 0
    then []
    else plain op_ld_byte_abs off
      ∷ jump op_jeq_k (if r.port == 0 then target_accept else target_index (n + 2)) target_next
          r.ip_proto
      ∷ []

abbrev pub port4_part : Rule → ℕ → List Pending
port4_part r n =
    if r.port == 0
    then []
    else plain op_ld_half_abs 20
      ∷ jump op_jset_k target_next (target_index (n + 2)) 0x1fff
      ∷ plain op_ldx_msh_byte 14
      ∷ plain op_ld_half_ind 14
      ∷ jump op_jeq_k target_accept (target_index (n + 5)) r.port
      ∷ plain op_ld_half_ind 16
      ∷ jump op_jeq_k target_accept target_next r.port
      ∷ []

abbrev pub port6_part : Rule → ℕ → List Pending
port6_part r n =
    if r.port == 0
    then []
    else plain op_ld_half_abs 54
      ∷ jump op_jeq_k target_accept (target_index (n + 2)) r.port
      ∷ plain op_ld_half_abs 56
      ∷ jump op_jeq_k target_accept target_next r.port
      ∷ []

abbrev head_part : ℕ → List Pending
head_part ether = plain op_ld_half_abs 12 ∷ jump op_jeq_k (target_index 2) target_next ether ∷ []

unfoldable pub ipv4_block : Rule → List Pending
ipv4_block r = let b = head_part 0x0800 ++ proto_part 23 r 2 in b ++ port4_part r (length b)

unfoldable pub ipv6_block : Rule → List Pending
ipv6_block r = let b = head_part 0x86dd ++ proto_part 20 r 2 in b ++ port6_part r (length b)

unfoldable pub blocks_for : Rule → Result Error (List (List Pending))
blocks_for r =
    if r.ip_proto == 0 && r.port == 0
    then (if r.ether_type == 0
        then err empty_rule
        else ok (
            (plain op_ld_half_abs 12 ∷ jump op_jeq_k target_accept target_next r.ether_type ∷ [])
            ∷ []))
    else if r.ether_type == 0
    then ok (ipv4_block r ∷ ipv6_block r ∷ [])
    else if r.ether_type == 0x0800
    then ok (ipv4_block r ∷ [])
    else if r.ether_type == 0x86dd
    then ok (ipv6_block r ∷ [])
    else err transport_rule

unfoldable pub resolve : Target → ℕ → ℕ → ℕ → ℕ
resolve target_accept start accept next = accept
resolve target_next start accept next = next
resolve (target_index n) start accept next = start + n

unfoldable pub offset : ℕ → ℕ → Result Error ℕ
offset pos target =
    if ltb target (pos + 1) || ltb 255 (target - (pos + 1))
    then err jump_range
    else ok (target - (pos + 1))

-- A result handed on, or its error.
infixl 5 ◌and_then◌
abbrev pub ◌and_then◌ {ℓ κ} :
    {A : Type ℓ} {B : Type κ} → Result Error A → (A → Result Error B) → Result Error B
ok a and_then f = f a
err e and_then f = err e

-- The instruction at `pos`, in a block at `start`.
unfoldable pub link_one : ℕ → ℕ → ℕ → ℕ → Pending → Result Error Instruction
link_one start accept next pos p =
    if p.code == op_jeq_k || p.code == op_jset_k
    then (offset pos (resolve p.jt start accept next) and_then λ jt.
        offset pos (resolve p.jf start accept next) and_then λ jf.
        ok (record { code = p.code; jt = jt; jf = jf; k = p.k }))
    else ok (record { code = p.code; jt = 0; jf = 0; k = p.k })

unfoldable pub link_block : ℕ → ℕ → ℕ → ℕ → List Pending → Result Error (List Instruction)
link_block start accept next pos [] = ok []
link_block start accept next pos (p ∷ ps) = link_one start accept next pos p and_then λ i.
    link_block start accept next (suc pos) ps and_then λ is. ok (i ∷ is)

-- The address that a block jumps to when it does not match.
unfoldable pub next_of : ℕ → ℕ → List (List Pending) → ℕ
next_of stop drop [] = drop
next_of stop drop (b ∷ bs) = stop

unfoldable pub link_from : ℕ → ℕ → List (List Pending) → Result Error (List Instruction)
link_from start accept [] = ok []
link_from start accept (b ∷ bs) =
    link_block start accept (next_of (start + length b) (accept + 1) bs) start b and_then λ code.
    link_from (start + length b) accept bs and_then λ rest. ok (code ++ rest)

unfoldable pub total : List (List Pending) → ℕ
total [] = 0
total (b ∷ bs) = length b + total bs

abbrev pub ret_k : ℕ → Instruction
ret_k n = record { code = op_ret_k; jt = 0; jf = 0; k = n }

unfoldable pub link : List (List Pending) → Result Error (List Instruction)
link bs =
    link_from 0 (total bs) bs and_then λ code. ok (code ++ (ret_k accept_length ∷ ret_k 0 ∷ []))

unfoldable pub all_blocks : List Rule → Result Error (List (List Pending))
all_blocks [] = ok []
all_blocks (r ∷ rs) = blocks_for r and_then λ b. all_blocks rs and_then λ bs. ok (b ++ bs)

unfoldable pub accept_all : List Instruction
accept_all = ret_k accept_length ∷ []

unfoldable pub assemble : List Rule → Result Error (List Instruction)
assemble [] = ok accept_all
assemble (r ∷ rs) = all_blocks (r ∷ rs) and_then link
