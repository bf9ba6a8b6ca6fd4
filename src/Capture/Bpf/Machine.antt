-- ===== src/Capture/Bpf/Machine.antt =====
-- The machine that runs a classic BPF program, as the opcodes of internal/capture/bpf/bpf.go are
-- documented there and interpreted in its test: a jump skips instructions, so a run goes forward and ends.
use wirepup.Base.{
  ℕ, suc, zero, ◌+◌, ◌*◌, ◌%◌, Bool, not, List, [], ◌∷◌, leb, ◌==◌, if◌then◌else◌, length, Bytes,
  byte, be16_at, Go, ret, panic,
}
use Prim.Native.Nat.{bit_and}
use wirepup.Capture.Bpf.{
  Instruction, op_ld_half_abs, op_ld_byte_abs, op_ld_half_ind, op_ldx_msh_byte, op_jeq_k, op_jset_k,
  op_ret_k,
}

-- What one instruction does with the registers A and X.
pub data Effect : Type 0 where
  load : ℕ → Effect
  load_x : ℕ → Effect
  branch : Bool → Effect
  finish : ℕ → Effect
  overrun unknown : Effect

-- A load of `n` bytes from `i`: the machine rejects the frame where there are fewer.
abbrev pub within : ℕ → ℕ → Bytes → Effect → Effect
within i n frame e = if leb (i + n) (length frame) then e else overrun

unfoldable pub effect : ℕ → ℕ → ℕ → ℕ → Bytes → Effect
effect code k a x frame =
    if code == op_ld_half_abs
    then within k 2 frame (load (be16_at frame k))
    else if code == op_ld_byte_abs
    then within k 1 frame (load (byte frame k))
    else if code == op_ld_half_ind
    then within (x + k) 2 frame (load (be16_at frame (x + k)))
    else if code == op_ldx_msh_byte
    then within k 1 frame (load_x (4 * (byte frame k % 16)))
    else if code == op_jeq_k
    then branch (a == k)
    else if code == op_jset_k
    then branch (not (bit_and a k == 0))
    else if code == op_ret_k
    then finish k
    else unknown

abbrev pub resume : (ℕ → ℕ → ℕ → Go ℕ) → ℕ → ℕ → ℕ → ℕ → Effect → Go ℕ
resume run jt jf a x (load a') = run 0 a' x
resume run jt jf a x (load_x x') = run 0 a x'
resume run jt jf a x (branch b) = run (if b then jt else jf) a x
resume run jt jf a x (finish n) = ret n
resume run jt jf a x overrun = ret 0
resume run jt jf a x unknown = panic

-- A run that still skips some instructions. Past the end, or at an unknown opcode, there is no result.
unfoldable pub exec : Bytes → List Instruction → ℕ → ℕ → ℕ → Go ℕ
exec frame [] skip a x = panic
exec frame (i ∷ is) (suc skip) a x = exec frame is skip a x
exec frame (i ∷ is) zero a x = resume (exec frame is) i.jt i.jf a x (effect i.code i.k a x frame)

unfoldable pub run : List Instruction → Bytes → Go ℕ
run prog frame = exec frame prog 0 0 0
