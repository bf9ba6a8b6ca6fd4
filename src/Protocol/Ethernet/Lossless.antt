-- ===== src/Protocol/Ethernet/Lossless.antt =====
-- ethernet.Parse on every buffer, and the frame written back.
use wirepup.Base.{
  ℕ, ◌+◌, ◌*◌, ◌/◌, ◌%◌, ◌≤◌, ◌<◌, Bool, true, false, ◌||◌, Option, none, some, ◌++◌, ◌≡◌, ◌⊎◌, inl,
  inr, sym, ap, ◌∙◌, arith, ◌==◌, if◌then◌else◌, has_bit, length, take, drop, Bytes, IsByte,
  be16_at, All, Ensures, byte-IsByte, put16, put16-be16_at, drop-drop, ret, Result, ok, err, slice,
  from, be16, Bool-cases, take-append-drop,
}
use wirepup.Protocol.Ethernet.{Error, truncated, VlanTag, Frame, parse}

abbrev pub is_tagged : Bytes → Bool
is_tagged b = be16_at b 12 == 0x8100 || be16_at b 12 == 0x88a8

-- The frame that the header describes.
abbrev frame_of : Bytes → Frame
frame_of b = record {
  destination = take 6 b;
  source = take 6 (drop 6 b);
  ether_type = if is_tagged b then be16_at b 16 else be16_at b 12;
  vlan =
      if is_tagged b
      then some (record {
        tpid = be16_at b 12;
        id = be16_at b 14 % 4096;
        priority = be16_at b 14 / 8192;
        dei = has_bit (be16_at b 14) 12;
      })
      else none;
  payload = if is_tagged b then drop 18 b else drop 14 b;
}

abbrev pub FrameSpec : Bytes → Result Error Frame → Type 0
FrameSpec b (err truncated) = (length b < 14) ⊎ ((is_tagged b ≡ true) × (length b < 18))
FrameSpec b (ok f) = (14 ≤ length b) × ((is_tagged b ≡ false) ⊎ (18 ≤ length b)) × (f ≡ frame_of b)

-- On every buffer `Parse` returns: an error for one shorter than 14 bytes, or than 18 under a VLAN tag,
-- and else the frame whose fields the bytes hold at their places.
pub parse-FrameSpec : (b : Bytes) → Ensures (FrameSpec b) (parse b)
unfolding parse be16 slice from
parse-FrameSpec b = ground arith

-- The wire form of a frame.
abbrev print_type : Option VlanTag → ℕ → Bytes
print_type none t = put16 t
print_type (some v) t =
    put16 v.tpid ++ (put16 (v.priority * 8192 + (if v.dei then 4096 else 0) + v.id) ++ put16 t)

abbrev pub print : Frame → Bytes
print f = f.destination ++ (f.source ++ (print_type f.vlan f.ether_type ++ f.payload))

tci_fields :
    (n : ℕ) → n < 65536 → n / 8192 * 8192 + (if has_bit n 12 then 4096 else 0) + n % 4096 ≡ n
tci_fields n h = ground arith

be16_at-lt : (b : Bytes) (i : ℕ) → All IsByte b → be16_at b i < 65536
be16_at-lt b i h = omega (arith, byte-IsByte b i h, byte-IsByte b (i + 1) h)

print_tagged :
    (b : Bytes)
    → All IsByte b
    → 18 ≤ length b
    → put16 (be16_at b 12) ++ (put16 (be16_at b 14) ++ (put16 (be16_at b 16) ++ drop 18 b))
      ≡ drop 12 b
print_tagged b h k =
    ap (λ t. put16 (be16_at b 12) ++ (put16 (be16_at b 14) ++ t)) (put16-be16_at b 16 h k)
    ∙ ap (λ t. put16 (be16_at b 12) ++ t) (put16-be16_at b 14 h (omega arith))
    ∙ put16-be16_at b 12 h (omega arith)

print_rest :
    (b : Bytes)
    → All IsByte b
    → 14 ≤ length b
    → (is_tagged b ≡ false) ⊎ (18 ≤ length b)
    → print_type (frame_of b).vlan (frame_of b).ether_type ++ (frame_of b).payload ≡ drop 12 b
print_rest b h k t = elim (Bool-cases (is_tagged b)) [
  | inl tagged ↦
      rw (tagged, tci_fields (be16_at b 14) (be16_at-lt b 14 h)) (print_tagged b h (ground arith))
  | inr plain ↦ rw plain (put16-be16_at b 12 h k)
]

print_addresses : (b : Bytes) → take 6 b ++ (take 6 (drop 6 b) ++ drop 12 b) ≡ b
print_addresses b =
    ap (λ t. take 6 b ++ (take 6 (drop 6 b) ++ t)) (sym (drop-drop 6 6 b))
    ∙ ap (λ t. take 6 b ++ t) (take-append-drop 6 (drop 6 b))
    ∙ take-append-drop 6 b

-- A frame that `Parse` accepts in a buffer of numbers below 256 holds all that the bytes said: written
-- back, it is the buffer.
pub print-parse : (b : Bytes) {f : Frame} → All IsByte b → parse b ≡ ret (ok f) → print f ≡ b
print-parse b {f} h e =
    let spec : Ensures (FrameSpec b) (ret (ok f)) = rw e at (parse-FrameSpec b) in
    rw spec.2 (
      ap (λ t. take 6 b ++ (take 6 (drop 6 b) ++ t)) (print_rest b h spec.0 spec.1)
      ∙ print_addresses b)
