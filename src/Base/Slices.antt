-- ===== src/Base/Slices.antt =====
-- Byte slices as lists of numbers, read the way Go reads them: out of range is a panic.
use Prim.Native.Nat.{ℕ, zero, suc, ◌+◌, ◌-◌, ◌*◌, ◌/◌, ◌%◌, ◌≤◌, ◌<◌}
use mathlib.Core.Path.{◌≡◌, refl, sym, ap, ◌∙◌}
use mathlib.Core.Bool.{◌&&◌}
use mathlib.Core.List.{List, [], ◌∷◌, ◌++◌}
use native.Mathlib.Omega.{arith}
use native.Mathlib.Nat.{zero-add, suc-add}
use wirepup.Base.Tests.{ltb, leb, if◌then◌else◌}
use wirepup.Base.Lists.{length, take, drop, get_or, All}
use wirepup.Base.Results.{Go, ret, panic}

abbrev pub Bytes : Type 0
Bytes = List ℕ

abbrev pub IsByte : ℕ → Type 0
IsByte b = b < 256

-- The byte at `i`; 0 past the end, where `index` panics.
abbrev pub byte : Bytes → ℕ → ℕ
byte b i = get_or b i 0

-- `b[i]`
unfoldable pub index : Bytes → ℕ → Go ℕ
index b i = if ltb i (length b) then ret (byte b i) else panic

-- `b[i:j]`, held to the length of `b` (Go would go on up to the capacity).
unfoldable pub slice : Bytes → ℕ → ℕ → Go Bytes
slice b i j = if leb i j && leb j (length b) then ret (take (j - i) (drop i b)) else panic

-- `b[i:]`
unfoldable pub from : Bytes → ℕ → Go Bytes
from b i = if leb i (length b) then ret (drop i b) else panic

-- The number that two bytes, or four, are in network order.
abbrev pub be16_at : Bytes → ℕ → ℕ
be16_at b i = byte b i * 256 + byte b (i + 1)

abbrev pub be32_at : Bytes → ℕ → ℕ
be32_at b i = byte b i * 16777216 + byte b (i + 1) * 65536 + byte b (i + 2) * 256 + byte b (i + 3)

-- `binary.BigEndian.Uint16(b[i:i+2])`
unfoldable pub be16 : Bytes → ℕ → Go ℕ
be16 b i = if leb (i + 2) (length b) then ret (be16_at b i) else panic

-- `binary.BigEndian.Uint32(b[i:i+4])`
unfoldable pub be32 : Bytes → ℕ → Go ℕ
be32 b i = if leb (i + 4) (length b) then ret (be32_at b i) else panic

pub index_lem : (b : Bytes) (i : ℕ) → i < length b → index b i ≡ ret (byte b i)
unfolding index
index_lem b i h = ground arith

pub slice_lem :
    (b : Bytes) (i j : ℕ) → i ≤ j → j ≤ length b → slice b i j ≡ ret (take (j - i) (drop i b))
unfolding slice
slice_lem b i j h k = ground arith

pub from_lem : (b : Bytes) (i : ℕ) → i ≤ length b → from b i ≡ ret (drop i b)
unfolding from
from_lem b i h = ground arith

pub be16_lem : (b : Bytes) (i : ℕ) → i + 2 ≤ length b → be16 b i ≡ ret (be16_at b i)
unfolding be16
be16_lem b i h = ground arith

pub be32_lem : (b : Bytes) (i : ℕ) → i + 4 ≤ length b → be32 b i ≡ ret (be32_at b i)
unfolding be32
be32_lem b i h = ground arith

pub byte-IsByte : (b : Bytes) (i : ℕ) → All IsByte b → IsByte (byte b i)
byte-IsByte [] i h = omega arith
byte-IsByte (x ∷ xs) zero h = h.0
byte-IsByte (x ∷ xs) (suc i) h = byte-IsByte xs i h.1

pub drop-byte : (b : Bytes) (i : ℕ) → i < length b → drop i b ≡ byte b i ∷ drop (suc i) b
drop-byte [] i h = absurd (omega arith)
drop-byte (x ∷ xs) zero h = refl
drop-byte (x ∷ xs) (suc i) h = drop-byte xs i (omega arith)

-- A number below 2^16 or 2^32 as the bytes of network order.
abbrev pub put16 : ℕ → Bytes
put16 n = n / 256 % 256 ∷ n % 256 ∷ []

abbrev pub put32 : ℕ → Bytes
put32 n = n / 16777216 % 256 ∷ n / 65536 % 256 ∷ n / 256 % 256 ∷ n % 256 ∷ []

pub put16-be16_at :
    (b : Bytes) (i : ℕ)
    → All IsByte b
    → i + 2 ≤ length b
    → put16 (be16_at b i) ++ drop (i + 2) b ≡ drop i b
put16-be16_at b i h k =
    let lo : byte b (i + 1) < 256 = byte-IsByte b (i + 1) h in
    let hi : byte b i < 256 = byte-IsByte b i h in
    let e : be16_at b i / 256 % 256 ≡ byte b i = omega arith in
    let f : be16_at b i % 256 ≡ byte b (i + 1) = omega arith in
    let g : suc (i + 1) ≡ i + 2 = omega arith in
    let s : suc i ≡ i + 1 = omega arith in
    rw (e, f)
      (sym (
        drop-byte b i (omega arith)
        ∙ ap (λ t. byte b i ∷ drop t b) s
        ∙ ap (λ t. byte b i ∷ t) (drop-byte b (i + 1) (omega arith))
        ∙ ap (λ t. byte b i ∷ byte b (i + 1) ∷ drop t b) g))

-- Reads behind a front part.
pub byte-append : (pre xs : Bytes) (i : ℕ) → byte (pre ++ xs) (length pre + i) ≡ byte xs i
byte-append [] xs i = rw zero-add
byte-append (x ∷ pre) xs i = rw suc-add (byte-append pre xs i)

pub drop-append_more : (pre xs : Bytes) (i : ℕ) → drop (length pre + i) (pre ++ xs) ≡ drop i xs
drop-append_more [] xs i = rw zero-add
drop-append_more (x ∷ pre) xs i = rw suc-add (drop-append_more pre xs i)

pub put16_lem : (n : ℕ) → n < 65536 → n / 256 % 256 * 256 + n % 256 ≡ n
put16_lem n h = omega arith

pub put32_lem :
    (n : ℕ)
    → n < 4294967296
    → n / 16777216 % 256 * 16777216 + n / 65536 % 256 * 65536 + n / 256 % 256 * 256 + n % 256 ≡ n
put32_lem n h = omega arith
