-- ===== src/Protocol/Dhcpv4/Overrun.antt =====
-- Whether the options of a DHCPv4 message run past its end.
use wirepup.Base.{
  ℕ, zero, suc, ◌+◌, ◌-◌, Bool, true, false, not, [], ◌∷◌, ◌≡◌, refl, ap, ◌∙◌, arith, ltb, ◌==◌,
  if◌then◌else◌, length, drop, Bytes, byte, length-drop, drop-drop,
}
use native.Mathlib.Nat.{zero-add, suc-add, add-zero}

-- The options that these bytes hold, one after the other: a pad is one byte, the end mark is the last
-- one, and any other has a length and that many bytes. A length or a value that is missing is an
-- overrun; bytes that end behind an option are none. Fuel for each byte is enough.
abbrev pub overruns : ℕ → Bytes → Bool
overruns zero s = false
overruns (suc fuel) s =
    if length s == 0
    then false
    else if byte s 0 == 0
    then overruns fuel (drop 1 s)
    else if byte s 0 == 255
    then false
    else if ltb (length s) 2
    then true
    else if ltb (length s) (2 + byte s 1)
    then true
    else overruns fuel (drop (2 + byte s 1) s)

-- The same with offsets.
abbrev pub walk : ℕ → Bytes → ℕ → Bool
walk zero b i = false
walk (suc fuel) b i =
    if ltb i (length b)
    then (if byte b i == 0
        then walk fuel b (i + 1)
        else if byte b i == 255
        then false
        else if ltb (length b) (i + 2)
        then true
        else if ltb (length b) (i + 2 + byte b (i + 1))
        then true
        else walk fuel b (i + (2 + byte b (i + 1))))
    else false

byte-drop : (i j : ℕ) (b : Bytes) → byte (drop i b) j ≡ byte b (i + j)
byte-drop zero j b = rw zero-add refl
byte-drop (suc i) j [] = refl
byte-drop (suc i) j (x ∷ b) = rw suc-add (byte-drop i j b)

empty_test : (n i : ℕ) → (n - i == 0) ≡ not (ltb i n)
empty_test n i = ground arith

room_test : (n i k : ℕ) → ltb (n - i) (2 + k) ≡ ltb n (i + 2 + k)
room_test n i k = ground arith

two_test : (n i : ℕ) → ltb (n - i) 2 ≡ ltb n (i + 2)
two_test n i = ground arith

swap_test : (b : Bool) (x : Bool) → (if b then x else false) ≡ (if not b then false else x)
swap_test true x = refl
swap_test false x = refl

pub walk-overruns : (fuel : ℕ) (b : Bytes) (i : ℕ) → walk fuel b i ≡ overruns fuel (drop i b)
walk-overruns zero b i = refl
walk-overruns (suc fuel) b i =
    let first : byte (drop i b) 0 ≡ byte b i = byte-drop i 0 b ∙ ap (byte b) (add-zero i) in
    rw
      (
        first,
        byte-drop i 1 b,
        length-drop i b,
        drop-drop i 1 b,
        drop-drop i (2 + byte b (i + 1)) b,
        empty_test,
        two_test,
        room_test (length b) i (byte b (i + 1)),
        walk-overruns fuel b (i + 1),
        walk-overruns fuel b (i + (2 + byte b (i + 1))),
      )
      (swap_test (ltb i (length b)) _)
