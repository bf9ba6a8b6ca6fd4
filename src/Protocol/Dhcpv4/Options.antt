-- ===== src/Protocol/Dhcpv4/Options.antt =====
-- The options of a message, written and read back.
use wirepup.Base.{
  ℕ, zero, suc, ◌+◌, ◌-◌, ◌<◌, false, none, List, [], ◌∷◌, ◌++◌, ◌≡◌, ◌≢◌, sym, ap, ◌∙◌, arith,
  ◌==◌, length, take, drop, Bytes, byte, All, byte-append, drop-append_more, >>=_assoc, Go, ret,
  ◌>>=◌, index_lem, slice_lem, lt→ltb, le→ltb, length-append, take-append,
}
use mathlib.Core.List.{append_assoc}
use mathlib.Core.Path.{fun_ext}
use native.Mathlib.Nat.{add-zero}
use wirepup.Protocol.Dhcpv4.{Message, set_option, interpret, parse_options}

-- The wire form: a code, a length and a value for each option.
abbrev pub print : List (ℕ × Bytes) → Bytes
print [] = []
print ((code, v) ∷ os) = code ∷ length v ∷ (v ++ print os)

-- The options taken in order: each is stored under its code and interpreted.
unfoldable pub collect : List (ℕ × Bytes) → Message → Go Message
collect [] m = ret m
collect ((code, v) ∷ os) m = do
  m' ← interpret (record m { options_map = set_option code v m.options_map }) code v
  collect os m'

-- No option is the pad or the end mark.
abbrev pub IsOption : ℕ × Bytes → Type 0
IsOption o = (o.0 ≢ 0) × (o.0 ≢ 255)

parse_options_step :
    (fuel : ℕ) (m : Message) (pre v tail : Bytes) (code : ℕ)
    → code ≢ 0
    → code ≢ 255
    → parse_options (suc fuel) m (pre ++ (code ∷ length v ∷ (v ++ tail))) (length pre) ≡ (
        interpret (record m { options_map = set_option code v m.options_map }) code v >>= λ m'.
        parse_options fuel m'
          (pre ++ (code ∷ length v ∷ (v ++ tail)))
          (length pre + (2 + length v)))
unfolding parse_options
parse_options_step fuel m pre v tail code c0 c255 =
    let b : Bytes = pre ++ (code ∷ length v ∷ (v ++ tail)) in
    let at0 : byte b (length pre) ≡ code =
      ap (byte b) (sym (add-zero (length pre))) ∙ byte-append pre _ 0 in
    let at1 : byte b (length pre + 1) ≡ length v = byte-append pre _ 1 in
    let size : length b ≡ length pre + (2 + (length v + length tail)) =
      length-append pre _ ∙ omega (arith, length-append v tail) in
    let value : take (length pre + 2 + length v - (length pre + 2)) (drop (length pre + 2) b) ≡ v =
      rw (drop-append_more, cancel (length pre + 2) (length v)) (take-append v tail) in
    rw (
      lt→ltb (length pre) (length b) (omega arith),
      index_lem b (length pre) (omega arith),
      at0,
      ne→== code 0 c0,
      ne→== code 255 c255,
      le→ltb (length b) (length pre + 2) (omega arith),
      index_lem b (length pre + 1) (omega arith),
      at1,
      le→ltb (length b) (length pre + 2 + length v) (omega arith),
      slice_lem b (length pre + 2) (length pre + 2 + length v) (omega arith) (omega arith),
      value,
    )
  where
    cancel : (x y : ℕ) → x + y - x ≡ y
    cancel x y = omega arith

    ne→== : (x y : ℕ) → x ≢ y → (x == y) ≡ false
    ne→== x y h = ground arith

parse_options-end :
    (fuel : ℕ) (m : Message) (pre rest : Bytes)
    → parse_options (suc fuel) m (pre ++ (255 ∷ rest)) (length pre) ≡ ret (m, none)
unfolding parse_options
parse_options-end fuel m pre rest =
    let b : Bytes = pre ++ (255 ∷ rest) in
    let at0 : byte b (length pre) ≡ 255 =
      ap (byte b) (sym (add-zero (length pre))) ∙ byte-append pre _ 0 in
    let size : length b ≡ length pre + suc (length rest) = length-append pre _ in
    rw (lt→ltb (length pre) (length b) (omega arith), index_lem b (length pre) (omega arith), at0)

parse_options-print_from :
    (os : List (ℕ × Bytes)) (fuel : ℕ) (m : Message) (pre rest : Bytes)
    → All IsOption os
    → length (print os) < fuel
    → parse_options fuel m (pre ++ (print os ++ (255 ∷ rest))) (length pre)
      ≡ (collect os m >>= λ m'. ret (m', none))
parse_options-print_from os zero m pre rest h f = absurd (omega arith)
parse_options-print_from [] (suc fuel) m pre rest h f =
    unfold collect in parse_options-end fuel m pre rest
parse_options-print_from ((code, v) ∷ os) (suc fuel) m pre rest (hc, hs) f =
    let tail : Bytes = print os ++ (255 ∷ rest) in
    let pre' : Bytes = pre ++ (code ∷ length v ∷ v) in
    let b : Bytes = pre ++ (code ∷ length v ∷ (v ++ tail)) in
    let m1 = record m { options_map = set_option code v m.options_map } in
    let whole : pre' ++ tail ≡ b = append_assoc pre (code ∷ length v ∷ v) tail in
    let size : length pre' ≡ length pre + (2 + length v) = length-append pre _ ∙ omega arith in
    let later : (m' : Message)
        → parse_options fuel m' b (length pre + (2 + length v))
          ≡ (collect os m' >>= λ q. ret (q, none)) =
      λ m'.
        rw (← whole, ← size)
          (parse_options-print_from os fuel m' pre' rest hs
            (omega (arith, length-append v (print os)))) in
    ap (λ t. parse_options (suc fuel) m (pre ++ (code ∷ length v ∷ t)) (length pre))
      (append_assoc v (print os) (255 ∷ rest))
    ∙ parse_options_step fuel m pre v tail code hc.0 hc.1
    ∙ ap (λ k. interpret m1 code v >>= k) (fun_ext later)
    ∙ unfold collect in sym (>>=_assoc (interpret m1 code v) (collect os) (λ q. ret (q, none)))

-- The loop of `Parse` interprets a printed list of options one after the other, stops at the end mark
-- and returns no error, whatever bytes stand behind the mark, where no option has the code of the pad
-- or of the mark.
pub parse_options-print :
    (os : List (ℕ × Bytes)) (m : Message) (rest : Bytes)
    → All IsOption os
    → parse_options (length (print os ++ (255 ∷ rest))) m (print os ++ (255 ∷ rest)) 0
      ≡ (collect os m >>= λ m'. ret (m', none))
parse_options-print os m rest h =
    parse_options-print_from os (length (print os ++ (255 ∷ rest))) m [] rest h
      (omega (arith, length-append (print os) (255 ∷ rest)))
