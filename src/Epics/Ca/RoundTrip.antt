-- ===== src/Epics/Ca/RoundTrip.antt =====
-- Messages written with the 16-byte header, and read back by ca.Parse.
use wirepup.Base.{
  ℕ, zero, suc, ◌+◌, ◌-◌, ◌^◌, ◌≤◌, ◌<◌, Bool, false, not, ◌&&◌, none, List, [], ◌∷◌, ◌++◌, ◌≡◌, ap,
  ◌∙◌, arith, ◌==◌, length, drop, Bytes, All, put16_lem, put32_lem, drop-append_more, ret, be16,
  be32, slice_lem, from_lem, lt→ltb, le→ltb, length-append, take-append, drop-append,
}
use mathlib.Core.List.{append_assoc, append-nil}
use wirepup.Epics.Ca.{
  Message, is_udp_command, parse_header, parse_message, parse_loop, or_empty, parse, put_header,
}

-- The message fits the 16-byte header.
pub record IsWire (m : Message) : Type 0 where
  pub known : m.command ≤ 27
  pub size_fits : m.payload_size < 65536
  pub type_fits : m.data_type < 65536
  pub count_fits : m.count < 65536
  pub cid_fits : m.cid < 2 ^ 32
  pub available_fits : m.available < 2 ^ 32
  pub standard : m.header_len ≡ 16
  pub sized : length m.payload ≡ m.payload_size
  pub unextended : (m.payload_size == 0xffff && m.count == 0) ≡ false

abbrev pub print : Message → Bytes
print m = put_header m.command m.payload_size m.data_type m.count m.cid m.available ++ m.payload

abbrev pub print_all : List Message → Bytes
print_all [] = []
print_all (m ∷ ms) = print m ++ print_all ms

pub parse_header-print :
    (m : Message) (rest : Bytes) → IsWire m → parse_header (print m ++ rest) ≡ ret (m.header, none)
unfolding parse_header be16 be32
parse_header-print m rest w =
    rw
      (
        put16_lem m.command (omega (arith, w.known)),
        put16_lem m.payload_size w.size_fits,
        put16_lem m.data_type w.type_fits,
        put16_lem m.count w.count_fits,
        put32_lem m.cid w.cid_fits,
        put32_lem m.available w.available_fits,
      )
      (ground (arith, w.known, w.standard, w.unextended))

-- What `Parse` demands of the commands in a datagram.
abbrev IsAdmitted : Bool → Message → Type 0
IsAdmitted udp m = (udp && not (is_udp_command m.command)) ≡ false

abbrev pub IsPrintable : Bool → Message → Type 0
IsPrintable udp m = IsWire m × IsAdmitted udp m

length-print : (m : Message) → length (print m) ≡ 16 + length m.payload
length-print m = omega arith

-- One round over a printed message.
parse_loop-print :
    (fuel : ℕ) (udp : Bool) (out : List Message) (pre rest : Bytes) (m : Message)
    → IsPrintable udp m
    → parse_loop (suc fuel) udp out (pre ++ (print m ++ rest)) (length pre)
      ≡ parse_loop fuel udp (out ++ (m ∷ [])) (pre ++ (print m ++ rest)) (length (pre ++ print m))
unfolding parse_loop parse_message
parse_loop-print fuel udp out pre rest m (w, admitted) =
    let b : Bytes = pre ++ (print m ++ rest) in
    let size : length b ≡ length pre + (16 + length m.payload + length rest) =
      length-append pre (print m ++ rest) ∙ omega (arith, length-append (print m) rest) in
    let here : drop (length pre) b ≡ print m ++ rest = drop-append pre (print m ++ rest) in
    let start : ℕ = length pre + m.header_len in
    let stop : ℕ = start + m.payload_size in
    let at16 : length pre + 16 ≡ start = omega (arith, w.standard) in
    let behind : drop start b ≡ m.payload ++ rest =
      rw (← at16) (drop-append_more pre (print m ++ rest) 16) in
    let cut : stop - start ≡ length m.payload = omega (arith, w.sized) in
    let next : stop ≡ length (pre ++ print m) =
      omega (arith, length-append pre (print m), w.sized, w.standard) in
    rw (
      lt→ltb (length pre) (length b) (omega arith),
      from_lem b (length pre) (omega arith),
      here,
      parse_header-print m rest w,
      admitted,
      le→ltb (length b) stop (omega (arith, w.standard, w.sized)),
      le→ltb stop start (omega arith),
      slice_lem b start stop (omega arith) (omega (arith, w.standard, w.sized)),
      cut,
      behind,
      take-append m.payload rest,
      next,
    )

parse_loop-print_all :
    (ms : List Message) (fuel : ℕ) (udp : Bool) (out : List Message) (pre : Bytes)
    → All (IsPrintable udp) ms
    → length ms ≤ fuel
    → parse_loop fuel udp out (pre ++ print_all ms) (length pre) ≡ ret (out ++ ms, none)
parse_loop-print_all [] zero udp out pre h f =
    rw (append-nil pre, append-nil out)
      (unfold parse_loop in rw (le→ltb (length pre) (length pre) (omega arith)))
parse_loop-print_all [] (suc fuel) udp out pre h f =
    rw (append-nil pre, append-nil out)
      (unfold parse_loop in rw (le→ltb (length pre) (length pre) (omega arith)))
parse_loop-print_all (m ∷ ms) zero udp out pre h f = absurd (omega arith)
parse_loop-print_all (m ∷ ms) (suc fuel) udp out pre (hm, hs) f =
    parse_loop-print fuel udp out pre (print_all ms) m hm
    ∙ rw (← append_assoc pre (print m) (print_all ms))
        (parse_loop-print_all ms fuel udp (out ++ (m ∷ [])) (pre ++ print m) hs (omega arith))
    ∙ ap (λ t. ret (t, none)) (append_assoc out (m ∷ []) ms)

length-print_all : (ms : List Message) → length ms ≤ length (print_all ms)
length-print_all [] = omega arith
length-print_all (m ∷ ms) =
    omega (arith, length-append (print m) (print_all ms), length-print_all ms)

-- `Parse` reads back the messages of a buffer that holds one or more of them one after the other, where
-- each fits the 16-byte header, has a known command, and one of the datagram set if `udp` asks for that.
pub parse-print_all :
    (udp : Bool) (m : Message) (ms : List Message)
    → All (IsPrintable udp) (m ∷ ms)
    → parse (print_all (m ∷ ms)) udp ≡ ret (m ∷ ms, none)
unfolding parse or_empty
parse-print_all udp m ms h = rw (
    parse_loop-print_all (m ∷ ms) (length (print_all (m ∷ ms))) udp [] [] h
      (length-print_all (m ∷ ms)))
