-- ===== src/Epics/Pva/Total.antt =====
-- pva.ParseHeader and pva.Parse on every buffer: they return, and the messages tile what was read.
use wirepup.Base.{
  ℕ, zero, suc, ◌+◌, ◌-◌, ◌/◌, ◌%◌, ◌≤◌, ◌<◌, Bool, true, false, ◌&&◌, ◌||◌, Option, none, some,
  List, [], ◌∷◌, ◌++◌, ◌≡◌, ◌≢◌, ◌⊎◌, inl, inr, refl, arith, ltb, ◌==◌, if◌then◌else◌, has_bit,
  length, take, drop, Bytes, byte, be32_at, All, Ensures, Ensures-bind, Ensures-if, Go, index, be32,
  slice_lem, from_lem, Bool-cases, ltb→lt, ltb→le, le→ltb, length-take, length-drop, All-append,
}
use wirepup.Epics.Pva.{
  Error, truncated, bad_magic, version, command, flags, payload, Header, Message, le32, le32_at,
  parse_header, parse_message, parse_loop, or_empty, parse,
}

-- What the first eight bytes say, for each verdict; the tests come in this order.
abbrev is_pva_version : Bytes → Bool
is_pva_version b = ltb 0 (byte b 1) && ltb (byte b 1) 3

abbrev has_free_flags : Bytes → Bool
has_free_flags b = byte b 2 / 2 % 8 == 0

abbrev is_known_command : Bytes → Bool
is_known_command b = has_bit (byte b 2) 0 || ltb (byte b 3) 23

abbrev pub PvaHeaderSpec : Bytes → Header × Option Error → Type 0
PvaHeaderSpec b (h, some truncated) = length b < 8
PvaHeaderSpec b (h, some bad_magic) = (8 ≤ length b) × ((byte b 0 == 0xca) ≡ false)
PvaHeaderSpec b (h, some version) = (8 ≤ length b) × (byte b 0 ≡ 0xca) × (is_pva_version b ≡ false)
PvaHeaderSpec b (h, some flags) =
    (8 ≤ length b) × (byte b 0 ≡ 0xca) × (is_pva_version b ≡ true) × (has_free_flags b ≡ false)
PvaHeaderSpec b (h, some command) =
    (8 ≤ length b)
    × (byte b 0 ≡ 0xca)
    × (is_pva_version b ≡ true)
    × (has_free_flags b ≡ true)
    × (is_known_command b ≡ false)
PvaHeaderSpec b (h, some payload) = ⊥
PvaHeaderSpec b (h, none) =
    (8 ≤ length b)
    × (byte b 0 ≡ 0xca)
    × (is_pva_version b ≡ true)
    × (has_free_flags b ≡ true)
    × (is_known_command b ≡ true)
    × (h.version ≡ byte b 1)
    × (h.flags ≡ byte b 2)
    × (h.big_endian ≡ has_bit (byte b 2) 7)
    × (h.control ≡ has_bit (byte b 2) 0)
    × (h.from_server ≡ has_bit (byte b 2) 6)
    × (h.command ≡ byte b 3)
    × (h.payload_size ≡ (if has_bit (byte b 2) 7 then be32_at b 4 else le32_at b 4))

-- `ParseHeader` returns on every buffer. It refuses one shorter than 8 bytes, one without the magic
-- byte, one whose version is not 1 or 2, one with a reserved flag, and one of an application message
-- with an unknown command, in this order; else the header has the version, the flags, the three
-- marks that flags hold (byte order, sender, control message), the command and the size of the bytes,
-- the size in the byte order that the flags name.
pub parse_header-PvaHeaderSpec : (b : Bytes) → Ensures (PvaHeaderSpec b) (parse_header b)
unfolding parse_header index be32 le32
parse_header-PvaHeaderSpec b = ground arith

-- A message that `Parse` may return: a control message without payload, or an application message
-- with a known command and a payload of the size that its header says.
abbrev pub IsSound : Message → Type 0
IsSound m =
    ((m.control ≡ true) × (m.payload ≡ []))
    ⊎ ((m.control ≡ false) × (m.command < 23) × (length m.payload ≡ m.payload_size))

-- The bytes that messages take.
abbrev pub span : List Message → ℕ
span [] = 0
span (m ∷ ms) = 8 + length m.payload + span ms

span-append : (ms ns : List Message) → span (ms ++ ns) ≡ span ms + span ns
span-append [] ns = omega arith
span-append (m ∷ ms) ns = omega (arith, span-append ms ns)

abbrev LoopSpec : Bytes → List Message × Option Error → Type 0
LoopSpec b (ms, none) = (span ms ≡ length b) × All IsSound ms
LoopSpec b (ms, some e) = (span ms ≤ length b) × All IsSound ms

module _ (b : Bytes) (next_round : List Message → ℕ → Go (List Message × Option Error)) where
  abbrev Continues : ℕ → Type 0
  Continues off =
      (out' : List Message) (off' : ℕ)
      → off + 8 ≤ off'
      → off' ≤ length b
      → span out' ≡ off'
      → All IsSound out'
      → Ensures (LoopSpec b) (next_round out' off')

  parse_message-LoopSpec :
      (out : List Message) (off : ℕ) (r : Header × Option Error)
      → off < length b
      → span out ≡ off
      → All IsSound out
      → PvaHeaderSpec (drop off b) r
      → Continues off
      → Ensures (LoopSpec b) (parse_message next_round out b off r)
  unfolding parse_message
  parse_message-LoopSpec out off (h, some e) lt s a spec ih = (omega arith, a)
  parse_message-LoopSpec out off (h, none) lt s a (l, _, _, _, known, _, _, _, control, _, cmd, _)
        ih =
      let start : ℕ = off + 8 in
      let stop : ℕ = start + h.payload_size in
      let here : start ≤ length b = omega (arith, length-drop off b) in
      Ensures-if (LoopSpec b) h.control _ _
        (λ c.
          let m : Message = record { header = h; payload = [] } in
          ih (out ++ (m ∷ [])) start (omega arith) here (omega (arith, span-append out (m ∷ [])))
            (All-append IsSound out (m ∷ []) a (inl (c, refl), tt)))
        (λ c.
          Ensures-if (LoopSpec b) (ltb (length b) stop || ltb stop start) _ _
            (λ over. (omega arith, a))
            (λ fits.
              let room : stop ≤ length b = ground arith in
              let p : Bytes = take (stop - start) (drop start b) in
              let m : Message = record { header = h; payload = p } in
              let sized : length p ≡ h.payload_size =
                omega (arith, length-take (stop - start) (drop start b), length-drop start b) in
              let small : h.command < 23 = ground (arith, known, control, cmd, c) in
              rw (slice_lem b start stop (omega arith) room) (
                ih (out ++ (m ∷ [])) stop (omega arith) room
                  (omega (arith, span-append out (m ∷ []), sized))
                  (All-append IsSound out (m ∷ []) a (inr (c, small, sized), tt)))))

parse_loop-LoopSpec :
    (fuel : ℕ) (out : List Message) (b : Bytes) (off : ℕ)
    → length b ≤ off + fuel
    → off ≤ length b
    → span out ≡ off
    → All IsSound out
    → Ensures (LoopSpec b) (parse_loop fuel out b off)
unfolding parse_loop
parse_loop-LoopSpec zero out b off h k s a =
    rw (le→ltb off (length b) (omega arith)) (omega arith, a)
parse_loop-LoopSpec (suc fuel) out b off h k s a = elim (Bool-cases (ltb off (length b))) [
  | inr done ↦ rw done (omega (arith, ltb→le off (length b) done), a)
  | inl more ↦
      rw (more, from_lem b off k)
        (Ensures-bind (PvaHeaderSpec (drop off b)) (LoopSpec b) (parse_header (drop off b)) _
          (parse_header-PvaHeaderSpec (drop off b))
          (λ r spec.
            parse_message-LoopSpec b _ out off r (ltb→lt _ _ more) s a spec (λ out' off' g k' s' a'.
              parse_loop-LoopSpec fuel out' b off' (omega arith) k' s' a')))
]

abbrev pub PvaSpec : Bytes → List Message × Option Error → Type 0
PvaSpec b (ms, none) = (ms ≢ []) × (span ms ≡ length b) × All IsSound ms
PvaSpec b (ms, some e) = (span ms ≤ length b) × All IsSound ms

or_empty-PvaSpec :
    (b : Bytes) (r : List Message × Option Error) → LoopSpec b r → PvaSpec b (or_empty r)
unfolding or_empty
or_empty-PvaSpec b ([], none) h = (omega arith, tt)
or_empty-PvaSpec b ([], some e) h = h
or_empty-PvaSpec b (m ∷ ms, none) h = ((λ e. cc), h.0, h.1)
or_empty-PvaSpec b (m ∷ ms, some e) h = h

-- `Parse` returns on every buffer. Without an error there is a message at least and the messages, each
-- with its header of 8 bytes, take the whole buffer; beside an error those before it take no more
-- than it. A control message has no payload; another has a known command and a payload of the size
-- that its header says.
pub parse-PvaSpec : (b : Bytes) → Ensures (PvaSpec b) (parse b)
unfolding parse
parse-PvaSpec b =
    Ensures-bind (LoopSpec b) (PvaSpec b) (parse_loop (length b) [] b 0) _
      (parse_loop-LoopSpec (length b) [] b 0 (omega arith) (omega arith) refl tt)
      (λ r h. or_empty-PvaSpec b r h)
