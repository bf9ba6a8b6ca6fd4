-- ===== src/Epics/Ca/Total.antt =====
-- ca.Parse on every buffer: it ends, and the messages tile what was read.
use wirepup.Base.{
  ℕ, zero, suc, ◌+◌, ◌-◌, ◌≤◌, ◌<◌, Bool, true, false, not, ◌&&◌, ◌||◌, Option, none, some, List,
  [], ◌∷◌, ◌++◌, ◌≡◌, ◌≢◌, ◌⊎◌, inl, inr, refl, arith, ltb, length, take, drop, Bytes, All, Ensures,
  Ensures-bind, Go, be16, be32, slice_lem, from_lem, Bool-cases, ltb→lt, ltb→le, le→ltb,
  length-take, length-drop, All-append,
}
use wirepup.Epics.Ca.{
  Error, Header, Message, is_udp_command, parse_header, parse_message, parse_loop, or_empty, parse,
}

abbrev HeaderSpec : Bytes → Header × Option Error → Type 0
HeaderSpec b (h, some e) = Unit
HeaderSpec b (h, none) = (h.command ≤ 27) × (16 ≤ h.header_len) × (h.header_len ≤ length b)

pub parse_header-HeaderSpec : (b : Bytes) → Ensures (HeaderSpec b) (parse_header b)
unfolding parse_header be16 be32
parse_header-HeaderSpec b = ground arith

-- A message that `Parse` may return.
pub record IsSound (udp : Bool) (m : Message) : Type 0 where
  pub known : m.command ≤ 27
  pub admitted : (udp ≡ false) ⊎ (is_udp_command m.command ≡ true)
  pub sized : length m.payload ≡ m.payload_size

-- The bytes that messages take.
abbrev pub span : List Message → ℕ
span [] = 0
span (m ∷ ms) = m.header_len + m.payload_size + span ms

span-append : (ms ns : List Message) → span (ms ++ ns) ≡ span ms + span ns
span-append [] ns = omega arith
span-append (m ∷ ms) ns = omega (arith, span-append ms ns)

abbrev LoopSpec : Bool → Bytes → List Message × Option Error → Type 0
LoopSpec udp b (ms, none) = (span ms ≡ length b) × All (IsSound udp) ms
LoopSpec udp b (ms, some e) = (span ms ≤ length b) × All (IsSound udp) ms

admitted_when :
    (udp : Bool) (c : ℕ)
    → (udp && not (is_udp_command c)) ≡ false
    → (udp ≡ false) ⊎ (is_udp_command c ≡ true)
admitted_when true c h = ground arith
admitted_when false c h = inl refl

module _ (udp : Bool) (b : Bytes)
    (next_round : List Message → ℕ → Go (List Message × Option Error)) where
  parse_message-LoopSpec :
      (out : List Message) (off : ℕ) (r : Header × Option Error)
      → off < length b
      → span out ≡ off
      → All (IsSound udp) out
      → HeaderSpec (drop off b) r
      → ((out' : List Message) (off' : ℕ)
          → off + 16 ≤ off'
          → off' ≤ length b
          → span out' ≡ off'
          → All (IsSound udp) out'
          → Ensures (LoopSpec udp b) (next_round out' off'))
      → Ensures (LoopSpec udp b) (parse_message next_round udp out b off r)
  unfolding parse_message
  parse_message-LoopSpec out off (h, some e) lt s a spec ih = (omega arith, a)
  parse_message-LoopSpec out off (h, none) lt s a spec ih =
      let start : ℕ = off + h.header_len in
      let stop : ℕ = start + h.payload_size in
      elim (Bool-cases (udp && not (is_udp_command h.command))) [
        | inl bad ↦ rw bad (omega arith, a)
        | inr good ↦ rw good (elim (Bool-cases (ltb (length b) stop || ltb stop start)) [
          | inl over ↦ rw over (omega arith, a)
          | inr fits ↦
              let room : stop ≤ length b = ground arith in
              let p : Bytes = take (stop - start) (drop start b) in
              let m : Message = record { header = h; payload = p } in
              let sized : length p ≡ h.payload_size =
                omega (arith, length-take (stop - start) (drop start b), length-drop start b) in
              rw (fits, slice_lem b start stop (omega arith) room)
                (ih (out ++ (m ∷ [])) stop (omega (arith, spec.1)) room
                  (omega (arith, span-append out (m ∷ [])))
                  (All-append (IsSound udp) out (m ∷ []) a (
                    record {
                      known = spec.0;
                      admitted = admitted_when udp h.command good;
                      sized = sized;
                    },
                    tt,
                  )))
        ])
      ]

parse_loop-LoopSpec :
    (fuel : ℕ) (udp : Bool) (out : List Message) (b : Bytes) (off : ℕ)
    → length b ≤ off + fuel
    → off ≤ length b
    → span out ≡ off
    → All (IsSound udp) out
    → Ensures (LoopSpec udp b) (parse_loop fuel udp out b off)
unfolding parse_loop
parse_loop-LoopSpec zero udp out b off h k s a =
    rw (le→ltb off (length b) (omega arith)) (omega arith, a)
parse_loop-LoopSpec (suc fuel) udp out b off h k s a = elim (Bool-cases (ltb off (length b))) [
  | inr done ↦ rw done (omega (arith, ltb→le off (length b) done), a)
  | inl more ↦
      rw (more, from_lem b off k)
        (Ensures-bind (HeaderSpec (drop off b)) (LoopSpec udp b) (parse_header (drop off b)) _
          (parse_header-HeaderSpec (drop off b))
          (λ r spec.
            parse_message-LoopSpec udp b _ out off r (ltb→lt _ _ more) s a spec
              (λ out' off' g k' s' a'.
                parse_loop-LoopSpec fuel udp out' b off' (omega arith) k' s' a')))
]

abbrev pub CaSpec : Bool → Bytes → List Message × Option Error → Type 0
CaSpec udp b (ms, none) = (ms ≢ []) × (span ms ≡ length b) × All (IsSound udp) ms
CaSpec udp b (ms, some e) = (span ms ≤ length b) × All (IsSound udp) ms

or_empty-CaSpec :
    (udp : Bool) (b : Bytes) (r : List Message × Option Error)
    → LoopSpec udp b r
    → CaSpec udp b (or_empty r)
unfolding or_empty
or_empty-CaSpec udp b ([], none) h = (omega arith, tt)
or_empty-CaSpec udp b ([], some e) h = h
or_empty-CaSpec udp b (m ∷ ms, none) h = ((λ e. cc), h.0, h.1)
or_empty-CaSpec udp b (m ∷ ms, some e) h = h

-- `Parse` returns on every buffer. Without an error there is a message at least and the messages
-- take the whole buffer; beside an error those before it take no more than it. Each has a known
-- command, of the datagram set if `udp` asks for that, and a payload of the size that its header says.
pub parse-CaSpec : (b : Bytes) (udp : Bool) → Ensures (CaSpec udp b) (parse b udp)
unfolding parse
parse-CaSpec b udp =
    Ensures-bind (LoopSpec udp b) (CaSpec udp b) (parse_loop (length b) udp [] b 0) _
      (parse_loop-LoopSpec (length b) udp [] b 0 (omega arith) (omega arith) refl tt)
      (λ r h. or_empty-CaSpec udp b r h)
