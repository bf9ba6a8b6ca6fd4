-- ===== src/Epics/Pva/Heard.antt =====
-- A message that `frame` of internal/epics/pva/pva.go puts together, cut out by `Parse`.
use wirepup.Base.{
  ℕ, zero, suc, ◌+◌, ◌-◌, ◌%◌, ◌^◌, ◌≤◌, ◌<◌, Bool, true, false, Option, none, List, [], ◌∷◌, ◌≡◌,
  refl, ap, arith, if◌then◌else◌, length, Bytes, put32_lem, Go, ret, index, slice, be32, le→ltb,
  lt→ltb, take_all, from_lem, slice_lem,
}
use wirepup.Net.{Addr}
use wirepup.Epics.Pva.{Error, Message, parse_header, parse_message, parse_loop, or_empty, parse}
use wirepup.Epics.Pva.Reader.{Reader}
use wirepup.Epics.Pva.Writer.{framed}
use wirepup.Epics.Pva.Written.{At, Reads}
use wirepup.Epics.Pva.Observations.{Transport, Observation, observe, read_command, interpret}

-- The message that a datagram holds.
abbrev pub message : ℕ → Bool → Bytes → Message
message cmd from_server payload = record {
  header = record {
    version = 2;
    flags = if from_server then 0xc0 else 0x80;
    command = cmd;
    payload_size = length payload;
    big_endian = true;
    control = false;
    from_server = from_server;
  };
  payload = payload;
}

parse_header-framed :
    (cmd : ℕ) (from_server : Bool) (payload : Bytes)
    → cmd < 23
    → length payload < 4294967296
    → parse_header (framed cmd from_server payload)
      ≡ ret ((message cmd from_server payload).header, none)
unfolding parse_header framed index be32
parse_header-framed cmd true payload h k =
    rw (put32_lem (length payload % 2 ^ 32) (omega arith)) (ground (arith, h, k))
parse_header-framed cmd false payload h k =
    rw (put32_lem (length payload % 2 ^ 32) (omega arith)) (ground (arith, h, k))

parse_loop_end :
    (fuel : ℕ) (out : List Message) (b : Bytes) (off : ℕ)
    → length b ≤ off
    → parse_loop fuel out b off ≡ ret (out, none)
unfolding parse_loop
parse_loop_end zero out b off h = rw (le→ltb off (length b) h) refl
parse_loop_end (suc fuel) out b off h = rw (le→ltb off (length b) h) refl

length-framed :
    (cmd : ℕ) (from_server : Bool) (payload : Bytes)
    → length (framed cmd from_server payload) ≡ 8 + length payload
unfolding framed
length-framed cmd from_server payload = omega arith

module _ (cmd : ℕ) (from_server : Bool) (payload : Bytes) (known : cmd < 23)
    (small : length payload < 4294967296) where
  abbrev d : Bytes
  d = framed cmd from_server payload

  abbrev m : Message
  m = message cmd from_server payload

  payload_cut : slice d 8 (8 + length payload) ≡ ret payload
  unfolding framed
  payload_cut =
      let cut : 8 + length payload - 8 ≡ length payload = omega arith in
      rw
        (
          slice_lem d 8 (8 + length payload) (omega arith)
              (omega (arith, length-framed cmd from_server payload)),
          cut,
        )
        (ap ret (take_all (length payload) payload (omega arith)))

  parse_message-framed :
      (next_round : List Message → ℕ → Go (List Message × Option Error))
      → parse_message next_round [] d 0 (m.header, none) ≡ next_round (m ∷ []) (8 + length payload)
  unfolding parse_message
  parse_message-framed next_round =
      rw
        (
          le→ltb (length d) (8 + length payload)
              (omega (arith, length-framed cmd from_server payload)),
          le→ltb (8 + length payload) 8 (omega arith),
          payload_cut,
        )
        refl

  parse_loop-framed : (fuel : ℕ) → parse_loop (suc fuel) [] d 0 ≡ ret (m ∷ [], none)
  unfolding parse_loop
  parse_loop-framed fuel =
      rw
        (
          lt→ltb 0 (length d) (omega (arith, length-framed cmd from_server payload)),
          from_lem d 0 (omega arith),
          parse_header-framed cmd from_server payload known small,
          parse_message-framed (λ out' off'. parse_loop fuel out' d off'),
        )
        (parse_loop_end fuel (m ∷ []) d (8 + length payload)
          (omega (arith, length-framed cmd from_server payload)))

  parse-framed : parse d ≡ ret (m ∷ [], none)
  unfolding parse or_empty
  parse-framed =
      let e : length d ≡ suc (7 + length payload) =
        omega (arith, length-framed cmd from_server payload) in
      rw (e, parse_loop-framed (7 + length payload)) refl

module _ (transport : Transport) (src dst : Addr) (src_port dst_port : ℕ) where
  -- Parsed, the bytes are one message, and its observation is as `P` says.
  abbrev pub Hears : (Observation → Type 0) → Bytes → Type 0
  Hears P bytes =
      (m : Message) × (parse bytes ≡ ret (m ∷ [], none))
      × (o : Observation) × (interpret m transport src dst src_port dst_port ≡ ret o)
      × P o

  abbrev pub start : Bytes → Reader
  start payload = record { b = payload; off = 0; big = true; failed = false }

  abbrev pub blank : ℕ → Bool → Bytes → Observation
  blank cmd from_server payload =
      observe (message cmd from_server payload) transport src dst src_port dst_port

  pub Hears-framed :
      (P : Observation → Type 0) (cmd : ℕ) (from_server : Bool) (payload : Bytes) (o : Observation)
      → cmd < 23
      → length payload < 4294967296
      → Reads payload o [] (read_command src (blank cmd from_server payload) (start payload))
      → P (record o { malformed = false })
      → Hears P (framed cmd from_server payload)
  unfolding interpret
  Hears-framed P cmd from_server payload o known small (r, e, a) p = (
    message cmd from_server payload,
    parse-framed cmd from_server payload known small,
    record o { malformed = false },
    rw e (ap (λ f. ret (record o { malformed = f })) a.sound),
    p,
  )

  pub At-start : (payload : Bytes) → At payload payload (start payload)
  At-start payload = record {
    buffer = refl;
    ahead = refl;
    inside = omega arith;
    sound = refl;
    order = refl;
  }
