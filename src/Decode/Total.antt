-- ===== src/Decode/Total.antt =====
-- `Decode` of internal/decode/decode.go on every packet: it returns, and it counts.
use wirepup.Protocol.Ethernet
use wirepup.Protocol.Ethernet.Lossless.{is_tagged, FrameSpec, parse-FrameSpec}
use wirepup.Base.{
  ℕ, suc, ◌+◌, ◌≤◌, ◌<◌, Bool, true, false, not, ◌&&◌, ◌||◌, ltb, if◌then◌else◌, ap, List, [], ◌∷◌,
  ◌++◌, ◌==◌, length, Bytes, All, All-append, All-map, ◌≡◌, refl, sym, ◌∙◌, arith, Result, ok, err,
  Ensures, Ensures-bind, Ensures-map, Ensures-if,
}
use mathlib.Core.Path.{subst}
use wirepup.Decode.Epics.{Observation, Stats, Decoder, Found, new}
use wirepup.Decode.Learning.{Learned, Cites, Steady}
use wirepup.Decode.{Packet, frame_evidence, frame_seen, frame_observed, decode, decode_all}
use wirepup.Decode.Dispatch.{before-Steady, payload_observed-Steady}

-- A packet of another link type, and a buffer that is shorter than its Ethernet header.
abbrev pub is_foreign : Packet → Bool
is_foreign pkt = not (pkt.link_type == 1)

abbrev pub is_cut : Bytes → Bool
is_cut b = ltb (length b) 14 || (is_tagged b && ltb (length b) 18)

-- What a packet adds to each of the counters, by its link type and its bytes alone.
abbrev pub skips : Packet → ℕ
skips pkt = if is_foreign pkt then 1 else 0

abbrev pub spoils : Packet → ℕ
spoils pkt = if is_foreign pkt then 0 else if is_cut pkt.bytes then 1 else 0

abbrev pub decodes : Packet → ℕ
decodes pkt = if is_foreign pkt then 0 else if is_cut pkt.bytes then 0 else 1

abbrev pub Counted : Packet → Stats → Stats → Type 0
Counted pkt s s' =
    (s'.packets ≡ suc s.packets)
    × (s'.skipped ≡ skips pkt + s.skipped)
    × (s'.malformed ≡ spoils pkt + s.malformed)
    × (s'.decoded ≡ decodes pkt + s.decoded)

abbrev pub DecodeSpec : Packet → Decoder → Found → Type 0
DecodeSpec pkt d x =
    All (Cites (suc d.next)) x.0
    × (x.1.next ≡ suc d.next)
    × Counted pkt d.stats x.1.stats
    × (Learned d → Learned x.1)

-- The sum over the packets.
abbrev pub total : (Packet → ℕ) → List Packet → ℕ
total f [] = 0
total f (pkt ∷ pkts) = f pkt + total f pkts

-- Every packet falls under one of the three.
one_of_three :
    (pkts : List Packet) → total skips pkts + total spoils pkts + total decodes pkts ≡ length pkts
one_of_three [] = refl
one_of_three (pkt ∷ pkts) =
    let ih = one_of_three pkts in
    let one : skips pkt + spoils pkt + decodes pkt ≡ 1 = ground arith in omega arith

-- The number of the packet that an observation cites lies behind `low` and is at most `high`.
abbrev pub CitesWithin : ℕ → ℕ → Observation → Type 0
CitesWithin low high o = (low < o.evidence.packet_id) × (o.evidence.packet_id ≤ high)

abbrev pub RunSpec : List Packet → Found → Type 0
RunSpec pkts x =
    All (CitesWithin 0 (length pkts)) x.0
    × (x.1.next ≡ length pkts)
    × (x.1.stats.packets ≡ length pkts)
    × (x.1.stats.skipped ≡ total skips pkts)
    × (x.1.stats.malformed ≡ total spoils pkts)
    × (x.1.stats.decoded ≡ total decodes pkts)
    × (x.1.stats.skipped + x.1.stats.malformed + x.1.stats.decoded ≡ length pkts)
    × Learned x.1

-- The packets read before a point, and the counters of the decoder there.
abbrev CountedAll : List Packet → Stats → Stats → Type 0
CountedAll pkts s s' =
    (s'.packets ≡ s.packets + length pkts)
    × (s'.skipped ≡ s.skipped + total skips pkts)
    × (s'.malformed ≡ s.malformed + total spoils pkts)
    × (s'.decoded ≡ s.decoded + total decodes pkts)

abbrev Continued : ℕ → List Packet → Decoder → Found → Type 0
Continued n pkts d x =
    All (CitesWithin 0 n) x.0 × (x.1.next ≡ n) × CountedAll pkts d.stats x.1.stats × Learned x.1

cut-lem : (b : Bytes) → FrameSpec b (err Ethernet.truncated) → is_cut b ≡ true
cut-lem b s = ground arith

whole-lem : (b : Bytes) (f : Ethernet.Frame) → FrameSpec b (ok f) → is_cut b ≡ false
whole-lem b f s = ground arith

same_counts :
    (s s' : Stats)
    → s' ≡ record s { packets = suc s.packets }
    → (s'.skipped ≡ s.skipped) × (s'.malformed ≡ s.malformed) × (s'.decoded ≡ s.decoded)
same_counts s s' e = (ap (λ s. s.skipped) e, ap (λ s. s.malformed) e, ap (λ s. s.decoded) e)

module _ (is_text : Bytes → Bool) where
  frame_observed-DecodeSpec :
      (pkt : Packet) (d e : Decoder) (r : Result Ethernet.Error Ethernet.Frame)
      → e.next ≡ suc d.next
      → (Learned d → Learned e)
      → e.stats ≡ record (d.stats) { packets = suc d.stats.packets }
      → is_foreign pkt ≡ false
      → FrameSpec pkt.bytes r
      → Ensures (DecodeSpec pkt d) (frame_observed is_text pkt e r)
  unfolding frame_observed
  frame_observed-DecodeSpec pkt d e (err Ethernet.truncated) n l c k s =
      let (sk, ma, de) = same_counts d.stats e.stats c in
      let cut = cut-lem pkt.bytes s in
      (
        tt,
        n,
        (ap (λ s. s.packets) c, ground (arith, sk), ground (arith, ma), ground (arith, de)),
        l,
      )
  frame_observed-DecodeSpec pkt d e (ok frame) n l c k s =
      let e' : Decoder = record e { stats = record (e.stats) { decoded = suc e.stats.decoded } } in
      let whole = whole-lem pkt.bytes frame s in
      let (sk, ma, de) = same_counts d.stats e.stats c in
      let counted : Counted pkt d.stats e'.stats =
        (ap (λ s. s.packets) c, ground (arith, sk), ground (arith, ma), ground (arith, de)) in
      let cited : All (Cites (suc d.next)) (frame_seen pkt e frame) = (n, tt) in
      Ensures-map (Steady (suc d.next) e') (DecodeSpec pkt d) _
        (λ x s. (s.0, s.1 ∙ n, subst (Counted pkt d.stats) (sym s.2) counted, λ k. s.3 (l k)))
        (before-Steady (suc d.next) (frame_seen pkt e frame) e' _ cited
          (payload_observed-Steady (suc d.next) is_text (frame_evidence pkt e) e' frame n))

  -- `Decode` returns on every packet, whatever its link type and its bytes. It numbers the packet one more than the
  -- one before, and each of its observations cites this number. It adds one to the count of packets and one to exactly
  -- one of the other three, which the link type and the bytes decide: skipped for another link type than Ethernet,
  -- malformed for a buffer shorter than its Ethernet header, and else decoded. It never learns the port 0, if none is
  -- learned before.
  pub decode-DecodeSpec :
      (pkt : Packet) (d : Decoder) → Ensures (DecodeSpec pkt d) (decode is_text pkt d)
  unfolding decode
  decode-DecodeSpec pkt d =
      Ensures-if (DecodeSpec pkt d) (is_foreign pkt) _ _
        (λ e. (tt, refl, (refl, ground arith, ground arith, ground arith), λ l. l))
        (λ e.
          Ensures-bind (FrameSpec pkt.bytes) (DecodeSpec pkt d) (Ethernet.parse pkt.bytes) _
            (parse-FrameSpec pkt.bytes)
            (λ r s. frame_observed-DecodeSpec pkt d _ r refl (λ l. l) refl e s))

  decode_all-Continued :
      (pkts : List Packet) (obs : List Observation) (d : Decoder) (n : ℕ)
      → d.next + length pkts ≡ n
      → All (CitesWithin 0 n) obs
      → Learned d
      → Ensures (Continued n pkts d) (decode_all is_text pkts obs d)
  unfolding decode_all
  decode_all-Continued [] obs d n e h l =
      (h, omega arith, (omega arith, omega arith, omega arith, omega arith), l)
  decode_all-Continued (pkt ∷ pkts) obs d n e h l =
      Ensures-bind (DecodeSpec pkt d) (Continued n (pkt ∷ pkts) d) (decode is_text pkt d) _
        (decode-DecodeSpec pkt d)
        (λ x s.
          let within : (o : Observation) → Cites (suc d.next) o → CitesWithin 0 n o =
            λ o k. (omega arith, omega arith) in
          let (p, q, r, t) = s.2 in
          Ensures-map (Continued n pkts x.1) (Continued n (pkt ∷ pkts) d) _
            (λ y w.
              let (p', q', r', t') = w.2 in
              (w.0, w.1, (omega arith, omega arith, omega arith, omega arith), w.3))
            (decode_all-Continued pkts (obs ++ x.0) x.1 n (omega (arith, s.1))
              (All-append (CitesWithin 0 n) obs x.0 h
                (All-map (Cites (suc d.next)) (CitesWithin 0 n) within x.0 s.0))
              (s.3 l)))

  -- From a new decoder on, the packets of a source are all decoded, whatever they are, without a panic. At the end
  -- the number of the last packet and the count of packets are how many there were. The skipped ones are as many as
  -- are of another link type than Ethernet, the malformed ones as many as have Ethernet and a buffer shorter than its
  -- header, the decoded ones all the others, and these three make up all packets. Every observation cites one of the
  -- packets by its number, from 1 on, and no learned port is 0.
  pub decode_all-new :
      (source : Bytes) (pkts : List Packet)
      → Ensures (RunSpec pkts) (decode_all is_text pkts [] (new source))
  unfolding new
  decode_all-new source pkts =
      Ensures-map (Continued (length pkts) pkts (new source)) (RunSpec pkts) _
        (λ x (h, n, (p, q, r, t), l). (
          h,
          n,
          omega (arith, p),
          omega (arith, q),
          omega (arith, r),
          omega (arith, t),
          omega (arith, p, q, r, t, one_of_three pkts),
          l,
        ))
        (decode_all-Continued pkts [] (new source) (length pkts) (omega arith) tt (tt, tt))
