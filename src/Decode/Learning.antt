-- ===== src/Decode/Learning.antt =====
-- What decodeCA and decodePVA of internal/decode/decode.go do to the decoder: they learn only ports
-- in use, and leave the counters.
use wirepup.Epics.Ca
use wirepup.Epics.Pva
use wirepup.Epics.Ca.Total.{CaSpec, parse-CaSpec}
use wirepup.Epics.Pva.Total.{PvaSpec, parse-PvaSpec}
use wirepup.Epics.Pva.Bounded.{ObservationSpec, interpret-ObservationSpec}
use wirepup.Base.{
  ℕ, not, ◌&&◌, ◌||◌, Option, none, some, List, [], ◌∷◌, ◌++◌, ◌==◌, Bytes, All, All-append, ◌≡◌,
  ◌≢◌, refl, ◌∙◌, inl, inr, arith, Bool-cases, Ensures, Ensures-bind, Ensures-map, be16,
}
use wirepup.Net.{Addr}
use wirepup.Device.Types.{Confidence}
use wirepup.Decode.Epics.{
  Evidence, Fact, Observation, Decoder, Found, learn_ca, learn_pva, ca_messages, pva_messages,
  judge, judged_ca, judged_pva, is_udp_ca, is_udp_pva, decode_ca, decode_pva, is_answer,
}

abbrev pub Nonzero : ℕ → Type 0
Nonzero p = p ≢ 0

-- The learned ports are all in use: none of them is 0.
abbrev pub Learned : Decoder → Type 0
Learned d = All Nonzero d.ca_learned × All Nonzero d.pva_learned

abbrev pub Cites : ℕ → Observation → Type 0
Cites id o = o.evidence.packet_id ≡ id

-- The counters stay, the observations cite the packet, and no port 0 is learned.
abbrev pub Steady : ℕ → Decoder → Found → Type 0
Steady id d x =
    All (Cites id) x.0 × (x.1.next ≡ d.next) × (x.1.stats ≡ d.stats) × (Learned d → Learned x.1)

pub Steady-here :
    (id : ℕ) (d : Decoder) (obs : List Observation) → All (Cites id) obs → Steady id d (obs, d)
Steady-here id d obs h = (h, refl, refl, λ l. l)

learn_ca-Steady :
    (o : Ca.Observation) (d : Decoder) (id : ℕ) (obs : List Observation)
    → All (Cites id) obs
    → Steady id d (obs, learn_ca o d)
unfolding learn_ca
learn_ca-Steady o d id obs h =
    elim (Bool-cases (is_answer (Ca.kind_of o) && not (o.server_port == 0))) [
      | inl e ↦ rw e (h, refl, refl, λ l. (((λ z. ground arith), l.0), l.1))
      | inr e ↦ rw e (h, refl, refl, λ l. l)
    ]

learn_pva-Steady :
    (o : Pva.Observations.Observation) (d : Decoder) (id : ℕ) (obs : List Observation)
    → All (Cites id) obs
    → Steady id d (obs, learn_pva o d)
unfolding learn_pva
learn_pva-Steady o d id obs h =
    elim (Bool-cases
      ((o.command == 4 || o.command == 0) && not (o.server_port == 0) && not o.malformed)) [
        | inl e ↦ rw e (h, refl, refl, λ l. (l.0, ((λ z. ground arith), l.1)))
        | inr e ↦ rw e (h, refl, refl, λ l. l)
      ]

interpret_ca-returns :
    (m : Ca.Message) (transport : Ca.Transport) (src dst : Addr) (src_port dst_port port : ℕ)
    → Ensures (λ o. Unit) (Ca.interpret m transport src dst src_port dst_port port)
unfolding Ca.interpret be16
interpret_ca-returns m transport src dst src_port dst_port port = ground arith

-- What holds of the rest of the messages holds of all.
pub Steady-after :
    (id : ℕ) (d : Decoder) (x y : Found) → Steady id d x → Steady id x.1 y → Steady id d y
Steady-after id d x y (h, n, s, l) (h', n', s', l') = (h', n' ∙ n, s' ∙ s, λ k. l' (l k))

module _ (src dst : Addr) (src_port dst_port : ℕ) (id : ℕ) where
  ca_messages-Steady :
      (transport : Ca.Transport) (ev : Evidence) (ms : List Ca.Message) (obs : List Observation)
      (d : Decoder)
      → ev.packet_id ≡ id
      → All (Cites id) obs
      → Ensures (Steady id d) (ca_messages src dst src_port dst_port transport ev ms obs d)
  unfolding ca_messages
  ca_messages-Steady transport ev [] obs d e h = Steady-here id d obs h
  ca_messages-Steady transport ev (m ∷ ms) obs d e h =
      Ensures-bind (λ o. Unit) (Steady id d)
        (Ca.interpret m transport src dst src_port dst_port d.ports.ca_server) _
        (interpret_ca-returns m transport src dst src_port dst_port d.ports.ca_server)
        (λ o u.
          let more : List Observation =
            obs ++ (record { evidence = ev; fact = Fact.ca_message o } ∷ []) in
          let cited : All (Cites id) more = All-append (Cites id) obs _ h (e, tt) in
          Ensures-map _ (Steady id d) _
            (λ y k. Steady-after id d (more, learn_ca o d) y (learn_ca-Steady o d id more cited) k)
            (ca_messages-Steady transport ev ms more (learn_ca o d) e cited))

  pva_messages-Steady :
      (transport : Pva.Observations.Transport) (ev : Evidence) (ms : List Pva.Message)
      (obs : List Observation) (d : Decoder)
      → ev.packet_id ≡ id
      → All (Cites id) obs
      → Ensures (Steady id d) (pva_messages src dst src_port dst_port transport ev ms obs d)
  unfolding pva_messages
  pva_messages-Steady transport ev [] obs d e h = Steady-here id d obs h
  pva_messages-Steady transport ev (m ∷ ms) obs d e h =
      Ensures-bind (ObservationSpec m src) (Steady id d)
        (Pva.Observations.interpret m transport src dst src_port dst_port) _
        (interpret-ObservationSpec m transport src dst src_port dst_port)
        (λ o u.
          let more : List Observation = obs ++ (_ ∷ []) in
          let cited : All (Cites id) more = All-append (Cites id) obs _ h (e, tt) in
          Ensures-map _ (Steady id d) _
            (λ y k.
              Steady-after id d (more, learn_pva o d) y (learn_pva-Steady o d id more cited) k)
            (pva_messages-Steady transport ev ms more (learn_pva o d) e cited))

  judged_ca-Steady :
      (transport : Ca.Transport) (ev : Evidence) (ms : List Ca.Message) (c : Option Confidence)
      (d : Decoder)
      → ev.packet_id ≡ id
      → Ensures (Steady id d) (judged_ca src dst src_port dst_port transport ev ms c d)
  unfolding judged_ca
  judged_ca-Steady transport ev ms none d e = Steady-here id d [] tt
  judged_ca-Steady transport ev ms (some c) d e = ca_messages-Steady transport _ ms [] d e tt

  judged_pva-Steady :
      (transport : Pva.Observations.Transport) (ev : Evidence) (ms : List Pva.Message)
      (c : Option Confidence) (d : Decoder)
      → ev.packet_id ≡ id
      → Ensures (Steady id d) (judged_pva src dst src_port dst_port transport ev ms c d)
  unfolding judged_pva
  judged_pva-Steady transport ev ms none d e = Steady-here id d [] tt
  judged_pva-Steady transport ev ms (some c) d e = pva_messages-Steady transport _ ms [] d e tt

  pub decode_ca-Steady :
      (transport : Ca.Transport) (ev : Evidence) (payload : Bytes) (c : Confidence) (d : Decoder)
      → ev.packet_id ≡ id
      → Ensures (Steady id d) (decode_ca src dst src_port dst_port transport ev payload c d)
  unfolding decode_ca
  decode_ca-Steady transport ev payload c d e =
      Ensures-bind (CaSpec (is_udp_ca transport) payload) (Steady id d)
        (Ca.parse payload (is_udp_ca transport)) _ (parse-CaSpec payload (is_udp_ca transport))
        (λ x u. judged_ca-Steady transport ev x.0 (judge (is_udp_ca transport) c x.1) d e)

  pub decode_pva-Steady :
      (transport : Pva.Observations.Transport) (ev : Evidence) (payload : Bytes) (c : Confidence)
      (d : Decoder)
      → ev.packet_id ≡ id
      → Ensures (Steady id d) (decode_pva src dst src_port dst_port transport ev payload c d)
  unfolding decode_pva
  decode_pva-Steady transport ev payload c d e =
      Ensures-bind (PvaSpec payload) (Steady id d) (Pva.parse payload) _ (parse-PvaSpec payload)
        (λ x u. judged_pva-Steady transport ev x.0 (judge (is_udp_pva transport) c x.1) d e)
