-- ===== src/Epics/Pva/Bounded.antt =====
-- `Interpret` of internal/epics/pva/pva.go on every message.
use wirepup.Base.{
  ℕ, zero, suc, ◌≤◌, true, false, not, ◌||◌, List, [], ◌≡◌, ◌≢◌, ◌⊎◌, refl, inl, inr, arith, ltb,
  ◌==◌, length, Bytes, All, All-append, Ensures, Ensures-bind, Ensures-if, Ensures-map, Bool-cases,
  ltb→le,
}
use wirepup.Net.{Addr, is_valid, is_unspecified}
use wirepup.Epics.Pva.{Message}
use wirepup.Epics.Pva.Reader.{Reader, skip, read_int32, read_str, rounds16}
use wirepup.Epics.Pva.Reads.{
  Within, Stays, Stays-bind, read_byte-Stays, skip-Within, read_bytes-Stays, read_uint16-Stays,
  read_int32-Stays, read_size-Stays, read_str-Stays, read_addr-Stays, read_status-Stays,
  read_list-Stays,
}
use wirepup.Epics.Pva.Observations.{
  Transport, Channel, Observation, observe, resolve, read_names, read_channel, read_search,
  read_search_response, read_beacon, read_validation, read_create_channel, read_validated,
  read_command, interpret,
}

abbrev pub IsShort : Channel → Type 0
IsShort c = length c.name ≤ 500

-- The source of the packet, or an address that the message names.
abbrev pub IsResolved : Addr → Addr → Type 0
IsResolved src a = (a ≡ src) ⊎ ((is_valid a ≡ true) × (is_unspecified a ≡ false))

resolve-IsResolved : (a src : Addr) → IsResolved src (resolve a src)
unfolding resolve
resolve-IsResolved a src = elim (Bool-cases (not (is_valid a) || is_unspecified a)) [
  | inl e ↦ rw e (inl refl)
  | inr e ↦ rw e (inr (ground (arith, e), ground (arith, e)))
]

-- What the reads change: neither the message nor the source of the packet.
abbrev Same : Observation → Observation → Type 0
Same o o' = (o'.message ≡ o.message) × (o'.src ≡ o.src)

module _ (b : Bytes) where
  read_names-Stays :
      (n : ℕ) (out : List Channel) (r : Reader)
      → All IsShort out
      → Within b r
      → Ensures (λ x. All IsShort x.0 × Within b x.1) (read_names n out r)
  unfolding read_names
  read_names-Stays zero out r a w = (a, w)
  read_names-Stays (suc n) out r a w =
      Ensures-if _ r.failed _ _ (λ e. (a, w))
        (λ e. Stays-bind b _ (read_int32 r) _ (read_int32-Stays b r w) (λ id r1 w1.
          Stays-bind b _ (read_str r1) _ (read_str-Stays b r1 w1) (λ name r2 w2.
            Ensures-if _ (ltb 500 (length name)) _ _ (λ f. (a, w2))
              (λ f.
                read_names-Stays n _ r2
                  (All-append IsShort out _ a (ltb→le 500 (length name) f, tt)) w2))))

  read_channel-Stays : (r : Reader) → Within b r → Stays b (read_channel r)
  unfolding read_channel
  read_channel-Stays r w =
      Stays-bind b _ (read_int32 r) _ (read_int32-Stays b r w)
        (λ id r1 w1. Stays-bind b _ (read_str r1) _ (read_str-Stays b r1 w1) (λ name r2 w2. w2))

  read_search-bounded :
      (o : Observation) (r : Reader)
      → Within b r
      → Ensures (λ x. Same o x.0 × All IsShort x.0.channels) (read_search o r)
  unfolding read_search
  read_search-bounded o r w = Stays-bind b _ _ _ (read_int32-Stays b r w) (λ seq r w.
      Stays-bind b _ _ _ (read_byte-Stays b r w) (λ flags r w.
        Stays-bind b _ _ _ (read_addr-Stays b (skip 3 r) (skip-Within b r w 3)) (λ addr r w.
          Stays-bind b _ _ _ (read_uint16-Stays b r w) (λ port r w.
            Stays-bind b _ _ _ (read_size-Stays b r w) (λ n r w.
              Stays-bind b _ _ _ (read_list-Stays b read_str (read_str-Stays b) n [] r w) (λ ps r w.
                Stays-bind b _ _ _ (read_uint16-Stays b r w) (λ count r w.
                  Ensures-bind (λ (x : List Channel × Reader). All IsShort x.0 × Within b x.1)
                    (λ (x : Observation × Reader). Same o x.0 × All IsShort x.0.channels)
                    (read_names count [] r) _ (read_names-Stays count [] r tt w)
                    (λ x h. ((refl, refl), h.0)))))))))

  read_search_response-bounded :
      (src : Addr) (o : Observation) (r : Reader)
      → Within b r
      → Ensures (λ x. Same o x.0 × IsResolved src x.0.server_addr) (read_search_response src o r)
  unfolding read_search_response
  read_search_response-bounded src o r w =
      Stays-bind b _ _ _ (read_bytes-Stays b r w 12) (λ guid r w.
        Stays-bind b _ _ _ (read_int32-Stays b r w) (λ seq r w.
          Stays-bind b _ _ _ (read_addr-Stays b r w) (λ addr r w.
            Stays-bind b _ _ _ (read_uint16-Stays b r w) (λ port r w.
              Stays-bind b _ _ _ (read_str-Stays b r w) (λ protocol r w.
                Stays-bind b _ _ _ (read_byte-Stays b r w) (λ found r w.
                  Stays-bind b _ _ _ (read_uint16-Stays b r w) (λ count r w.
                    Stays-bind b _ _ _
                      (read_list-Stays b read_int32 (read_int32-Stays b) count [] r w)
                      (λ ids r w. ((refl, refl), resolve-IsResolved addr src)))))))))

  read_beacon-bounded :
      (src : Addr) (o : Observation) (r : Reader)
      → Within b r
      → Ensures (λ x. Same o x.0 × IsResolved src x.0.server_addr) (read_beacon src o r)
  unfolding read_beacon
  read_beacon-bounded src o r w = Stays-bind b _ _ _ (read_bytes-Stays b r w 12) (λ guid r w.
      Stays-bind b _ _ _ (read_byte-Stays b r w) (λ qos r w.
        Stays-bind b _ _ _ (read_byte-Stays b r w) (λ seq r w.
          Stays-bind b _ _ _ (read_uint16-Stays b r w) (λ change r w.
            Stays-bind b _ _ _ (read_addr-Stays b r w) (λ addr r w.
              Stays-bind b _ _ _ (read_uint16-Stays b r w) (λ port r w.
                Stays-bind b _ _ _ (read_str-Stays b r w) (λ protocol r w.
                  Stays-bind b _ _ _ (read_byte-Stays b r w)
                    (λ status r w. ((refl, refl), resolve-IsResolved addr src)))))))))

  read_validation-bounded :
      (o : Observation) (r : Reader) → Within b r → Ensures (λ x. Same o x.0) (read_validation o r)
  unfolding read_validation
  read_validation-bounded o r w = Stays-bind b _ _ _ (read_int32-Stays b r w) (λ size r w.
      Stays-bind b _ _ _ (read_uint16-Stays b r w) (λ registry r w.
        Ensures-if _ o.from_server _ _
          (λ e. Stays-bind b _ _ _ (read_size-Stays b r w) (λ n r w.
            Stays-bind b _ _ _ (read_list-Stays b read_str (read_str-Stays b) n [] r w)
              (λ names r w. (refl, refl))))
          (λ e.
            Stays-bind b _ _ _ (read_uint16-Stays b r w)
              (λ qos r w. Stays-bind b _ _ _ (read_str-Stays b r w) (λ name r w. (refl, refl))))))

  read_create_channel-bounded :
      (o : Observation) (r : Reader)
      → Within b r
      → Ensures (λ x. Same o x.0) (read_create_channel o r)
  unfolding read_create_channel
  read_create_channel-bounded o r w =
      Ensures-if _ o.from_server _ _
        (λ e. Stays-bind b _ _ _ (read_int32-Stays b r w) (λ client r w.
          Stays-bind b _ _ _ (read_int32-Stays b r w) (λ server r w.
            Stays-bind b _ _ _ (read_status-Stays b r w) (λ status r w. (refl, refl)))))
        (λ e. Stays-bind b _ _ _ (read_uint16-Stays b r w) (λ count r w.
          Stays-bind b _ _ _
            (read_list-Stays b read_channel read_channel-Stays (rounds16 count) [] r w)
            (λ channels r w. (refl, refl))))

  read_validated-bounded :
      (o : Observation) (r : Reader) → Within b r → Ensures (λ x. Same o x.0) (read_validated o r)
  unfolding read_validated
  read_validated-bounded o r w =
      Stays-bind b _ _ _ (read_status-Stays b r w) (λ status r w. (refl, refl))

-- What is true of every observation, and of those of the three discovery messages.
abbrev pub Sound : ℕ → Observation → Observation → Type 0
Sound c o o' =
    Same o o'
    × (c ≡ 3 → All IsShort o'.channels)
    × (c ≡ 4 → IsResolved o.src o'.server_addr)
    × (c ≡ 0 → IsResolved o.src o'.server_addr)

module _ (o : Observation) where
  other-Sound : (c : ℕ) (o' : Observation) → c ≢ 3 → c ≢ 4 → c ≢ 0 → Same o o' → Sound c o o'
  other-Sound c o' h3 h4 h0 s =
      (s, (λ e. absurd (h3 e)), (λ e. absurd (h4 e)), (λ e. absurd (h0 e)))

  search-Sound :
      (c : ℕ) (o' : Observation) → c ≡ 3 → Same o o' × All IsShort o'.channels → Sound c o o'
  search-Sound c o' h (s, a) =
      (s, (λ e. a), (λ e. absurd (omega arith)), (λ e. absurd (omega arith)))

  answer-Sound :
      (c : ℕ) (o' : Observation)
      → c ≢ 3
      → Same o o' × IsResolved o.src o'.server_addr
      → Sound c o o'
  answer-Sound c o' h (s, a) = (s, (λ e. absurd (h e)), (λ e. a), (λ e. a))

  read_command-Sound :
      (b : Bytes) (r : Reader)
      → Within b r
      → Ensures (λ x. Sound o.command o x.0) (read_command o.src o r)
  unfolding read_command
  read_command-Sound b r w =
      Ensures-if _ (o.command == 3) _ _
        (λ e.
          let is3 : o.command ≡ 3 = ground arith in
          Ensures-map _ _ _ (λ (x : Observation × Reader) h. search-Sound o.command x.0 is3 h)
            (read_search-bounded b o r w))
        (λ e3.
          Ensures-if _ (o.command == 4) _ _
            (λ e.
              let not3 : o.command ≢ 3 = ground arith in
              Ensures-map _ _ _ (λ (x : Observation × Reader) h. answer-Sound o.command x.0 not3 h)
                (read_search_response-bounded b o.src o r w))
            (λ e4.
              Ensures-if _ (o.command == 0) _ _
                (λ e.
                  let not3 : o.command ≢ 3 = ground arith in
                  Ensures-map _ _ _
                    (λ (x : Observation × Reader) h. answer-Sound o.command x.0 not3 h)
                    (read_beacon-bounded b o.src o r w))
                (λ e0.
                  let rest : (o' : Observation) → Same o o' → Sound o.command o o' = λ o' s.
                    other-Sound o.command o' (λ k. ground arith) (λ k. ground arith)
                      (λ k. ground arith) s in
                  Ensures-if _ (o.command == 1) _ _
                    (λ e.
                      Ensures-map _ _ _ (λ (x : Observation × Reader) h. rest x.0 h)
                        (read_validation-bounded b o r w))
                    (λ e1.
                      Ensures-if _ (o.command == 7) _ _
                        (λ e.
                          Ensures-map _ _ _ (λ (x : Observation × Reader) h. rest x.0 h)
                            (read_create_channel-bounded b o r w))
                        (λ e7.
                          Ensures-if _ (o.command == 9) _ _
                            (λ e.
                              Ensures-map _ _ _ (λ (x : Observation × Reader) h. rest x.0 h)
                                (read_validated-bounded b o r w))
                            (λ e9. rest o (refl, refl)))))))

-- The observation of a message that came from `src`.
abbrev pub ObservationSpec : Message → Addr → Observation → Type 0
ObservationSpec m src o =
    (o.message ≡ m)
    × (o.src ≡ src)
    × (m.control ≡ true → o.malformed ≡ false)
    × (m.control ≡ false → m.command ≡ 3 → All IsShort o.channels)
    × (m.control ≡ false → m.command ≡ 4 → IsResolved src o.server_addr)
    × (m.control ≡ false → m.command ≡ 0 → IsResolved src o.server_addr)

-- `Interpret` returns on every message, whatever bytes its payload holds, and never reads past them. The
-- observation keeps the message and the source. A control message is never malformed. A search has
-- no name of more than 500 bytes; a search response and a beacon name as their server an address
-- that is not the unspecified one, or else the source of the packet.
pub interpret-ObservationSpec :
    (m : Message) (transport : Transport) (src dst : Addr) (src_port dst_port : ℕ)
    → Ensures (ObservationSpec m src) (interpret m transport src dst src_port dst_port)
unfolding interpret
interpret-ObservationSpec m transport src dst src_port dst_port =
    let o : Observation = observe m transport src dst src_port dst_port in
    let r : Reader = record { b = m.payload; off = 0; big = m.big_endian; failed = false } in
    Ensures-if (ObservationSpec m src) m.control _ _
      (λ e. (refl, refl, (λ k. refl), (λ k. absurd (cc)), (λ k. absurd (cc)), (λ k. absurd (cc))))
      (λ e.
        Ensures-bind (λ x. Sound m.command o x.0) (ObservationSpec m src) (read_command src o r) _
          (read_command-Sound o m.payload r (refl, omega arith))
          (λ x h. (h.0.0, h.0.1, (λ k. absurd (cc)), (λ k. h.1), (λ k. h.2), (λ k. h.3))))
