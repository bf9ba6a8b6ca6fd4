-- ===== src/Epics/Pva/Search.antt =====
-- `SearchDatagram` of internal/epics/pva/pva.go, heard by the parser.
use wirepup.Base.{
  ℕ, ◌+◌, ◌≤◌, ◌<◌, Bool, true, false, [], ◌∷◌, ◌++◌, ◌≡◌, refl, inl, inr, arith, ltb, has_bit,
  length, Bytes, put16, put32, Bool-cases, le→ltb, length-append,
}
use wirepup.Net.{Addr, invalid}
use wirepup.Epics.Pva.Heard.{Hears, Hears-framed, At-start, start, blank}
use wirepup.Epics.Pva.Reader.{Reader, skip}
use wirepup.Epics.Pva.Writer.{put_size, put_str, put_addr, tcp_name, flag, search_datagram}
use wirepup.Epics.Pva.Written.{
  At, Reads, read_byte-Reads, skip-At, read_uint16-Reads, read_int32-Reads, read_size-Reads,
  read_no_addr-Reads, Reads-bind, read_one_str-Reads, read_last_str-Reads,
}
use wirepup.Epics.Pva.Observations.{
  Transport, Direction, Observation, read_names, read_search, read_command,
}

pub length-put_size : (n : ℕ) → length (put_size n) ≤ 5
unfolding put_size
length-put_size n = elim (Bool-cases (ltb n 254)) [
  | inl e ↦ rw e (omega arith)
  | inr e ↦ rw e (omega arith)
]

pub length-put_str : (s : Bytes) → length (put_str s) ≤ 5 + length s
unfolding put_str
length-put_str s = omega (arith, length-append (put_size (length s)) s, length-put_size (length s))

search_small :
    (seq id : ℕ) (name : Bytes) (flags port : ℕ)
    → length name ≤ 500
    → length (
        put32 seq
        ++ (flags
            ∷ 0
            ∷ 0
            ∷ 0
            ∷ (put_addr invalid
                ++ (put16 port
                    ++ (put_size 1
                        ++ (put_str tcp_name ++ (put16 1 ++ (put32 id ++ put_str name))))))))
      < 4294967296
unfolding put_addr
search_small seq id name flags port h = omega (
  arith,
  length-append (put_size 1) (put_str tcp_name ++ (put16 1 ++ (put32 id ++ put_str name))),
  length-append (put_str tcp_name) (put16 1 ++ (put32 id ++ put_str name)),
  length-put_str name,
  length-put_str tcp_name,
  length-put_size 1,
)

-- The fields of a search for one name.
abbrev pub Searches : ℕ → ℕ → Bytes → Bool → Bool → ℕ → Observation → Type 0
Searches seq id name reply unicast port o =
    (o.command ≡ 3)
    × (o.direction ≡ Direction.to_server)
    × (o.malformed ≡ false)
    × (o.sequence_id ≡ seq)
    × (o.reply_required ≡ reply)
    × (o.unicast ≡ unicast)
    × (o.response_port ≡ port)
    × (o.protocols ≡ tcp_name ∷ [])
    × (o.channels ≡ record { id = id; name = name } ∷ [])

module _ (transport : Transport) (src dst : Addr) (src_port dst_port : ℕ) where
  one_name-Reads :
      (b : Bytes) (r : Reader) (id : ℕ) (name : Bytes)
      → id < 4294967296
      → length name ≤ 500
      → At b (put32 id ++ put_str name) r
      → Reads b (record { id = id; name = name } ∷ []) [] (read_names 1 [] r)
  unfolding read_names
  one_name-Reads b r id name h k a =
      let (r1, e1, a1) = read_int32-Reads b (put_str name) r id h a in
      let (r2, e2, a2) = read_last_str-Reads b r1 name (omega arith) a1 in
      (r2, rw (e1, e2, le→ltb 500 (length name) k, a.sound) refl, a2)

  flag_bits :
      (reply unicast : Bool)
      → (has_bit (flag reply 1 + flag unicast 0x80) 0 ≡ reply)
        × (has_bit (flag reply 1 + flag unicast 0x80) 7 ≡ unicast)
  flag_bits true true = (refl, refl)
  flag_bits true false = (refl, refl)
  flag_bits false true = (refl, refl)
  flag_bits false false = (refl, refl)

  read_search-Reads :
      (b : Bytes) (r : Reader) (o : Observation) (seq id : ℕ) (name : Bytes) (flags port : ℕ)
      → seq < 4294967296
      → id < 4294967296
      → length name ≤ 500
      → port < 65536
      → At b
          (put32 seq
            ++ (flags
                ∷ 0
                ∷ 0
                ∷ 0
                ∷ (put_addr invalid
                    ++ (put16 port
                        ++ (put_size 1
                            ++ (put_str tcp_name ++ (put16 1 ++ (put32 id ++ put_str name))))))))
          r
      → Reads b
          (record o {
            direction = Direction.to_server;
            sequence_id = seq;
            reply_required = has_bit flags 0;
            unicast = has_bit flags 7;
            response_addr = Addr.v6 0;
            response_port = port;
            protocols = tcp_name ∷ [];
            channels = record { id = id; name = name } ∷ [];
          })
          []
          (read_search o r)
  unfolding read_search
  read_search-Reads b r o seq id name flags port hs hi hn hp a =
      Reads-bind b _ [] seq _ _ _ (read_int32-Reads b _ r seq hs a) (λ r a.
        Reads-bind b _ [] flags _ _ _ (read_byte-Reads b _ r flags a) (λ r a.
          Reads-bind b _ [] (Addr.v6 0) _ _ _
            (read_no_addr-Reads b _ (skip 3 r) (skip-At b _ r 0 0 0 a))
            (λ r a. Reads-bind b _ [] port _ _ _ (read_uint16-Reads b _ r port hp a) (λ r a.
              Reads-bind b _ [] 1 _ _ _ (read_size-Reads b _ r 1 (omega arith) a) (λ r a.
                Reads-bind b _ [] (tcp_name ∷ []) _ _ _
                  (read_one_str-Reads b _ r tcp_name (omega arith) a)
                  (λ r a.
                    Reads-bind b _ [] 1 _ _ _ (read_uint16-Reads b _ r 1 (omega arith) a) (λ r a.
                      Reads-bind b [] [] (record { id = id; name = name } ∷ []) _ _ _
                        (one_name-Reads b r id name hi hn a) (λ r a. (r, refl, a)))))))))

  -- The datagram that `SearchDatagram` builds, for 32-bit numbers, a name of at most 500 bytes and a
  -- 16-bit port, is parsed as one message, whatever the transport context. Its observation is a
  -- search of a client, not malformed, with that sequence number, both flags and that port, for the protocol tcp, and
  -- with one channel that has that id and that name.
  pub search_datagram-Searches :
      (seq id : ℕ) (name : Bytes) (reply unicast : Bool) (port : ℕ)
      → seq < 4294967296
      → id < 4294967296
      → length name ≤ 500
      → port < 65536
      → Hears transport src dst src_port dst_port
          (Searches seq id name reply unicast port)
          (search_datagram seq id name reply unicast port)
  unfolding search_datagram read_command
  search_datagram-Searches seq id name reply unicast port hs hi hn hp =
      let flags : ℕ = flag reply 1 + flag unicast 0x80 in
      let payload : Bytes =
        put32 seq
        ++ (flags
            ∷ 0
            ∷ 0
            ∷ 0
            ∷ (put_addr invalid
                ++ (put16 port
                    ++ (put_size 1
                        ++ (put_str tcp_name ++ (put16 1 ++ (put32 id ++ put_str name))))))) in
      let bits = flag_bits reply unicast in
      Hears-framed transport src dst src_port dst_port (Searches seq id name reply unicast port) 3
        false payload _ (omega arith) (search_small seq id name flags port hn)
        (read_search-Reads payload (start transport src dst src_port dst_port payload)
          (blank transport src dst src_port dst_port 3 false payload) seq id name flags port hs hi
          hn hp (At-start transport src dst src_port dst_port payload))
        (refl, refl, refl, refl, bits.0, bits.1, refl, refl, refl)
