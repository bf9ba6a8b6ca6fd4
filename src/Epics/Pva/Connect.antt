-- ===== src/Epics/Pva/Connect.antt =====
-- `ValidationRequest` and `CreateChannelRequest` of internal/epics/pva/pva.go, heard by the parser.
use mathlib.Core.Path.{subst}
use mathlib.Core.List.{append-nil}
use wirepup.Base.{
  ℕ, ◌+◌, ◌^◌, ◌<◌, true, false, List, [], ◌∷◌, ◌++◌, ◌≡◌, refl, sym, arith, length, All, Bytes,
  put16, put32, length-append,
}
use wirepup.Net.{Addr}
use wirepup.Epics.Pva.Search.{length-put_str, length-put_size}
use wirepup.Epics.Pva.Heard.{Hears, Hears-framed, At-start, start, blank}
use wirepup.Epics.Pva.Reader.{Reader, read_str, read_list}
use wirepup.Epics.Pva.Writer.{
  put_str, put_size, put_list, validation_request, create_channel_request,
}
use wirepup.Epics.Pva.Written.{
  At, Reads, read_uint16-Reads, read_int32-Reads, read_size-Reads, read_str-Reads,
  read_last_str-Reads, read_list-Reads, Reads-bind,
}
use wirepup.Epics.Pva.Observations.{
  Transport, Direction, Observation, read_channel, read_validation, read_create_channel,
  read_command,
}

-- The fields of a request for one channel, and those of a server's validation request.
abbrev pub Creates : ℕ → Bytes → Observation → Type 0
Creates id name o =
    (o.command ≡ 7)
    × (o.direction ≡ Direction.to_server)
    × (o.malformed ≡ false)
    × (o.channels ≡ record { id = id; name = name } ∷ [])

abbrev pub Validates : ℕ → ℕ → List Bytes → Observation → Type 0
Validates size registry auth o =
    (o.command ≡ 1)
    × (o.direction ≡ Direction.from_server)
    × (o.malformed ≡ false)
    × (o.buffer_size ≡ size)
    × (o.registry_max ≡ registry)
    × (o.auth_nz ≡ auth)

one_channel-Reads :
    (b : Bytes) (r : Reader) (id : ℕ) (name : Bytes)
    → id < 4294967296
    → length name < 2 ^ 31
    → At b (put32 id ++ put_str name) r
    → Reads b (record { id = id; name = name } ∷ []) [] (read_list read_channel 1 [] r)
unfolding read_list read_channel
one_channel-Reads b r id name h k a =
    let (r1, e1, a1) = read_int32-Reads b (put_str name) r id h a in
    let (r2, e2, a2) = read_last_str-Reads b r1 name k a1 in (r2, rw (e1, e2, a.sound) refl, a2)

module _ (transport : Transport) (src dst : Addr) (src_port dst_port : ℕ) where
  read_create_channel-Reads :
      (b payload : Bytes) (r : Reader) (id : ℕ) (name : Bytes)
      → id < 4294967296
      → length name < 2 ^ 31
      → At b (put16 1 ++ (put32 id ++ put_str name)) r
      → Reads b
          (record (blank transport src dst src_port dst_port 7 false payload) {
            channels = record { id = id; name = name } ∷ [];
          })
          []
          (read_create_channel (blank transport src dst src_port dst_port 7 false payload) r)
  unfolding read_create_channel
  read_create_channel-Reads b payload r id name h k a =
      Reads-bind b _ [] 1 _ _ _ (read_uint16-Reads b _ r 1 (omega arith) a) (λ r a.
        Reads-bind b [] [] (record { id = id; name = name } ∷ []) _ _ _
          (one_channel-Reads b r id name h k a) (λ r a. (r, refl, a)))

  -- The message that `CreateChannelRequest` builds for a 32-bit id and a name of fewer than 2^31 bytes is parsed as one
  -- message, whatever the transport context. Its observation is a client's request, not malformed, for one channel with
  -- that id and that name.
  pub create_channel_request-Creates :
      (id : ℕ) (name : Bytes)
      → id < 4294967296
      → length name < 2 ^ 31
      → Hears transport src dst src_port dst_port (Creates id name) (create_channel_request id name)
  unfolding create_channel_request read_command
  create_channel_request-Creates id name h k =
      let payload : Bytes = put16 1 ++ (put32 id ++ put_str name) in
      Hears-framed transport src dst src_port dst_port (Creates id name) 7 false payload _
        (omega arith) (omega (arith, length-put_str name))
        (read_create_channel-Reads payload payload
          (start transport src dst src_port dst_port payload) id name h k
          (At-start transport src dst src_port dst_port payload))
        (refl, refl, refl, refl)

  read_validation-Reads :
      (b payload : Bytes) (r : Reader) (size registry : ℕ) (auth : List Bytes)
      → size < 4294967296
      → registry < 65536
      → length auth < 2 ^ 31
      → All (λ s. length s < 2 ^ 31) auth
      → At b (put32 size ++ (put16 registry ++ (put_size (length auth) ++ put_list put_str auth))) r
      → Reads b
          (record (blank transport src dst src_port dst_port 1 true payload) {
            buffer_size = size;
            registry_max = registry;
            auth_nz = auth;
          })
          []
          (read_validation (blank transport src dst src_port dst_port 1 true payload) r)
  unfolding read_validation
  read_validation-Reads b payload r size registry auth hs hr hl ha a =
      Reads-bind b _ [] size _ _ _ (read_int32-Reads b _ r size hs a) (λ r a.
        Reads-bind b _ [] registry _ _ _ (read_uint16-Reads b _ r registry hr a) (λ r a.
          Reads-bind b _ [] (length auth) _ _ _ (read_size-Reads b _ r (length auth) hl a) (λ r a.
            Reads-bind b [] [] auth _ _ _
              (read_list-Reads read_str put_str (λ s. length s < 2 ^ 31)
                (λ x p b rest r a. read_str-Reads b rest r x p a) auth [] b [] r ha
                (subst (λ t. At b t r) (sym (append-nil (put_list put_str auth))) a))
              (λ r a. (r, refl, a)))))

  -- The message that `ValidationRequest` builds for a 32-bit buffer size, a 16-bit registry size and fewer than 2^31
  -- mechanisms of fewer than 2^31 bytes each, which together with their sizes take fewer than 2^32 - 11 bytes, is parsed as one
  -- message, whatever the transport context. Its observation is a server's request, not malformed, with both sizes and
  -- with these mechanisms in their order.
  pub validation_request-Validates :
      (size registry : ℕ) (auth : List Bytes)
      → size < 4294967296
      → registry < 65536
      → length auth < 2 ^ 31
      → All (λ s. length s < 2 ^ 31) auth
      → length (put_list put_str auth) + 11 < 4294967296
      → Hears transport src dst src_port dst_port
          (Validates size registry auth)
          (validation_request size registry auth)
  unfolding validation_request read_command
  validation_request-Validates size registry auth hs hr hl ha hp =
      let payload : Bytes =
        put32 size ++ (put16 registry ++ (put_size (length auth) ++ put_list put_str auth)) in
      Hears-framed transport src dst src_port dst_port (Validates size registry auth) 1 true payload
        _ (omega arith)
        (omega (
          arith,
          length-append (put_size (length auth)) (put_list put_str auth),
          length-put_size (length auth),
        ))
        (read_validation-Reads payload payload (start transport src dst src_port dst_port payload)
          size registry auth hs hr hl ha (At-start transport src dst src_port dst_port payload))
        (refl, refl, refl, refl, refl, refl)
