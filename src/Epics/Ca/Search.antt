-- ===== src/Epics/Ca/Search.antt =====
-- The datagrams that the program builds, heard by its own parser.
use wirepup.Base.{
  ℕ, zero, suc, ◌+◌, ◌-◌, ◌%◌, ◌^◌, ◌≤◌, ◌<◌, Bool, true, false, Option, none, List, [], ◌∷◌, ◌++◌,
  ◌≡◌, ◌≢◌, inl, inr, refl, sym, ◌∙◌, arith, ◌==◌, if◌then◌else◌, length, Bytes, All, Ensures,
  Ensures-map, Ensures-ret, ret, be16, Bool-cases, ==_iff, le→ltb, length-append,
}
use wirepup.Net.{Addr}
use wirepup.Text.{until_nul}
use wirepup.Epics.Ca.{
  Error, Message, Observation, Transport, search, search_response, parse, pad, search_datagram,
  search_reply_datagram, interpret, kind_of, c_string, is_udp_command, is_printable,
  is_search_response,
}
use wirepup.Epics.Ca.RoundTrip.{IsPrintable, print_all, parse-print_all}
use mathlib.Core.List.{append_assoc, append-nil}

-- Printable ASCII.
abbrev pub IsText : ℕ → Type 0
IsText c = (0x20 ≤ c) × (c ≤ 0x7e)

until_nul-text : (pv rest : Bytes) → All IsText pv → until_nul (pv ++ (0 ∷ rest)) ≡ pv
unfolding until_nul
until_nul-text [] rest h = refl
until_nul-text (c ∷ pv) rest h = ground (arith, until_nul-text pv rest h.1)

is_printable-text : (pv : Bytes) → All IsText pv → is_printable pv ≡ true
unfolding is_printable
is_printable-text [] h = refl
is_printable-text (c ∷ pv) h = ground (arith, is_printable-text pv h.1)

c_string-text :
    (pv rest : Bytes) → All IsText pv → length pv ≤ 512 → c_string (pv ++ (0 ∷ rest)) ≡ pv
unfolding c_string
c_string-text pv rest h n =
    rw (until_nul-text pv rest h, le→ltb 512 (length pv) n, is_printable-text pv h)

-- The padded name: zeros behind, up to a multiple of eight.
abbrev Padded : Bytes → Bytes → Type 0
Padded b name = (z : Bytes) × (name ≡ b ++ z) × (length name ≡ length b + (8 - length b % 8) % 8)

pad-Padded :
    (fuel : ℕ) (b : Bytes) → (8 - length b % 8) % 8 ≤ fuel → Ensures (Padded b) (pad fuel b)
unfolding pad
pad-Padded zero b h =
    let e : length b % 8 ≡ 0 = omega arith in
    rw ((==_iff (length b % 8) 0).1 e) ([], sym (append-nil b), omega arith)
pad-Padded (suc fuel) b h = elim (Bool-cases (length b % 8 == 0)) [
  | inl full ↦
      let e : length b % 8 ≡ 0 = (==_iff (length b % 8) 0).0 full in
      rw full ([], sym (append-nil b), omega arith)
  | inr part ↦
      let size : length (b ++ (0 ∷ [])) ≡ length b + 1 = length-append b (0 ∷ []) in
      let some_left : length b % 8 ≢ 0 = ground arith in
      rw part (
        Ensures-map (Padded (b ++ (0 ∷ []))) (Padded b) (pad fuel (b ++ (0 ∷ [])))
          (λ name p. (0 ∷ p.0, p.1 ∙ append_assoc b (0 ∷ []) p.0, p.2 ∙ rw size (omega arith)))
          (pad-Padded fuel (b ++ (0 ∷ [])) (rw size (omega arith))))
]

abbrev version_message : ℕ → Message
version_message id = record {
  header = record {
    command = 0;
    payload_size = 0;
    data_type = 1;
    count = 13;
    cid = id;
    available = 0;
    header_len = 16;
  };
  payload = [];
}

abbrev search_message : ℕ → Bytes → Bool → Message
search_message id name wanted = record {
  header = record {
    command = 6;
    payload_size = length name;
    data_type = if wanted then 10 else 5;
    count = 13;
    cid = id;
    available = id;
    header_len = 16;
  };
  payload = name;
}

version_message-IsPrintable : (id : ℕ) → id < 2 ^ 32 → IsPrintable true (version_message id)
version_message-IsPrintable id h = (
  record {
    known = omega arith;
    size_fits = omega arith;
    type_fits = omega arith;
    count_fits = omega arith;
    cid_fits = omega arith;
    available_fits = omega arith;
    standard = refl;
    sized = refl;
    unextended = refl;
  },
  unfold is_udp_command in refl,
)

search_message-IsPrintable :
    (id : ℕ) (name : Bytes) (wanted : Bool)
    → id < 2 ^ 32
    → length name < 65535
    → IsPrintable true (search_message id name wanted)
search_message-IsPrintable id name wanted h n = (
  record {
    known = omega arith;
    size_fits = omega arith;
    type_fits = ground arith;
    count_fits = omega arith;
    cid_fits = omega arith;
    available_fits = omega arith;
    standard = refl;
    sized = refl;
    unextended = ground arith;
  },
  unfold is_udp_command in refl,
)

search_datagram-print :
    (id : ℕ) (pv name : Bytes) (wanted : Bool)
    → pad 8 (pv ++ (0 ∷ [])) ≡ ret name
    → search_datagram id pv wanted
      ≡ ret (print_all (version_message id ∷ search_message id name wanted ∷ []))
unfolding search_datagram
search_datagram-print id pv name wanted e = rw (e, append-nil name)

abbrev reply_message : ℕ → ℕ → Message
reply_message id port = record {
  header = record {
    command = 6;
    payload_size = 8;
    data_type = port;
    count = 0;
    cid = 0xffffffff;
    available = id;
    header_len = 16;
  };
  payload = 0 ∷ 13 ∷ 0 ∷ 0 ∷ 0 ∷ 0 ∷ 0 ∷ 0 ∷ [];
}

reply_message-IsPrintable :
    (id port : ℕ) → id < 0xffffffff → port < 65536 → IsPrintable true (reply_message id port)
reply_message-IsPrintable id port h p = (
  record {
    known = omega arith;
    size_fits = omega arith;
    type_fits = p;
    count_fits = omega arith;
    cid_fits = omega arith;
    available_fits = omega arith;
    standard = refl;
    sized = refl;
    unextended = refl;
  },
  unfold is_udp_command in refl,
)

module _ (transport : Transport) (src dst : Addr) (src_port dst_port server_port : ℕ) where
  -- Parsed as a datagram, the bytes are a version message and a search for `pv`.
  abbrev pub Asks : ℕ → Bytes → Bool → List Message × Option Error → Type 0
  Asks id pv wanted (v ∷ s ∷ [], none) =
      (v.command ≡ 0)
      × (v.cid ≡ id)
      × Ensures
          (λ (o : Observation).
            (kind_of o ≡ search)
            × (o.pv_name ≡ pv)
            × (o.search_id ≡ id)
            × (o.reply_wanted ≡ wanted)
            × (o.minor_version ≡ 13))
          (interpret s transport src dst src_port dst_port server_port)
  Asks id pv wanted _ = ⊥

  search_message-Asks :
      (id : ℕ) (name pv : Bytes) (wanted : Bool)
      → 0 < length name
      → c_string name ≡ pv
      → Asks id pv wanted (version_message id ∷ search_message id name wanted ∷ [], none)
  unfolding interpret is_search_response kind_of
  search_message-Asks id name pv true h e = (refl, refl, ground arith)
  search_message-Asks id name pv false h e = (refl, refl, ground arith)

  datagram-Asks :
      (id : ℕ) (pv : Bytes) (wanted : Bool)
      → id < 2 ^ 32
      → All IsText pv
      → length pv ≤ 512
      → (name : Bytes) → pad 8 (pv ++ (0 ∷ [])) ≡ ret name
      → Padded (pv ++ (0 ∷ [])) name
      → Ensures (λ d. Ensures (Asks id pv wanted) (parse d true)) (search_datagram id pv wanted)
  datagram-Asks id pv wanted hid text n name e (z, joined, len) =
      let size : length (pv ++ (0 ∷ [])) ≡ length pv + 1 = length-append pv (0 ∷ []) in
      let short : length name < 65535 = omega arith in
      let content : c_string name ≡ pv =
        rw (joined, append_assoc pv (0 ∷ []) z) (c_string-text pv z text n) in
      rw
        (
          search_datagram-print id pv name wanted e,
          parse-print_all true (version_message id) (search_message id name wanted ∷ []) (
            version_message-IsPrintable id hid,
            (search_message-IsPrintable id name wanted hid short, tt),
          ),
        )
        (search_message-Asks id name pv wanted (omega arith) content)

  -- The datagram that `SearchDatagram` builds for a 32-bit id and a printable ASCII name of at most 512
  -- bytes is parsed as a version message and a search, whose interpretation gives back the name, the
  -- id and the reply flag, whatever the transport context.
  pub search_datagram-Asks :
      (id : ℕ) (pv : Bytes) (wanted : Bool)
      → id < 2 ^ 32
      → All IsText pv
      → length pv ≤ 512
      → Ensures (λ d. Ensures (Asks id pv wanted) (parse d true)) (search_datagram id pv wanted)
  search_datagram-Asks id pv wanted hid text n =
      let (name, e, p) =
        Ensures-ret (Padded (pv ++ (0 ∷ []))) (pad 8 (pv ++ (0 ∷ [])))
          (pad-Padded 8 _ (omega arith)) in
      datagram-Asks id pv wanted hid text n name e p

  -- Parsed as a datagram, the bytes are one reply to the search `id` from a server at the source.
  abbrev pub Answers : ℕ → ℕ → List Message × Option Error → Type 0
  Answers id port (s ∷ [], none) =
      Ensures
        (λ (o : Observation).
          (kind_of o ≡ search_response)
          × (o.search_id ≡ id)
          × (o.server_port ≡ port)
          × (o.server_ip ≡ src)
          × (o.minor_version ≡ 13))
        (interpret s transport src dst src_port dst_port server_port)
  Answers id port _ = ⊥

  reply_message-Answers :
      (id port : ℕ) → id < 0xffffffff → Answers id port (reply_message id port ∷ [], none)
  unfolding interpret is_search_response kind_of be16
  reply_message-Answers id port h = ground arith

  -- The reply that `SearchReplyDatagram` builds is parsed as one search response, which names the
  -- search, the server port and the source as the server, for a 16-bit port and a 32-bit id other than
  -- the "any sender" mark.
  pub search_reply-Answers :
      (id port : ℕ)
      → id < 0xffffffff
      → port < 65536
      → Ensures (Answers id port) (parse (search_reply_datagram id port) true)
  unfolding search_reply_datagram
  search_reply-Answers id port hid hport =
      rw
        (parse-print_all true (reply_message id port) []
          (reply_message-IsPrintable id port hid hport, tt))
        (reply_message-Answers id port hid)
