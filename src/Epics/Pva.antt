-- ===== src/Epics/Pva.antt =====
-- internal/epics/pva/pva.go: the messages of pvAccess, cut out of a buffer.
pub mod Total
pub mod Reader
pub mod Writer
pub mod Observations
pub mod Reads
pub mod Bounded
pub mod Written
pub mod Heard
pub mod Search
pub mod Answers
pub mod Connect
use wirepup.Base.{
  ℕ, zero, suc, ◌+◌, ◌*◌, ◌/◌, ◌%◌, Bool, true, false, not, ◌&&◌, ◌||◌, Option, none, some, List,
  [], ◌∷◌, ◌++◌, ltb, leb, ◌==◌, if◌then◌else◌, has_bit, length, Bytes, byte, Go, ret, panic, stuck,
  ◌>>=◌, index, slice, from, be16, be32,
}

abbrev pub header_len : ℕ
header_len = 8

abbrev pub magic : ℕ
magic = 0xca

abbrev pub max_version : ℕ
max_version = 2

abbrev pub last_command : ℕ
last_command = 0x16

pub data Error : Type 0 where
  truncated bad_magic version command flags payload : Error

pub record Header : Type 0 where
  pub version : ℕ
  pub flags : ℕ
  pub command : ℕ
  pub payload_size : ℕ
  pub big_endian : Bool
  pub control : Bool
  pub from_server : Bool

pub record Message : Type 0 where
  pub header : Header
  pub open header use *
  pub payload : Bytes

-- `binary.LittleEndian.Uint16(b[i:])` and `binary.LittleEndian.Uint32(b[i:])`
abbrev pub le16_at : Bytes → ℕ → ℕ
le16_at b i = byte b (i + 1) * 256 + byte b i

abbrev pub le32_at : Bytes → ℕ → ℕ
le32_at b i = byte b (i + 3) * 16777216 + byte b (i + 2) * 65536 + byte b (i + 1) * 256 + byte b i

unfoldable pub le16 : Bytes → ℕ → Go ℕ
le16 b i = if leb (i + 2) (length b) then ret (le16_at b i) else panic

unfoldable pub le32 : Bytes → ℕ → Go ℕ
le32 b i = if leb (i + 4) (length b) then ret (le32_at b i) else panic

-- `order().Uint16(b[i:])` and `order().Uint32(b[i:])`, big-endian if `big`
abbrev pub order16 : Bool → Bytes → ℕ → Go ℕ
order16 big b i = if big then be16 b i else le16 b i

abbrev pub order32 : Bool → Bytes → ℕ → Go ℕ
order32 big b i = if big then be32 b i else le32 b i

abbrev empty_header : Header
empty_header = record {
  version = 0;
  flags = 0;
  command = 0;
  payload_size = 0;
  big_endian = false;
  control = false;
  from_server = false;
}

unfoldable pub parse_header : Bytes → Go (Header × Option Error)
parse_header b = if ltb (length b) header_len then ret (empty_header, some truncated) else do
  first ← index b 0
  if not (first == magic) then ret (empty_header, some bad_magic) else do
    number ← index b 1
    bits ← index b 2
    cmd ← index b 3
    let h : Header = record empty_header { version = number; flags = bits; command = cmd }
    if number == 0 || ltb max_version number
        then ret (h, some version)
        else if not (bits / 2 % 8 == 0)
        then ret (h, some flags)
        else do
          size ← order32 (has_bit bits 7) b 4
          let h' : Header = record h {
            big_endian = has_bit bits 7;
            control = has_bit bits 0;
            from_server = has_bit bits 6;
            payload_size = size;
          }
          ret (h', (if not (has_bit bits 0) && ltb last_command cmd then some command else none))

-- The part of a round of `Parse` behind the header; `next_round` takes the messages and the offset.
unfoldable pub parse_message :
    (List Message → ℕ → Go (List Message × Option Error))
    → List Message
    → Bytes
    → ℕ
    → Header × Option Error
    → Go (List Message × Option Error)
parse_message next_round out b off (h, some e) = ret (out, some e)
parse_message next_round out b off (h, none) =
    let start = off + header_len in
    let stop = start + h.payload_size in
    if h.control
    then next_round (out ++ (record { header = h; payload = [] } ∷ [])) start
    else if ltb (length b) stop || ltb stop start
    then ret (out, some payload)
    else (do
      p ← slice b start stop
      next_round (out ++ (record { header = h; payload = p } ∷ [])) stop)

-- The loop of `Parse`; every message takes 8 bytes at least.
unfoldable pub parse_loop : ℕ → List Message → Bytes → ℕ → Go (List Message × Option Error)
parse_loop zero out b off = if ltb off (length b) then stuck else ret (out, none)
parse_loop (suc fuel) out b off = if not (ltb off (length b)) then ret (out, none) else do
  here ← from b off
  h ← parse_header here
  parse_message (λ out' off'. parse_loop fuel out' b off') out b off h

-- `if len(out) == 0 { return nil, ErrTruncated }`
unfoldable pub or_empty : List Message × Option Error → List Message × Option Error
or_empty ([], none) = ([], some truncated)
or_empty r = r

unfoldable pub parse : Bytes → Go (List Message × Option Error)
parse b = do r ← parse_loop (length b) [] b 0; ret (or_empty r)

unfoldable pub has_no_error : Header × Option Error → Bool
has_no_error (h, some e) = false
has_no_error (h, none) = true

unfoldable pub probable : Bytes → Go Bool
probable b = do h ← parse_header b; ret (has_no_error h)
