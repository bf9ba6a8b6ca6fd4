-- ===== src/Text.antt =====
-- What the program uses of strings and bytes: text up to a NUL, and `strings.TrimSpace`.
use Prim.Native.Char.{code}
use Prim.Native.String.{String}
use wirepup.Base.{
  ℕ, zero, suc, Option, none, some, List, [], ◌∷◌, map, ◌==◌, if◌then◌else◌, length, Bytes,
}
use mathlib.Core.List.{reverse}

-- The code points of a text: its bytes, for ASCII.
abbrev pub codes : String → Bytes
codes String.[] = []
codes (String.◌∷◌ c s) = code c ∷ codes s

-- The bytes before the first NUL.
unfoldable pub until_nul : Bytes → Bytes
until_nul [] = []
until_nul (c ∷ cs) = if c == 0 then [] else c ∷ until_nul cs

-- The UTF-8 forms of the runes that `unicode.IsSpace` accepts.
abbrev spaces : List Bytes
spaces =
    (9 ∷ [])
    ∷ (10 ∷ [])
    ∷ (11 ∷ [])
    ∷ (12 ∷ [])
    ∷ (13 ∷ [])
    ∷ (32 ∷ [])
    ∷ (0xc2 ∷ 0x85 ∷ [])
    ∷ (0xc2 ∷ 0xa0 ∷ [])
    ∷ (0xe1 ∷ 0x9a ∷ 0x80 ∷ [])
    ∷ (0xe2 ∷ 0x80 ∷ 0x80 ∷ [])
    ∷ (0xe2 ∷ 0x80 ∷ 0x81 ∷ [])
    ∷ (0xe2 ∷ 0x80 ∷ 0x82 ∷ [])
    ∷ (0xe2 ∷ 0x80 ∷ 0x83 ∷ [])
    ∷ (0xe2 ∷ 0x80 ∷ 0x84 ∷ [])
    ∷ (0xe2 ∷ 0x80 ∷ 0x85 ∷ [])
    ∷ (0xe2 ∷ 0x80 ∷ 0x86 ∷ [])
    ∷ (0xe2 ∷ 0x80 ∷ 0x87 ∷ [])
    ∷ (0xe2 ∷ 0x80 ∷ 0x88 ∷ [])
    ∷ (0xe2 ∷ 0x80 ∷ 0x89 ∷ [])
    ∷ (0xe2 ∷ 0x80 ∷ 0x8a ∷ [])
    ∷ (0xe2 ∷ 0x80 ∷ 0xa8 ∷ [])
    ∷ (0xe2 ∷ 0x80 ∷ 0xa9 ∷ [])
    ∷ (0xe2 ∷ 0x80 ∷ 0xaf ∷ [])
    ∷ (0xe2 ∷ 0x81 ∷ 0x9f ∷ [])
    ∷ (0xe3 ∷ 0x80 ∷ 0x80 ∷ [])
    ∷ []

strip : Bytes → Bytes → Option Bytes
strip [] b = some b
strip (p ∷ ps) [] = none
strip (p ∷ ps) (c ∷ cs) = if p == c then strip ps cs else none

strip_any : List Bytes → Bytes → Option Bytes
strip_any [] b = none
strip_any (s ∷ ss) b = elim (strip s b) [ some rest ↦ some rest | none ↦ strip_any ss b ]

-- Every round takes a byte at least, so the length is fuel enough.
trim_front : List Bytes → ℕ → Bytes → Bytes
trim_front ss zero b = b
trim_front ss (suc fuel) b = elim (strip_any ss b) [
  | some rest ↦ trim_front ss fuel rest
  | none ↦ b
]

-- `strings.TrimSpace`
unfoldable pub trim_space : Bytes → Bytes
unfolding trim_front strip_any strip
trim_space b =
    let left = trim_front spaces (length b) b in
    reverse (trim_front (map reverse spaces) (length left) (reverse left))
