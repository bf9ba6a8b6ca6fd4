-- ===== src/Epics/Pva/Reader.antt =====
-- The reader of internal/epics/pva/pva.go. It goes on after an overrun, and every later read gives
-- the zero value. A 32-bit or 16-bit integer with a sign is the word that holds its bits.
use wirepup.Base.{
  ℕ, zero, suc, ◌+◌, ◌^◌, Bool, true, false, ◌||◌, Option, none, some, List, [], ◌∷◌, ◌++◌, ltb,
  leb, ◌==◌, if◌then◌else◌, length, Bytes, Go, ret, ◌>>=◌, index, slice,
}
use wirepup.Net.{Addr, invalid, v6, unmap, number_from}
use wirepup.Epics.Pva.{order16, order32}

pub record Reader : Type 0 where
  pub b : Bytes
  pub off : ℕ
  pub big : Bool
  pub failed : Bool

abbrev pub fail : Reader → Reader
fail r = record r { failed = true }

-- `need(n)`, then the read `f` of `n` bytes; `default` where they are not there.
unfoldable pub reading {ℓ} : {A : Type ℓ} → ℕ → A → (Bytes → ℕ → Go A) → Reader → Go (A × Reader)
reading n default f r =
    if r.failed || ltb (length r.b) (r.off + n)
    then ret (default, fail r)
    else do v ← f r.b r.off; ret (v, record r { off = r.off + n })

abbrev pub read_byte : Reader → Go (ℕ × Reader)
read_byte r = reading 1 0 index r

unfoldable pub skip : ℕ → Reader → Reader
skip n r = if r.failed || ltb (length r.b) (r.off + n) then fail r else record r { off = r.off + n }

-- `nil`, the zero value, is `none`.
abbrev pub read_bytes : ℕ → Reader → Go (Option Bytes × Reader)
read_bytes n r = reading n none (λ b i. do v ← slice b i (i + n); ret (some v)) r

abbrev pub read_uint16 : Reader → Go (ℕ × Reader)
read_uint16 r = reading 2 0 (order16 r.big) r

abbrev pub read_int32 : Reader → Go (ℕ × Reader)
read_int32 r = reading 4 0 (order32 r.big) r

-- `n < 0` for the int32 with the bits of `n`
abbrev pub negative32 : ℕ → Bool
negative32 n = leb (2 ^ 31) n

-- The rounds of `for i := 0; i < n; i++` for the int16 `n` with these bits.
abbrev pub rounds16 : ℕ → ℕ
rounds16 n = if leb (2 ^ 15) n then 0 else n

-- What `size` makes of the four bytes behind the marker of a long size.
abbrev pub long_size : ℕ × Reader → ℕ × Reader
long_size (n, r) = if negative32 n then (0, fail r) else (n, r)

unfoldable pub read_size : Reader → Go (ℕ × Reader)
read_size r = do
  (v, r1) ← read_byte r
  if r1.failed || v == 255
      then ret (0, r1)
      else if ltb v 254
      then ret (v, r1)
      else do n ← read_int32 r1; ret (long_size n)

abbrev pub text_of : Option Bytes → Bytes
text_of none = []
text_of (some b) = b

unfoldable pub read_str : Reader → Go (Bytes × Reader)
read_str r = do
  (n, r1) ← read_size r
  if r1.failed then ret ([], r1) else do (v, r2) ← read_bytes n r1; ret (text_of v, r2)

-- `netip.AddrFrom16([16]byte(b)).Unmap()`
abbrev pub addr_of : Option Bytes → Addr
addr_of none = invalid
addr_of (some b) = unmap (v6 (number_from 0 b))

unfoldable pub read_addr : Reader → Go (Addr × Reader)
read_addr r = do (v, r1) ← read_bytes 16 r; ret (addr_of v, r1)

unfoldable pub read_status : Reader → Go (Bool × Reader)
read_status r = do
  (t, r1) ← read_byte r
  if r1.failed
      then ret (false, r1)
      else if t == 0xff
      then ret (true, r1)
      else do (_, r2) ← read_str r1; (_, r3) ← read_str r2; ret (t == 0, r3)

-- `for i := 0; i < n && !r.failed; i++ { out = append(out, read()) }`
unfoldable pub read_list {ℓ} :
    {A : Type ℓ} → (Reader → Go (A × Reader)) → ℕ → List A → Reader → Go (List A × Reader)
read_list read zero out r = ret (out, r)
read_list read (suc n) out r =
    if r.failed then ret (out, r) else do (v, r1) ← read r; read_list read n (out ++ (v ∷ [])) r1
