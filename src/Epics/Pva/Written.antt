-- ===== src/Epics/Pva/Written.antt =====
-- The reader of internal/epics/pva/pva.go on bytes that its writer has put.
use native.Mathlib.Nat.{zero-add, suc-add}
use mathlib.Core.List.{append_assoc, append-nil}
use mathlib.Core.Path.{subst}
use wirepup.Base.{
  ℕ, zero, suc, ◌+◌, ◌-◌, ◌^◌, ◌≤◌, ◌<◌, true, false, ◌||◌, none, some, List, [], ◌∷◌, ◌++◌, ◌≡◌,
  refl, sym, ap, ◌∙◌, inl, inr, arith, ltb, leb, ◌==◌, length, take, drop, All, Bytes, byte,
  be16_at, be32_at, put16, put32, Go, ret, ◌>>=◌, index, slice, Bool-cases, ltb→lt, lt→ltb,
  length-drop, length-append, take-append, drop-append, drop-drop, index_lem, slice_lem, be16_lem,
  be32_lem,
}
use wirepup.Net.{Addr, unmap, number_from}
use wirepup.Epics.Pva.{order16, order32}
use wirepup.Epics.Pva.Reader.{
  Reader, reading, read_byte, skip, read_bytes, read_uint16, read_int32, read_size, read_str,
  addr_of, read_addr, read_list,
}
use wirepup.Epics.Pva.Writer.{put_size, put_str, put_addr, put_list}

byte-drop : (b : Bytes) (i j : ℕ) → byte (drop i b) j ≡ byte b (i + j)
byte-drop b zero j = rw zero-add
byte-drop [] (suc i) j = refl
byte-drop (x ∷ b) (suc i) j = rw suc-add (byte-drop b i j)

-- A reader without a failure, big-endian, before the bytes `rest` of the buffer `b`.
pub record At (b : Bytes) (rest : Bytes) (r : Reader) : Type 0 where
  pub buffer : r.b ≡ b
  pub ahead : drop r.off b ≡ rest
  pub inside : r.off ≤ length b
  pub sound : r.failed ≡ false
  pub order : r.big ≡ true

-- A call that gives `x` and stops before `rest`.
abbrev pub Reads {ℓ} : {A : Type ℓ} → Bytes → A → Bytes → Go (A × Reader) → Type ℓ
Reads b x rest m = (r : Reader) × (m ≡ ret (x, r)) × At b rest r

module _ (b : Bytes) where
  room : (xs rest : Bytes) (r : Reader) → At b (xs ++ rest) r → r.off + length xs ≤ length b
  room xs rest r a =
      omega (arith, ap length a.ahead, length-append xs rest, length-drop r.off b, a.inside)

  -- The test of `need`.
  fits :
      (xs rest : Bytes) (r : Reader)
      → At b (xs ++ rest) r
      → (r.failed || ltb (length r.b) (r.off + length xs)) ≡ false
  fits xs rest r a = ground (arith, a.sound, ap length a.buffer, room xs rest r a)

  moved :
      (xs rest : Bytes) (r : Reader)
      → At b (xs ++ rest) r
      → At b rest (record r { off = r.off + length xs })
  moved xs rest r a = record {
    buffer = a.buffer;
    ahead =
        sym (drop-drop r.off (length xs) b) ∙ ap (drop (length xs)) a.ahead ∙ drop-append xs rest;
    inside = room xs rest r a;
    sound = a.sound;
    order = a.order;
  }

reading_lem {ℓ} :
    {A : Type ℓ} (n : ℕ) (x default : A) (f : Bytes → ℕ → Go A) (r : Reader)
    → (r.failed || ltb (length r.b) (r.off + n)) ≡ false
    → f r.b r.off ≡ ret x
    → reading n default f r ≡ ret (x, record r { off = r.off + n })
unfolding reading
reading_lem n x default f r c e = rw (c, e) refl

reading-Reads {ℓ} :
    {A : Type ℓ} (b xs rest : Bytes) (x default : A) (f : Bytes → ℕ → Go A) (r : Reader)
    → At b (xs ++ rest) r
    → f b r.off ≡ ret x
    → Reads b x rest (reading (length xs) default f r)
reading-Reads b xs rest x default f r a e = (
  record r { off = r.off + length xs },
  reading_lem (length xs) x default f r (fits b xs rest r a) (ap (λ b'. f b' r.off) a.buffer ∙ e),
  moved b xs rest r a,
)

module _ (b rest : Bytes) (r : Reader) where
  byte_ahead : (xs : Bytes) → At b xs r → (j : ℕ) → byte b (r.off + j) ≡ byte xs j
  byte_ahead xs a j = sym (byte-drop b r.off j) ∙ ap (λ t. byte t j) a.ahead

  byte_here : (xs : Bytes) → At b xs r → byte b r.off ≡ byte xs 0
  byte_here xs a = ap (byte b) (omega arith) ∙ byte_ahead xs a 0

  pub read_byte-Reads : (v : ℕ) → At b (v ∷ rest) r → Reads b v rest (read_byte r)
  read_byte-Reads v a = reading-Reads b (v ∷ []) rest v 0 index r a (
      index_lem b r.off (omega (arith, room b (v ∷ []) rest r a)) ∙ ap ret (byte_here (v ∷ rest) a))

  pub skip-At : (x y z : ℕ) → At b (x ∷ y ∷ z ∷ rest) r → At b rest (skip 3 r)
  unfolding skip
  skip-At x y z a = rw (fits b (x ∷ y ∷ z ∷ []) rest r a) (moved b (x ∷ y ∷ z ∷ []) rest r a)

  pub read_uint16-Reads :
      (n : ℕ) → n < 65536 → At b (put16 n ++ rest) r → Reads b n rest (read_uint16 r)
  read_uint16-Reads n h a =
      let xs : Bytes = put16 n ++ rest in
      let e : be16_at b r.off ≡ n = omega (arith, byte_here xs a, byte_ahead xs a 1) in
      reading-Reads b (put16 n) rest n 0 (order16 r.big) r a (
        ap (λ o. order16 o b r.off) a.order
        ∙ be16_lem b r.off (room b (put16 n) rest r a)
        ∙ ap ret e)

  pub read_int32-Reads :
      (n : ℕ) → n < 4294967296 → At b (put32 n ++ rest) r → Reads b n rest (read_int32 r)
  read_int32-Reads n h a =
      let xs : Bytes = put32 n ++ rest in
      let e : be32_at b r.off ≡ n =
        omega (arith, byte_here xs a, byte_ahead xs a 1, byte_ahead xs a 2, byte_ahead xs a 3) in
      reading-Reads b (put32 n) rest n 0 (order32 r.big) r a (
        ap (λ o. order32 o b r.off) a.order
        ∙ be32_lem b r.off (room b (put32 n) rest r a)
        ∙ ap ret e)

  pub read_bytes-Reads :
      (xs : Bytes) → At b (xs ++ rest) r → Reads b (some xs) rest (read_bytes (length xs) r)
  read_bytes-Reads xs a =
      let n : ℕ = length xs in
      let cut : r.off + n - r.off ≡ n = omega arith in
      let e : take (r.off + n - r.off) (drop r.off b) ≡ xs =
        rw (cut, a.ahead) (take-append xs rest) in
      reading-Reads b xs rest (some xs) none (λ b i. do v ← slice b i (i + n); ret (some v)) r a
        (rw (slice_lem b r.off (r.off + n) (omega arith) (room b xs rest r a), e) refl)

module _ (b rest : Bytes) (r : Reader) where
  short_size : (n : ℕ) → n < 254 → At b (n ∷ rest) r → Reads b n rest (read_size r)
  unfolding read_size
  short_size n h a =
      let (r1, e1, a1) = read_byte-Reads b rest r n a in
      let c : (r1.failed || n == 255) ≡ false = ground (arith, a1.sound) in
      (r1, rw (e1, c, lt→ltb n 254 h) refl, a1)

  long_size-Reads :
      (n : ℕ) → n < 2 ^ 31 → At b (254 ∷ (put32 n ++ rest)) r → Reads b n rest (read_size r)
  unfolding read_size
  long_size-Reads n h a =
      let (r1, e1, a1) = read_byte-Reads b (put32 n ++ rest) r 254 a in
      let (r2, e2, a2) = read_int32-Reads b rest r1 n (omega arith) a1 in
      let c : (r1.failed || 254 == 255) ≡ false = ground (arith, a1.sound) in
      let d : leb 2147483648 n ≡ false = ground arith in (r2, rw (e1, c, e2, d) refl, a2)

  pub read_size-Reads :
      (n : ℕ) → n < 2 ^ 31 → At b (put_size n ++ rest) r → Reads b n rest (read_size r)
  unfolding put_size
  read_size-Reads n h a = elim (Bool-cases (ltb n 254)) [
    | inl short ↦
        let small : n < 254 = ltb→lt n 254 short in
        let same : put_size n ≡ n ∷ [] = rw short (ap (λ k. k ∷ []) (omega arith)) in
        short_size n small (subst (λ t. At b (t ++ rest) r) same a)
    | inr long ↦
        let same : put_size n ≡ 254 ∷ put32 n = rw long (ap (λ k. 254 ∷ put32 k) (omega arith)) in
        long_size-Reads n h (subst (λ t. At b (t ++ rest) r) same a)
  ]

module _ (b rest : Bytes) (r : Reader) where
  pub read_str-Reads :
      (s : Bytes) → length s < 2 ^ 31 → At b (put_str s ++ rest) r → Reads b s rest (read_str r)
  unfolding read_str put_str
  read_str-Reads s h a =
      let a' : At b (put_size (length s) ++ (s ++ rest)) r =
        subst (λ t. At b t r) (append_assoc (put_size (length s)) s rest) a in
      let (r1, e1, a1) = read_size-Reads b (s ++ rest) r (length s) h a' in
      let (r2, e2, a2) = read_bytes-Reads b rest r1 s a1 in (r2, rw (e1, a1.sound, e2) refl, a2)

module _ (b rest : Bytes) (r : Reader) where
  pub read_no_addr-Reads :
      At b (put_addr Addr.invalid ++ rest) r → Reads b (Addr.v6 0) rest (read_addr r)
  unfolding read_addr put_addr number_from unmap
  read_no_addr-Reads a =
      let (r1, e1, a1) = read_bytes-Reads b rest r (put_addr Addr.invalid) a in (r1, rw e1 refl, a1)

  mapped_number : (n : ℕ) → n < 4294967296 → addr_of (some (put_addr (Addr.v4 n))) ≡ Addr.v4 n
  unfolding put_addr number_from unmap
  mapped_number n h = ground arith

  pub read_addr-Reads :
      (n : ℕ)
      → n < 4294967296
      → At b (put_addr (Addr.v4 n) ++ rest) r
      → Reads b (Addr.v4 n) rest (read_addr r)
  unfolding read_addr put_addr
  read_addr-Reads n h a =
      let (r1, e1, a1) = read_bytes-Reads b rest r (put_addr (Addr.v4 n)) a in
      (r1, rw e1 (ap (λ x. ret (x, r1)) (mapped_number n h)), a1)

list_step {ℓ} :
    {A : Type ℓ} (read : Reader → Go (A × Reader)) (n : ℕ) (out : List A) (r r1 : Reader) (x : A)
    → r.failed ≡ false
    → read r ≡ ret (x, r1)
    → read_list read (suc n) out r ≡ read_list read n (out ++ (x ∷ [])) r1
unfolding read_list
list_step read n out r r1 x s e = rw (e, s) refl

-- Lists of values that are put one after the other.
module _ {ℓ} {A : Type ℓ} (read : Reader → Go (A × Reader)) (put : A → Bytes) (P : A → Type 0)
    (one : (x : A)
      → P x
      → (b rest : Bytes) (r : Reader) → At b (put x ++ rest) r
      → Reads b x rest (read r)) where
  pub read_list-Reads :
      (xs out : List A) (b rest : Bytes) (r : Reader)
      → All P xs
      → At b (put_list put xs ++ rest) r
      → Reads b (out ++ xs) rest (read_list read (length xs) out r)
  unfolding read_list put_list
  read_list-Reads [] out b rest r h a = (r, ap (λ t. ret (t, r)) (sym (append-nil out)), a)
  read_list-Reads (x ∷ xs) out b rest r (p, ps) a =
      let a' : At b (put x ++ (put_list put xs ++ rest)) r =
        subst (λ t. At b t r) (append_assoc (put x) (put_list put xs) rest) a in
      let (r1, e1, a1) = one x p b (put_list put xs ++ rest) r a' in
      let (r2, e2, a2) = read_list-Reads xs (out ++ (x ∷ [])) b rest r1 ps a1 in
      (
        r2,
        list_step read (length xs) out r r1 x a.sound e1
            ∙ e2
            ∙ ap (λ t. ret (t, r2)) (append_assoc out (x ∷ []) xs),
        a2,
      )

pub Reads-bind {ℓ κ} :
    {A : Type ℓ} {B : Type κ} (b rest end : Bytes) (x : A) (y : B) (m : Go (A × Reader))
    (f : A × Reader → Go (B × Reader))
    → Reads b x rest m
    → ((r : Reader) → At b rest r → Reads b y end (f (x, r)))
    → Reads b y end (m >>= f)
Reads-bind b rest end x y m f (r, e, a) k = let (r', e', a') = k r a in (r', rw e e', a')

module _ (b rest : Bytes) (r : Reader) where
  -- A list of one text, and a text at the end of the buffer.
  pub read_one_str-Reads :
      (s : Bytes)
      → length s < 2 ^ 31
      → At b (put_str s ++ rest) r
      → Reads b (s ∷ []) rest (read_list read_str 1 [] r)
  unfolding read_list
  read_one_str-Reads s h a =
      let (r1, e1, a1) = read_str-Reads b rest r s h a in (r1, rw (e1, a.sound) refl, a1)

pub read_last_str-Reads :
    (b : Bytes) (r : Reader) (s : Bytes)
    → length s < 2 ^ 31
    → At b (put_str s) r
    → Reads b s [] (read_str r)
read_last_str-Reads b r s h a =
    read_str-Reads b [] r s h (subst (λ t. At b t r) (sym (append-nil (put_str s))) a)
