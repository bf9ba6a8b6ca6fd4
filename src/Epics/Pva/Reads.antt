-- ===== src/Epics/Pva/Reads.antt =====
-- What each read of the reader does: it returns, it stays in the buffer, and on the bytes of a value
-- it gives this value.
use wirepup.Base.{
  ℕ, zero, suc, ◌+◌, ◌≤◌, ◌||◌, none, some, List, [], ◌∷◌, ◌++◌, ◌≡◌, refl, ap, inl, inr, arith,
  ltb, ◌==◌, length, Bytes, Ensures, Ensures-bind, Ensures-if, Go, ret, ◌>>=◌, index, slice, be16,
  be32, Bool-cases, index_lem, slice_lem,
}
use wirepup.Epics.Pva.{le16, le32, order16, order32}
use wirepup.Epics.Pva.Reader.{
  Reader, reading, read_byte, skip, read_bytes, read_uint16, read_int32, long_size, read_size,
  read_str, read_addr, read_status, read_list,
}

-- The offset is in the buffer, which is the one that the reader began with.
abbrev pub Within : Bytes → Reader → Type 0
Within b r = (r.b ≡ b) × (r.off ≤ length b)

-- A call that returns a reader on the same buffer.
abbrev pub Stays {ℓ} : {A : Type ℓ} → Bytes → Go (A × Reader) → Type 0
Stays b m = Ensures (λ x. Within b x.1) m

module _ {ℓ} {A : Type ℓ} (b : Bytes) where
  pub reading-Stays :
      (n : ℕ) (default : A) (f : Bytes → ℕ → Go A) (r : Reader)
      → ((i : ℕ) → i + n ≤ length b → Ensures (λ a. Unit) (f b i))
      → Within b r
      → Stays b (reading n default f r)
  unfolding reading
  reading-Stays n default f r h (e, l) =
      elim (Bool-cases (r.failed || ltb (length r.b) (r.off + n))) [
        | inl bad ↦ rw bad (e, l)
        | inr good ↦
            let room : r.off + n ≤ length b = ground (arith, good, ap length e) in
            rw (good, e)
              (Ensures-bind (λ a. Unit) (λ x. Within b x.1) (f b r.off) _ (h r.off room)
                (λ a u. (refl, room)))
      ]

  pub Stays-bind {κ} :
      {B : Type κ} (Q : B → Type 0) (m : Go (A × Reader)) (f : A × Reader → Go B)
      → Stays b m
      → ((a : A) (r : Reader) → Within b r → Ensures Q (f (a, r)))
      → Ensures Q (m >>= f)
  Stays-bind Q m f h k = Ensures-bind (λ x. Within b x.1) Q m f h (λ x w. k x.0 x.1 w)

module _ (b : Bytes) (r : Reader) (w : Within b r) where
  pub read_byte-Stays : Stays b (read_byte r)
  read_byte-Stays = reading-Stays b 1 0 index r (λ i h. rw (index_lem b i (omega arith)) tt) w

  pub skip-Within : (n : ℕ) → Within b (skip n r)
  unfolding skip
  skip-Within n = elim (Bool-cases (r.failed || ltb (length r.b) (r.off + n))) [
    | inl bad ↦ rw bad w
    | inr good ↦ rw good (w.0, ground (arith, good, ap length w.0))
  ]

  pub read_bytes-Stays : (n : ℕ) → Stays b (read_bytes n r)
  read_bytes-Stays n =
      reading-Stays b n none (λ b i. do v ← slice b i (i + n); ret (some v)) r
        (λ i h. rw (slice_lem b i (i + n) (omega arith) h) tt) w

  pub read_uint16-Stays : Stays b (read_uint16 r)
  unfolding be16 le16
  read_uint16-Stays = reading-Stays b 2 0 (order16 r.big) r (λ i h. ground arith) w

  pub read_int32-Stays : Stays b (read_int32 r)
  unfolding be32 le32
  read_int32-Stays = reading-Stays b 4 0 (order32 r.big) r (λ i h. ground arith) w

module _ (b : Bytes) where
  long_size-Within : (n : ℕ) (r : Reader) → Within b r → Within b (long_size (n, r)).1
  long_size-Within n r w = ground (arith, w)

  pub read_size-Stays : (r : Reader) → Within b r → Stays b (read_size r)
  unfolding read_size
  read_size-Stays r w = Stays-bind b _ (read_byte r) _ (read_byte-Stays b r w) (λ v r1 w1.
      Ensures-if _ (r1.failed || v == 255) _ _ (λ e. w1)
        (λ e.
          Ensures-if _ (ltb v 254) _ _ (λ f. w1)
            (λ f.
              Stays-bind b _ (read_int32 r1) _ (read_int32-Stays b r1 w1)
                (λ n r2 w2. long_size-Within n r2 w2))))

  pub read_str-Stays : (r : Reader) → Within b r → Stays b (read_str r)
  unfolding read_str
  read_str-Stays r w = Stays-bind b _ (read_size r) _ (read_size-Stays r w) (λ n r1 w1.
      Ensures-if _ r1.failed _ _ (λ e. w1)
        (λ e. Stays-bind b _ (read_bytes n r1) _ (read_bytes-Stays b r1 w1 n) (λ v r2 w2. w2)))

  pub read_addr-Stays : (r : Reader) → Within b r → Stays b (read_addr r)
  unfolding read_addr
  read_addr-Stays r w =
      Stays-bind b _ (read_bytes 16 r) _ (read_bytes-Stays b r w 16) (λ v r1 w1. w1)

  pub read_status-Stays : (r : Reader) → Within b r → Stays b (read_status r)
  unfolding read_status
  read_status-Stays r w = Stays-bind b _ (read_byte r) _ (read_byte-Stays b r w) (λ t r1 w1.
      Ensures-if _ r1.failed _ _ (λ e. w1)
        (λ e.
          Ensures-if _ (t == 0xff) _ _ (λ f. w1)
            (λ f.
              Stays-bind b _ (read_str r1) _ (read_str-Stays r1 w1) (λ v r2 w2.
                Stays-bind b _ (read_str r2) _ (read_str-Stays r2 w2) (λ u r3 w3. w3)))))

  module _ {ℓ} {A : Type ℓ} (read : Reader → Go (A × Reader))
      (h : (r : Reader) → Within b r → Stays b (read r)) where
    pub read_list-Stays :
        (n : ℕ) (out : List A) (r : Reader) → Within b r → Stays b (read_list read n out r)
    unfolding read_list
    read_list-Stays zero out r w = w
    read_list-Stays (suc n) out r w =
        Ensures-if _ r.failed _ _ (λ e. w)
          (λ e.
            Stays-bind b _ (read r) _ (h r w)
              (λ v r1 w1. read_list-Stays n (out ++ (v ∷ [])) r1 w1))
