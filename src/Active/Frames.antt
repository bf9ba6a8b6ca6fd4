-- ===== src/Active/Frames.antt =====
-- The frames of ARPFrame and ProbeFrame, read back by parseARP (internal/active/active.go).
use wirepup.Base.{
  ℕ, ◌<◌, not, ◌&&◌, Option, none, some, [], ◌∷◌, ◌++◌, ◌≡◌, ◌⊎◌, inl, inr, refl, sym, ap, ◌∙◌,
  arith, Bool-cases, ◌==◌, if◌then◌else◌, length, take, length-take, length-append, take-append,
  replicate, Bytes, put16, put32, put32_lem, ret, ◌>>=◌, ok, be16, from, index, slice,
}
use wirepup.Net.{v4, addr4_at, addr_eq, bytes_eq, is_unspecified}
use wirepup.Protocol.Arp
use wirepup.Protocol.Arp.{Role, probe, announcement, reply, request}
use wirepup.Active.{
  Reply, arp_frame, probe_frame, parse_arp, parsed_reply, reply_of, as4, destination, target_field,
  copied, conflicts, conflicts_kind,
}

-- The role of an ARP packet with this operation, sender and target.
abbrev pub role_of : ℕ → ℕ → ℕ → Role
role_of op sender target =
    if op == 1 && sender == 0
    then probe
    else if sender == target
    then announcement
    else if op == 2
    then reply
    else request

-- The 28 bytes behind the Ethernet header.
abbrev arp_body : Bytes → ℕ → ℕ → Bytes → ℕ → Bytes
arp_body src op s t r =
    put16 1 ++ (put16 0x0800 ++ (6 ∷ 4 ∷ (put16 op ++ (src ++ (put32 s ++ (t ++ put32 r))))))

parse-arp_body :
    (m0 m1 m2 m3 m4 m5 op s t0 t1 t2 t3 t4 t5 r : ℕ)
    → (op ≡ 1) ⊎ (op ≡ 2)
    → s < 4294967296
    → r < 4294967296
    → Arp.parse
        (arp_body (m0 ∷ m1 ∷ m2 ∷ m3 ∷ m4 ∷ m5 ∷ []) op s (t0 ∷ t1 ∷ t2 ∷ t3 ∷ t4 ∷ t5 ∷ []) r)
      ≡ ret (
          ok (record {
            op = op;
            sender_mac = m0 ∷ m1 ∷ m2 ∷ m3 ∷ m4 ∷ m5 ∷ [];
            sender_ip = v4 s;
            target_mac = t0 ∷ t1 ∷ t2 ∷ t3 ∷ t4 ∷ t5 ∷ [];
            target_ip = v4 r;
          }))
unfolding Arp.parse be16 index slice addr4_at
parse-arp_body m0 m1 m2 m3 m4 m5 op s t0 t1 t2 t3 t4 t5 r (inl o) h k =
    rw (o, put32_lem s h, put32_lem r k) refl
parse-arp_body m0 m1 m2 m3 m4 m5 op s t0 t1 t2 t3 t4 t5 r (inr o) h k =
    rw (o, put32_lem s h, put32_lem r k) refl

pub reply_with : Bytes → ℕ → ℕ → ℕ → Reply
reply_with src op s r = record { mac = src; ip = v4 s; kind = role_of op s r; target_ip = v4 r }

-- A list of six bytes, written out.
six :
    (b : Bytes)
    → length b ≡ 6
    → (b0 : ℕ) × (b1 : ℕ) × (b2 : ℕ) × (b3 : ℕ) × (b4 : ℕ) × (b5 : ℕ) × (b
        ≡ b0 ∷ b1 ∷ b2 ∷ b3 ∷ b4 ∷ b5 ∷ [])
six (b0 ∷ b1 ∷ b2 ∷ b3 ∷ b4 ∷ b5 ∷ []) h = (b0, b1, b2, b3, b4, b5, refl)
six [] h = absurd (omega arith)
six (_ ∷ []) h = absurd (omega arith)
six (_ ∷ _ ∷ []) h = absurd (omega arith)
six (_ ∷ _ ∷ _ ∷ []) h = absurd (omega arith)
six (_ ∷ _ ∷ _ ∷ _ ∷ []) h = absurd (omega arith)
six (_ ∷ _ ∷ _ ∷ _ ∷ _ ∷ []) h = absurd (omega arith)
six (_ ∷ _ ∷ _ ∷ _ ∷ _ ∷ _ ∷ _ ∷ _) h = absurd (omega arith)

copied-length : (b : Bytes) → length (copied 6 b) ≡ 6
copied-length b = omega (arith, length-take 6 (b ++ replicate 6 0), length-append b (replicate 6 0))

copied_all : (b : Bytes) → length b ≡ 6 → copied 6 b ≡ b
copied_all b h = ap (λ n. take n (b ++ replicate 6 0)) (sym h) ∙ take-append b (replicate 6 0)

target_field-length : (t : Option Bytes) → length (target_field t) ≡ 6
unfolding target_field
target_field-length none = refl
target_field-length (some mac) = copied-length mac

parse_written :
    (d0 d1 d2 d3 d4 d5 m0 m1 m2 m3 m4 m5 op s t0 t1 t2 t3 t4 t5 r : ℕ)
    → (op ≡ 1) ⊎ (op ≡ 2)
    → s < 4294967296
    → r < 4294967296
    → parse_arp (
        d0
        ∷ d1
        ∷ d2
        ∷ d3
        ∷ d4
        ∷ d5
        ∷ m0
        ∷ m1
        ∷ m2
        ∷ m3
        ∷ m4
        ∷ m5
        ∷ 8
        ∷ 6
        ∷ arp_body (m0 ∷ m1 ∷ m2 ∷ m3 ∷ m4 ∷ m5 ∷ []) op s (t0 ∷ t1 ∷ t2 ∷ t3 ∷ t4 ∷ t5 ∷ []) r)
      ≡ ret (some (reply_with (m0 ∷ m1 ∷ m2 ∷ m3 ∷ m4 ∷ m5 ∷ []) op s r))
unfolding parse_arp parsed_reply reply_of be16 from reply_with Arp.classify addr_eq is_unspecified
parse_written d0 d1 d2 d3 d4 d5 m0 m1 m2 m3 m4 m5 op s t0 t1 t2 t3 t4 t5 r o h k =
    rw (parse-arp_body m0 m1 m2 m3 m4 m5 op s t0 t1 t2 t3 t4 t5 r o h k) refl

parse_frame :
    (d src t : Bytes) (op s r : ℕ)
    → length d ≡ 6
    → length src ≡ 6
    → length t ≡ 6
    → (op ≡ 1) ⊎ (op ≡ 2)
    → s < 4294967296
    → r < 4294967296
    → parse_arp (d ++ (src ++ (put16 0x0806 ++ arp_body src op s t r)))
      ≡ ret (some (reply_with src op s r))
parse_frame d src t op s r dl sl tl o h k =
    let (d0, d1, d2, d3, d4, d5, de) = six d dl in
    let (m0, m1, m2, m3, m4, m5, me) = six src sl in
    let (t0, t1, t2, t3, t4, t5, te) = six t tl in
    rw (de, me, te)
      (parse_written d0 d1 d2 d3 d4 d5 m0 m1 m2 m3 m4 m5 op s t0 t1 t2 t3 t4 t5 r o h k)

-- A frame that `ARPFrame` builds from a sender's six-byte MAC address, operation 1 or 2 and two IPv4
-- addresses, whatever MAC address the target has, is read by `parseARP` as that sender's packet, with
-- both addresses and with the role that the operation and the addresses say.
pub arp_frame-parse_arp :
    (src : Bytes) (op s : ℕ) (target : Option Bytes) (r : ℕ)
    → length src ≡ 6
    → (op ≡ 1) ⊎ (op ≡ 2)
    → s < 4294967296
    → r < 4294967296
    → (arp_frame src op (v4 s) target (v4 r) >>= parse_arp) ≡ ret (some (reply_with src op s r))
unfolding arp_frame as4
arp_frame-parse_arp src op s target r l o h k = rw (copied_all src l) (
    parse_frame (copied 6 (destination op target)) src (target_field target) op s r
      (copied-length (destination op target)) l (target_field-length target) o h k)

-- A probe for one IPv4 address from a six-byte MAC address, heard while this host, which has another
-- MAC address, claims an IPv4 address: it counts as a conflict exactly if both addresses are equal.
-- A probe of this host itself never does.
pub probe_frame-conflicts :
    (src self : Bytes) (probed claimed : ℕ)
    → length src ≡ 6
    → probed < 4294967296
    → (q : Reply) × ((probe_frame src (v4 probed) >>= parse_arp) ≡ ret (some q))
      × (conflicts q (v4 claimed) self ≡ (not (bytes_eq src self) && probed == claimed))
unfolding probe_frame conflicts conflicts_kind reply_with addr_eq
probe_frame-conflicts src self probed claimed l h = (
  reply_with src 1 0 probed,
  arp_frame-parse_arp src 1 0 none probed l (inl refl) (omega arith) h,
  elim (Bool-cases (bytes_eq src self)) [ inl e ↦ rw e refl | inr e ↦ rw e refl ],
)
