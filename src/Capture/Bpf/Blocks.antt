-- ===== src/Capture/Bpf/Blocks.antt =====
-- What the blocks of internal/capture/bpf/bpf.go say of a frame.
use Prim.Native.Nat.{bit_and}
use wirepup.Base.{
  ℕ, suc, ◌-◌, ◌+◌, ◌*◌, ◌%◌, true, false, ◌&&◌, List, [], ◌∷◌, ◌≡◌, refl, arith, inl, inr, leb,
  ◌==◌, if◌then◌else◌, length, Bytes, byte, be16_at, Bool-cases,
}
use wirepup.Capture.Bpf.{
  Rule, Pending, ipv4_block, ipv6_block, plain, jump, op_ld_half_abs, op_jeq_k, target_accept,
  target_next, target_index, op_jset_k, op_ldx_msh_byte, op_ld_half_ind, op_ld_byte_abs,
}
use wirepup.Capture.Bpf.Machine.{effect}
use wirepup.Capture.Bpf.Link.{walk, continue}
use wirepup.Capture.Bpf.Chain.{Verdict, take, pass, refuse, Ends}

-- A test that needs the first `n` bytes of the frame.
abbrev needs : ℕ → Bytes → Verdict → Verdict
needs n frame v = if leb n (length frame) then v else refuse

abbrev pub ether_verdict : ℕ → Bytes → Verdict
ether_verdict e frame = needs 14 frame (if be16_at frame 12 == e then take else pass)

abbrev port4_verdict : ℕ → Bytes → Verdict
port4_verdict port frame =
    let h = 4 * (byte frame 14 % 16) in
    needs 22 frame (
      if bit_and (be16_at frame 20) 0x1fff == 0
      then needs (h + 14 + 2) frame (
          if be16_at frame (h + 14) == port
          then take
          else needs (h + 16 + 2) frame (if be16_at frame (h + 16) == port then take else pass))
      else pass)

abbrev port6_verdict : ℕ → Bytes → Verdict
port6_verdict port frame = needs 56 frame (
    if be16_at frame 54 == port
    then take
    else needs 58 frame (if be16_at frame 56 == port then take else pass))

abbrev proto_verdict : ℕ → ℕ → Bytes → Verdict → Verdict
proto_verdict off proto frame v =
    if proto == 0 then v else needs (off + 1) frame (if byte frame off == proto then v else pass)

abbrev pub ipv4_verdict : Rule → Bytes → Verdict
ipv4_verdict r frame = needs 14 frame (
    if be16_at frame 12 == 0x0800
    then proto_verdict 23 r.ip_proto frame
        (if r.port == 0 then take else port4_verdict r.port frame)
    else pass)

abbrev pub ipv6_verdict : Rule → Bytes → Verdict
ipv6_verdict r frame = needs 14 frame (
    if be16_at frame 12 == 0x86dd
    then proto_verdict 20 r.ip_proto frame
        (if r.port == 0 then take else port6_verdict r.port frame)
    else pass)

pub ether_block-Ends :
    (e : ℕ) (frame : Bytes) (a x : ℕ)
    → Ends (ether_verdict e frame) (
        walk frame 0
          (plain op_ld_half_abs 12 ∷ jump op_jeq_k target_accept target_next e ∷ [])
          0
          a
          x)
unfolding walk effect
ether_block-Ends e frame a x = ground arith

walk-zero :
    (frame : Bytes) (pos : ℕ) (p : Pending) (ps : List Pending) (a x : ℕ)
    → walk frame pos (p ∷ ps) 0 a x
      ≡ continue (walk frame (suc pos) ps) pos p a x (effect p.code p.k a x frame)
unfolding walk
walk-zero frame pos p ps a x = refl

-- The code for a port, at `pos`, whose inner jumps go to `m` and `m'`.
abbrev port6_code : ℕ → ℕ → List Pending
port6_code m port =
    plain op_ld_half_abs 54
    ∷ jump op_jeq_k target_accept (target_index m) port
    ∷ plain op_ld_half_abs 56
    ∷ jump op_jeq_k target_accept target_next port
    ∷ []

port6_code-Ends :
    (pos m port : ℕ) (frame : Bytes) (a x : ℕ)
    → m - (suc pos + 1) ≡ 0
    → Ends (port6_verdict port frame) (walk frame pos (port6_code m port) 0 a x)
unfolding effect
port6_code-Ends pos m port frame a x z = rw walk-zero (elim (Bool-cases (leb 56 (length frame))) [
  | inr e ↦ rw e tt
  | inl e ↦
      rw (e, walk-zero)
        (elim (Bool-cases (be16_at frame 54 == port)) [
          | inl f ↦ rw f tt
          | inr f ↦
              rw (f, z, walk-zero)
                (elim (Bool-cases (leb 58 (length frame))) [
                  | inr g ↦ rw g tt
                  | inl g ↦
                      rw (g, walk-zero)
                        (elim (Bool-cases (be16_at frame 56 == port)) [
                          | inl h ↦ rw h tt
                          | inr h ↦ rw h tt
                        ])
                ])
        ])
])

abbrev port4_code : ℕ → ℕ → ℕ → List Pending
port4_code m m' port =
    plain op_ld_half_abs 20
    ∷ jump op_jset_k target_next (target_index m) 0x1fff
    ∷ plain op_ldx_msh_byte 14
    ∷ plain op_ld_half_ind 14
    ∷ jump op_jeq_k target_accept (target_index m') port
    ∷ plain op_ld_half_ind 16
    ∷ jump op_jeq_k target_accept target_next port
    ∷ []

port4_code-Ends :
    (pos m m' port : ℕ) (frame : Bytes) (a x : ℕ)
    → m - (suc pos + 1) ≡ 0
    → m' - (suc (suc (suc (suc pos))) + 1) ≡ 0
    → Ends (port4_verdict port frame) (walk frame pos (port4_code m m' port) 0 a x)
unfolding effect
port4_code-Ends pos m m' port frame a x z z' =
    rw walk-zero (elim (Bool-cases (leb 22 (length frame))) [
      | inr e ↦ rw e tt
      | inl e ↦
          let l : leb 15 (length frame) ≡ true = ground (arith, e) in
          rw (e, walk-zero)
            (elim (Bool-cases (bit_and (be16_at frame 20) 0x1fff == 0)) [
              | inr f ↦ rw f tt
              | inl f ↦
                  let h = 4 * (byte frame 14 % 16) in
                  rw (f, z, walk-zero, l, walk-zero)
                    (elim (Bool-cases (leb (h + 14 + 2) (length frame))) [
                      | inr g ↦ rw g tt
                      | inl g ↦
                          rw (g, walk-zero)
                            (elim (Bool-cases (be16_at frame (h + 14) == port)) [
                              | inl q ↦ rw q tt
                              | inr q ↦
                                  rw (q, z', walk-zero)
                                    (elim (Bool-cases (leb (h + 16 + 2) (length frame))) [
                                      | inr s ↦ rw s tt
                                      | inl s ↦
                                          rw (s, walk-zero)
                                            (elim (Bool-cases (be16_at frame (h + 16) == port)) [
                                              | inl u ↦ rw u tt
                                              | inr u ↦ rw u tt
                                            ])
                                    ])
                            ])
                    ])
            ])
    ])

-- The test of the EtherType, before the code `rest` of the block.
head-Ends :
    (e : ℕ) (v : Verdict) (rest : List Pending) (frame : Bytes) (a x : ℕ)
    → ((a x : ℕ) → Ends v (walk frame 2 rest 0 a x))
    → Ends (needs 14 frame (if be16_at frame 12 == e then v else pass)) (
        walk frame 0
          (plain op_ld_half_abs 12 ∷ jump op_jeq_k (target_index 2) target_next e ∷ rest)
          0
          a
          x)
unfolding effect
head-Ends e v rest frame a x ih = rw walk-zero (elim (Bool-cases (leb 14 (length frame))) [
  | inr f ↦ rw f tt
  | inl f ↦
      rw (f, walk-zero)
        (elim (Bool-cases (be16_at frame 12 == e)) [ inl g ↦ rw g (ih _ _) | inr g ↦ rw g tt ])
])

-- The test of the protocol, before the code `rest`.
proto-Ends :
    (off proto : ℕ) (v : Verdict) (rest : List Pending) (frame : Bytes) (a x : ℕ)
    → ((a x : ℕ) → Ends v (walk frame 4 rest 0 a x))
    → Ends (needs (off + 1) frame (if byte frame off == proto then v else pass)) (
        walk frame 2
          (plain op_ld_byte_abs off ∷ jump op_jeq_k (target_index 4) target_next proto ∷ rest)
          0
          a
          x)
unfolding effect
proto-Ends off proto v rest frame a x ih =
    rw walk-zero (elim (Bool-cases (leb (off + 1) (length frame))) [
      | inr f ↦ rw f tt
      | inl f ↦
          rw (f, walk-zero)
            (elim (Bool-cases (byte frame off == proto)) [
              | inl g ↦ rw g (ih _ _)
              | inr g ↦ rw g tt
            ])
    ])

-- The same where no port is tested.
last_proto-Ends :
    (off proto : ℕ) (frame : Bytes) (a x : ℕ)
    → Ends (needs (off + 1) frame (if byte frame off == proto then take else pass)) (
        walk frame 2
          (plain op_ld_byte_abs off ∷ jump op_jeq_k target_accept target_next proto ∷ [])
          0
          a
          x)
unfolding effect
last_proto-Ends off proto frame a x =
    rw walk-zero (elim (Bool-cases (leb (off + 1) (length frame))) [
      | inr f ↦ rw f tt
      | inl f ↦
          rw (f, walk-zero)
            (elim (Bool-cases (byte frame off == proto)) [ inl g ↦ rw g tt | inr g ↦ rw g tt ])
    ])

module _ (r : Rule) (frame : Bytes) (a x : ℕ) (h : (r.ip_proto == 0 && r.port == 0) ≡ false) where
  pub ipv6_block-Ends : Ends (ipv6_verdict r frame) (walk frame 0 (ipv6_block r) 0 a x)
  unfolding ipv6_block
  ipv6_block-Ends = elim (Bool-cases (r.ip_proto == 0)) [
    | inl p ↦ elim (Bool-cases (r.port == 0)) [
      | inl q ↦ absurd (ground (arith, h, p, q))
      | inr q ↦
          rw (p, q)
            (head-Ends 0x86dd (port6_verdict r.port frame) (port6_code 4 r.port) frame a x
              (λ a x. port6_code-Ends 2 4 r.port frame a x refl))
    ]
    | inr p ↦ elim (Bool-cases (r.port == 0)) [
      | inl q ↦ rw (p, q) (head-Ends 0x86dd _ _ frame a x (last_proto-Ends 20 r.ip_proto frame))
      | inr q ↦
          rw (p, q)
            (head-Ends 0x86dd _ _ frame a x (λ a x.
              proto-Ends 20 r.ip_proto _ _ frame a x
                (λ a x. port6_code-Ends 4 6 r.port frame a x refl)))
    ]
  ]

  pub ipv4_block-Ends : Ends (ipv4_verdict r frame) (walk frame 0 (ipv4_block r) 0 a x)
  unfolding ipv4_block
  ipv4_block-Ends = elim (Bool-cases (r.ip_proto == 0)) [
    | inl p ↦ elim (Bool-cases (r.port == 0)) [
      | inl q ↦ absurd (ground (arith, h, p, q))
      | inr q ↦
          rw (p, q)
            (head-Ends 0x0800 (port4_verdict r.port frame) (port4_code 4 7 r.port) frame a x
              (λ a x. port4_code-Ends 2 4 7 r.port frame a x refl refl))
    ]
    | inr p ↦ elim (Bool-cases (r.port == 0)) [
      | inl q ↦ rw (p, q) (head-Ends 0x0800 _ _ frame a x (last_proto-Ends 23 r.ip_proto frame))
      | inr q ↦
          rw (p, q)
            (head-Ends 0x0800 _ _ frame a x (λ a x.
              proto-Ends 23 r.ip_proto _ _ frame a x
                (λ a x. port4_code-Ends 4 6 9 r.port frame a x refl refl)))
    ]
  ]
