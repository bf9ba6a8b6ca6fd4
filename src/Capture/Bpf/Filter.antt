-- ===== src/Capture/Bpf/Filter.antt =====
-- `Assemble` of internal/capture/bpf/bpf.go: the program accepts the frames that match a rule.
use Prim.Native.Nat.{bit_and}
use wirepup.Base.{
  ℕ, ◌+◌, ◌*◌, ◌%◌, ◌≤◌, Bool, true, false, ◌&&◌, ◌||◌, List, [], ◌∷◌, ◌++◌, ◌≡◌, ◌≢◌, ◌⊎◌, refl,
  ap, ◌∙◌, arith, inl, inr, ◌==◌, if◌then◌else◌, length, Bytes, byte, be16_at, Bool-cases, ok, ret,
}
use mathlib.Core.Path.{subst}
use wirepup.Capture.Bpf.{
  Rule, Pending, Instruction, blocks_for, ipv4_block, ipv6_block, all_blocks, assemble, link,
  accept_length,
}
use wirepup.Capture.Bpf.Machine.{run}
use wirepup.Capture.Bpf.Link.{walk, and_then-ok, ok-injective}
use wirepup.Capture.Bpf.Chain.{Verdict, take, pass, refuse, Ends, Judged, decide, link-decide}
use wirepup.Capture.Bpf.Blocks.{
  ether_verdict, ipv4_verdict, ipv6_verdict, ether_block-Ends, ipv4_block-Ends, ipv6_block-Ends,
}

-- An IPv4 frame of the rule's protocol and port, the port of a first fragment on either side.
abbrev pub carries4 : Rule → Bytes → Bool
carries4 r frame =
    let h = 4 * (byte frame 14 % 16) in
    be16_at frame 12 == 0x0800
    && (r.ip_proto == 0 || byte frame 23 == r.ip_proto)
    && (r.port == 0
        || bit_and (be16_at frame 20) 0x1fff == 0
          && (be16_at frame (h + 14) == r.port || be16_at frame (h + 16) == r.port))

-- An IPv6 frame of the rule's protocol and port, right behind the fixed header.
abbrev pub carries6 : Rule → Bytes → Bool
carries6 r frame =
    be16_at frame 12 == 0x86dd
    && (r.ip_proto == 0 || byte frame 20 == r.ip_proto)
    && (r.port == 0 || (be16_at frame 54 == r.port || be16_at frame 56 == r.port))

-- What a rule says: every field that is not zero.
unfoldable pub matches : Rule → Bytes → Bool
matches r frame =
    if r.ip_proto == 0 && r.port == 0
    then be16_at frame 12 == r.ether_type
    else if r.ether_type == 0
    then carries4 r frame || carries6 r frame
    else if r.ether_type == 0x0800
    then carries4 r frame
    else carries6 r frame

unfoldable pub matches_any : List Rule → Bytes → Bool
matches_any [] frame = false
matches_any (r ∷ rs) frame = matches r frame || matches_any rs frame

-- A verdict takes no frame that does not match, and is the test itself on a frame long enough.
abbrev Honest : Bytes → Verdict → Bool → Type 0
Honest frame v m = (v ≡ take → m ≡ true) × (78 ≤ length frame → v ≡ (if m then take else pass))

ether-Honest :
    (e : ℕ) (frame : Bytes) → Honest frame (ether_verdict e frame) (be16_at frame 12 == e)
ether-Honest e frame = ground arith

ipv6-Honest : (r : Rule) (frame : Bytes) → Honest frame (ipv6_verdict r frame) (carries6 r frame)
ipv6-Honest r frame = ground arith

ipv4-Honest : (r : Rule) (frame : Bytes) → Honest frame (ipv4_verdict r frame) (carries4 r frame)
ipv4-Honest r frame = ground arith

-- The verdicts of blocks, which go with a test of the frame.
record Reading (frame : Bytes) (bs : List (List Pending)) (m : Bool) : Type 0 where
  verdicts : List Verdict
  judged : Judged frame bs verdicts
  sound : (decide verdicts ≡ 0) ⊎ ((decide verdicts ≡ accept_length) × (m ≡ true))
  exact : 78 ≤ length frame → decide verdicts ≡ (if m then accept_length else 0)

-- One block before others.
cons-Reading :
    (frame : Bytes) (b : List Pending) (bs : List (List Pending)) (v : Verdict) (m n : Bool)
    → ((a x : ℕ) → Ends v (walk frame 0 b 0 a x))
    → Honest frame v m
    → Reading frame bs n
    → Reading frame (b ∷ bs) (m || n)
unfolding decide
cons-Reading frame b bs take m n e h r = record {
  verdicts = take ∷ r.verdicts;
  judged = (e, r.judged);
  sound = inr (refl, ground (arith, h.0 refl));
  exact = λ l. ground (arith, h.0 refl);
}
cons-Reading frame b bs pass m n e h r = record {
  verdicts = pass ∷ r.verdicts;
  judged = (e, r.judged);
  sound = elim r.sound [ inl z ↦ inl z | inr (z, t) ↦ inr (z, ground (arith, t)) ];
  exact = λ l. ground (arith, h.1 l, r.exact l);
}
cons-Reading frame b bs refuse m n e h r = record {
  verdicts = refuse ∷ r.verdicts;
  judged = (e, r.judged);
  sound = inl refl;
  exact = λ l. ground (arith, h.1 l);
}

nil-Reading : (frame : Bytes) → Reading frame [] false
unfolding decide
nil-Reading frame = record { verdicts = []; judged = tt; sound = inl refl; exact = λ l. refl }

or_assoc : (a b c : Bool) → ((a || b) || c) ≡ (a || (b || c))
or_assoc true b c = refl
or_assoc false b c = refl

-- What one rule's blocks read, before those of the rules behind it.
rule-Reading :
    (r : Rule) (frame : Bytes) (b bs : List (List Pending)) (n : Bool)
    → blocks_for r ≡ ok b
    → Reading frame bs n
    → Reading frame (b ++ bs) (matches r frame || n)
unfolding blocks_for matches
rule-Reading r frame b bs n h t = elim (Bool-cases (r.ip_proto == 0 && r.port == 0)) [
  | inl plain ↦ elim (Bool-cases (r.ether_type == 0)) [
    | inl e ↦ absurd (ground (arith, h, plain, e))
    | inr e ↦ rw plain (
        subst (λ c. Reading frame (c ++ bs) (be16_at frame 12 == r.ether_type || n))
          (ok-injective _ b (rw (plain, e) at h))
          (cons-Reading frame _ bs _ _ n (ether_block-Ends r.ether_type frame)
            (ether-Honest r.ether_type frame) t))
  ]
  | inr ports ↦
      let six = λ (m : Bool) (u : Reading frame bs m).
        cons-Reading frame (ipv6_block r) bs (ipv6_verdict r frame) (carries6 r frame) m
          (λ a x. ipv6_block-Ends r frame a x ports) (ipv6-Honest r frame) u in
      elim (Bool-cases (r.ether_type == 0)) [
        | inl e ↦
            rw (ports, e, or_assoc (carries4 r frame) (carries6 r frame) n)
              (subst (λ c. Reading frame (c ++ bs) (carries4 r frame || (carries6 r frame || n)))
                (ok-injective _ b (rw (ports, e) at h))
                (cons-Reading frame (ipv4_block r) (ipv6_block r ∷ bs) (ipv4_verdict r frame)
                  (carries4 r frame) (carries6 r frame || n)
                  (λ a x. ipv4_block-Ends r frame a x ports) (ipv4-Honest r frame) (six n t)))
        | inr e ↦ elim (Bool-cases (r.ether_type == 0x0800)) [
          | inl f ↦
              rw (ports, e, f)
                (subst (λ c. Reading frame (c ++ bs) (carries4 r frame || n))
                  (ok-injective _ b (rw (ports, e, f) at h))
                  (cons-Reading frame (ipv4_block r) bs (ipv4_verdict r frame) (carries4 r frame) n
                    (λ a x. ipv4_block-Ends r frame a x ports) (ipv4-Honest r frame) t))
          | inr f ↦ elim (Bool-cases (r.ether_type == 0x86dd)) [
            | inl g ↦
                rw (ports, e, f)
                  (subst (λ c. Reading frame (c ++ bs) (carries6 r frame || n))
                    (ok-injective _ b (rw (ports, e, f, g) at h)) (six n t))
            | inr g ↦ absurd (ground (arith, h, ports, e, f, g))
          ]
        ]
      ]
]

rules-Reading :
    (rs : List Rule) (frame : Bytes) (bs : List (List Pending))
    → all_blocks rs ≡ ok bs
    → Reading frame bs (matches_any rs frame)
unfolding all_blocks matches_any
rules-Reading [] frame bs h =
    subst (λ c. Reading frame c false) (ok-injective [] bs h) (nil-Reading frame)
rules-Reading (r ∷ rs) frame bs h =
    let (b, hb, h1) = and_then-ok (blocks_for r) _ h in
    let (more, hm, h2) = and_then-ok (all_blocks rs) _ h1 in
    subst (λ c. Reading frame c (matches_any (r ∷ rs) frame)) (ok-injective (b ++ more) bs h2)
      (rule-Reading r frame b more (matches_any rs frame) hb (rules-Reading rs frame more hm))

blocks_for-some : (r : Rule) (b : List (List Pending)) → blocks_for r ≡ ok b → b ≢ []
unfolding blocks_for
blocks_for-some r b h e = ground (arith, h, e)

all_blocks-some :
    (r : Rule) (rs : List Rule) (bs : List (List Pending)) → all_blocks (r ∷ rs) ≡ ok bs → bs ≢ []
unfolding all_blocks
all_blocks-some r rs bs h e =
    let (b, hb, h1) = and_then-ok (blocks_for r) _ h in
    let (more, hm, h2) = and_then-ok (all_blocks rs) _ h1 in
    blocks_for-some r b hb (front-nil b more (ok-injective (b ++ more) bs h2 ∙ e))
  where
    front-nil : (b more : List (List Pending)) → b ++ more ≡ [] → b ≡ []
    front-nil [] more q = refl
    front-nil (x ∷ xs) more q = cc

link_some-decide :
    (frame : Bytes) (bs : List (List Pending)) (vs : List Verdict) (prog : List Instruction)
    → bs ≢ []
    → link bs ≡ ok prog
    → Judged frame bs vs
    → run prog frame ≡ ret (decide vs)
link_some-decide frame [] vs prog n h j = absurd (n refl)
link_some-decide frame (b ∷ bs) vs prog n h j = link-decide frame b bs vs prog h j

-- The program that `Assemble` makes of one rule or more ends on every frame. It drops the frame or
-- accepts it, and accepts none that matches no rule; on a frame of 78 bytes at least, the longest IPv4
-- header and the ports behind it, it accepts exactly those that match a rule.
pub assemble-matches :
    (r : Rule) (rs : List Rule) (frame : Bytes) (prog : List Instruction)
    → assemble (r ∷ rs) ≡ ok prog
    → ((run prog frame ≡ ret 0)
        ⊎ ((run prog frame ≡ ret accept_length) × (matches_any (r ∷ rs) frame ≡ true)))
      × (78 ≤ length frame
          → run prog frame ≡ ret (if matches_any (r ∷ rs) frame then accept_length else 0))
unfolding assemble
assemble-matches r rs frame prog h =
    let (bs, hb, h1) = and_then-ok (all_blocks (r ∷ rs)) link h in
    let read = rules-Reading (r ∷ rs) frame bs hb in
    let decided : run prog frame ≡ ret (decide read.verdicts) =
      link_some-decide frame bs read.verdicts prog (all_blocks-some r rs bs hb) h1 read.judged in
    (
      elim read.sound [
        | inl z ↦ inl (decided ∙ ap ret z)
        | inr (z, m) ↦ inr (decided ∙ ap ret z, m)
      ],
      λ l. decided ∙ ap ret (read.exact l),
    )
