-- ===== src/Capture/Bpf/Link.antt =====
-- `link` of internal/capture/bpf/bpf.go keeps the meaning of the blocks: the linked program runs as the
-- blocks do one after the other, with their symbolic jumps.
use wirepup.Base.{
  ℕ, suc, zero, ◌+◌, ◌-◌, Bool, true, false, ◌||◌, List, [], ◌∷◌, ◌++◌, ◌≡◌, refl, sym, ap, ◌∙◌,
  arith, inl, inr, ltb, ◌==◌, if◌then◌else◌, length, Bytes, Go, ret, panic, Result, ok, err,
  Bool-cases,
}
use native.Mathlib.Nat.{zero-add, suc-add}
use mathlib.Core.Path.{subst}
use wirepup.Capture.Bpf.{
  Instruction, Target, target_accept, target_next, target_index, Pending, Error, op_jeq_k,
  op_jset_k, accept_length, resolve, offset, link_one, link_block, ◌and_then◌,
}
use wirepup.Capture.Bpf.Machine.{
  Effect, load, load_x, branch, finish, overrun, unknown, effect, resume, exec,
}

-- How a block ends: the frame is accepted, the next block is tried, the machine rejects the frame, or the
-- run leaves the block behind its last instruction with some instructions to skip.
pub data Outcome : Type 0 where
  accepted : Outcome
  passed : ℕ → ℕ → Outcome
  rejected : Outcome
  fell : ℕ → ℕ → ℕ → Outcome
  done : ℕ → Outcome
  broken : Outcome

abbrev pub jump_to : (ℕ → ℕ → ℕ → Outcome) → ℕ → ℕ → ℕ → Target → Outcome
jump_to go pos a x target_accept = accepted
jump_to go pos a x target_next = passed a x
jump_to go pos a x (target_index n) = go (n - (pos + 1)) a x

abbrev pub continue : (ℕ → ℕ → ℕ → Outcome) → ℕ → Pending → ℕ → ℕ → Effect → Outcome
continue go pos p a x (load a') = go 0 a' x
continue go pos p a x (load_x x') = go 0 a x'
continue go pos p a x (branch b) = jump_to go pos a x (if b then p.jt else p.jf)
continue go pos p a x (finish n) = done n
continue go pos p a x overrun = rejected
continue go pos p a x unknown = broken

-- A block run with its symbolic jumps.
unfoldable pub walk : Bytes → ℕ → List Pending → ℕ → ℕ → ℕ → Outcome
walk frame pos [] skip a x = fell skip a x
walk frame pos (p ∷ ps) (suc skip) a x = walk frame (suc pos) ps skip a x
walk frame pos (p ∷ ps) zero a x =
    continue (walk frame (suc pos) ps) pos p a x (effect p.code p.k a x frame)

-- What follows an outcome, where `tail` is the program behind the block.
abbrev pub follow : (ℕ → ℕ → ℕ → Go ℕ) → ℕ → Outcome → Go ℕ
follow tail miss accepted = ret accept_length
follow tail miss (passed a x) = tail miss a x
follow tail miss rejected = ret 0
follow tail miss (fell skip a x) = tail skip a x
follow tail miss (done n) = ret n
follow tail miss broken = panic

pub exec-append :
    (frame : Bytes) (xs ys : List Instruction) (s a x : ℕ)
    → exec frame (xs ++ ys) (length xs + s) a x ≡ exec frame ys s a x
unfolding exec
exec-append frame [] ys s a x = rw zero-add
exec-append frame (i ∷ xs) ys s a x = rw suc-add (exec-append frame xs ys s a x)

offset-ok : (pos target n : ℕ) → offset pos target ≡ ok n → n + (pos + 1) ≡ target
unfolding offset
offset-ok pos target n h =
    elim (Bool-cases (ltb target (pos + 1) || ltb 255 (target - (pos + 1)))) [
      | inl e ↦ absurd (ground (arith, h, e))
      | inr e ↦ ground (arith, h, e)
    ]

-- The inversion of a step that succeeds.
pub and_then-ok {ℓ κ} :
    {A : Type ℓ} {B : Type κ} (m : Result Error A) (f : A → Result Error B) {b : B}
    → (m and_then f) ≡ ok b
    → (a : A) × (m ≡ ok a) × (f a ≡ ok b)
and_then-ok (ok a) f h = (a, refl, h)
and_then-ok (err e) f h = cc

pub ok-injective {ℓ} : {A : Type ℓ} (a b : A) → Path (Result Error A) (ok a) (ok b) → a ≡ b
ok-injective a b h = ap (λ r. elim r [ ok y ↦ y | err _ ↦ a ]) h

-- Only the two comparisons branch.
effect-branch :
    (code k a x : ℕ) (frame : Bytes) (b : Bool)
    → effect code k a x frame ≡ branch b
    → (code == op_jeq_k || code == op_jset_k) ≡ true
unfolding effect
effect-branch code k a x frame b h = ground (arith, h)

-- A linked instruction keeps its code and operand, and where it jumps, its offsets lead to its targets.
record Linked (start accept next pos : ℕ) (p : Pending) (i : Instruction) : Type 0 where
  code : i.code ≡ p.code
  k : i.k ≡ p.k
  jt :
      (p.code == op_jeq_k || p.code == op_jset_k) ≡ true
      → i.jt + (pos + 1) ≡ resolve p.jt start accept next
  jf :
      (p.code == op_jeq_k || p.code == op_jset_k) ≡ true
      → i.jf + (pos + 1) ≡ resolve p.jf start accept next

link_one-Linked :
    (start accept next pos : ℕ) (p : Pending) (i : Instruction)
    → link_one start accept next pos p ≡ ok i
    → Linked start accept next pos p i
unfolding link_one
link_one-Linked start accept next pos p i h =
    elim (Bool-cases (p.code == op_jeq_k || p.code == op_jset_k)) [
      | inl e ↦
          let h' = rw e at h in
          let (jt, ht, h1) = and_then-ok (offset pos (resolve p.jt start accept next)) _ h' in
          let (jf, hf, h2) = and_then-ok (offset pos (resolve p.jf start accept next)) _ h1 in
          subst (Linked start accept next pos p) (ok-injective _ i h2) (record {
            code = refl;
            k = refl;
            jt = λ _. offset-ok pos (resolve p.jt start accept next) jt ht;
            jf = λ _. offset-ok pos (resolve p.jf start accept next) jf hf;
          })
      | inr e ↦ subst (Linked start accept next pos p) (ok-injective _ i (rw e at h)) (record {
        code = refl;
        k = refl;
        jt = λ q. absurd (ground (arith, q, e));
        jf = λ q. absurd (ground (arith, q, e));
      })
    ]

module _ (frame : Bytes) (start accept next : ℕ) (tail : List Instruction) (reach miss : ℕ)
    (lands : (a x : ℕ) → exec frame tail reach a x ≡ ret accept_length) where
  -- One jump of the block at `start + j`, over the `rest` of its instructions.
  jump-follow :
      (j n a x : ℕ) (t : Target) (ps : List Pending) (rest : List Instruction)
      → n + (start + j + 1) ≡ resolve t start accept next
      → accept ≡ start + j + 1 + length rest + reach
      → next ≡ start + j + 1 + length rest + miss
      → ((skip a x : ℕ)
          → exec frame (rest ++ tail) skip a x
            ≡ follow (exec frame tail) miss (walk frame (suc j) ps skip a x))
      → exec frame (rest ++ tail) n a x
        ≡ follow (exec frame tail) miss (jump_to (walk frame (suc j) ps) j a x t)
  unfolding resolve
  jump-follow j n a x target_accept ps rest h u v ih =
      let e : n ≡ length rest + reach = omega arith in
      rw e (exec-append frame rest tail reach a x ∙ lands a x)
  jump-follow j n a x target_next ps rest h u v ih =
      let e : n ≡ length rest + miss = omega arith in rw e (exec-append frame rest tail miss a x)
  jump-follow j n a x (target_index m) ps rest h u v ih =
      let e : n ≡ m - (j + 1) = omega arith in rw e (ih (m - (j + 1)) a x)

  -- One instruction, when the rest of the block is right.
  step-follow :
      (j a x : ℕ) (p : Pending) (i : Instruction) (ps : List Pending) (rest : List Instruction)
      (e : Effect)
      → effect p.code p.k a x frame ≡ e
      → Linked start accept next (start + j) p i
      → accept ≡ start + j + 1 + length rest + reach
      → next ≡ start + j + 1 + length rest + miss
      → ((skip a x : ℕ)
          → exec frame (rest ++ tail) skip a x
            ≡ follow (exec frame tail) miss (walk frame (suc j) ps skip a x))
      → resume (exec frame (rest ++ tail)) i.jt i.jf a x e
        ≡ follow (exec frame tail) miss (continue (walk frame (suc j) ps) j p a x e)
  step-follow j a x p i ps rest (load a') h l u v ih = ih 0 a' x
  step-follow j a x p i ps rest (load_x x') h l u v ih = ih 0 a x'
  step-follow j a x p i ps rest (branch true) h l u v ih =
      jump-follow j i.jt a x p.jt ps rest (l.jt (effect-branch p.code p.k a x frame true h)) u v ih
  step-follow j a x p i ps rest (branch false) h l u v ih =
      jump-follow j i.jf a x p.jf ps rest (l.jf (effect-branch p.code p.k a x frame false h)) u v ih
  step-follow j a x p i ps rest (finish n) h l u v ih = refl
  step-follow j a x p i ps rest overrun h l u v ih = refl
  step-follow j a x p i ps rest unknown h l u v ih = refl

  cons-follow :
      (j : ℕ) (p : Pending) (i : Instruction) (ps : List Pending) (rest : List Instruction)
      → Linked start accept next (start + j) p i
      → accept ≡ start + j + 1 + length rest + reach
      → next ≡ start + j + 1 + length rest + miss
      → ((skip a x : ℕ)
          → exec frame (rest ++ tail) skip a x
            ≡ follow (exec frame tail) miss (walk frame (suc j) ps skip a x))
      → (skip a x : ℕ)
      → exec frame (i ∷ (rest ++ tail)) skip a x
        ≡ follow (exec frame tail) miss (walk frame j (p ∷ ps) skip a x)
  unfolding exec walk
  cons-follow j p i ps rest l u v ih (suc skip) a x = ih skip a x
  cons-follow j p i ps rest l u v ih zero a x =
      ap (λ c. resume (exec frame (rest ++ tail)) i.jt i.jf a x (effect c i.k a x frame)) l.code
      ∙ ap (λ k. resume (exec frame (rest ++ tail)) i.jt i.jf a x (effect p.code k a x frame)) l.k
      ∙ step-follow j a x p i ps rest (effect p.code p.k a x frame) refl l u v ih

  -- The linked block, and then the tail, runs as the block does with its symbolic jumps.
  pub link_block-follow :
      (j : ℕ) (ps : List Pending) (code : List Instruction)
      → link_block start accept next (start + j) ps ≡ ok code
      → accept ≡ start + j + length ps + reach
      → next ≡ start + j + length ps + miss
      → (length code ≡ length ps)
        × ((skip a x : ℕ)
            → exec frame (code ++ tail) skip a x
              ≡ follow (exec frame tail) miss (walk frame j ps skip a x))
  unfolding link_block walk exec
  link_block-follow j [] code h u v =
      let e : [] ≡ code = ok-injective [] code h in
      subst
        (λ c.
          (length c ≡ 0)
          × ((skip a x : ℕ) → exec frame (c ++ tail) skip a x ≡ exec frame tail skip a x))
        e (refl, λ skip a x. refl)
  link_block-follow j (p ∷ ps) code h u v =
      let (i, hi, h1) = and_then-ok (link_one start accept next (start + j) p) _ h in
      let (rest, hr, h2) = and_then-ok (link_block start accept next (suc (start + j)) ps) _ h1 in
      let shift : suc (start + j) ≡ start + suc j = omega arith in
      let (n, ih) =
        link_block-follow (suc j) ps rest
          (ap (λ q. link_block start accept next q ps) (sym shift) ∙ hr) (omega arith)
          (omega arith) in
      let e : i ∷ rest ≡ code = ok-injective (i ∷ rest) code h2 in
      subst
        (λ c.
          (length c ≡ suc (length ps))
          × ((skip a x : ℕ)
              → exec frame (c ++ tail) skip a x
                ≡ follow (exec frame tail) miss (walk frame j (p ∷ ps) skip a x)))
        e
        (
          ap suc n,
          cons-follow j p i ps rest (link_one-Linked start accept next (start + j) p i hi)
              (omega arith) (omega arith) ih,
        )
