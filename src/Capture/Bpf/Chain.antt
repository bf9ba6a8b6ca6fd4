-- ===== src/Capture/Bpf/Chain.antt =====
-- A linked program of internal/capture/bpf/bpf.go decides as its blocks do, one after the other.
use mathlib.Core.List.{append_assoc}
use mathlib.Core.Path.{subst}
use wirepup.Base.{
  ℕ, ◌+◌, List, [], ◌∷◌, ◌++◌, ◌≡◌, refl, sym, ap, ◌∙◌, arith, length, Bytes, Go, ret, ok,
  length-append,
}
use wirepup.Capture.Bpf.{
  Instruction, Pending, accept_length, link_block, next_of, link_from, total, link, ret_k,
}
use wirepup.Capture.Bpf.Machine.{exec, effect, run}
use wirepup.Capture.Bpf.Link.{
  Outcome, accepted, passed, rejected, fell, done, broken, walk, follow, exec-append, and_then-ok,
  ok-injective, link_block-follow,
}

-- What a block says of a frame: take it, ask the next block, or refuse it for good.
pub data Verdict : Type 0 where
  take pass refuse : Verdict

abbrev pub Ends : Verdict → Outcome → Type 0
Ends take accepted = Unit
Ends take (passed a x) = ⊥
Ends take rejected = ⊥
Ends take (fell s a x) = ⊥
Ends take (done n) = ⊥
Ends take broken = ⊥
Ends pass accepted = ⊥
Ends pass (passed a x) = Unit
Ends pass rejected = ⊥
Ends pass (fell s a x) = ⊥
Ends pass (done n) = ⊥
Ends pass broken = ⊥
Ends refuse accepted = ⊥
Ends refuse (passed a x) = ⊥
Ends refuse rejected = Unit
Ends refuse (fell s a x) = ⊥
Ends refuse (done n) = ⊥
Ends refuse broken = ⊥

-- The first verdict that does not pass; a frame that every block passes is dropped.
unfoldable pub decide : List Verdict → ℕ
decide [] = 0
decide (take ∷ vs) = accept_length
decide (pass ∷ vs) = decide vs
decide (refuse ∷ vs) = 0

-- Each block ends with its verdict, whatever the registers hold at its start.
abbrev pub Judged : Bytes → List (List Pending) → List Verdict → Type 0
Judged frame [] [] = Unit
Judged frame [] (v ∷ vs) = ⊥
Judged frame (b ∷ bs) [] = ⊥
Judged frame (b ∷ bs) (v ∷ vs) = ((a x : ℕ) → Ends v (walk frame 0 b 0 a x)) × Judged frame bs vs

abbrev end_part : List Instruction
end_part = ret_k accept_length ∷ ret_k 0 ∷ []

-- How many instructions a run skips that comes to the blocks from the one before.
abbrev entry : List (List Pending) → ℕ
entry [] = 1
entry (b ∷ bs) = 0

exec-end : (frame : Bytes) (a x : ℕ) → exec frame end_part 0 a x ≡ ret accept_length
unfolding exec effect
exec-end frame a x = refl

Ends-follow :
    (v : Verdict) (vs : List Verdict) (o : Outcome) (tail : ℕ → ℕ → ℕ → Go ℕ) (miss : ℕ)
    → Ends v o
    → ((a x : ℕ) → tail miss a x ≡ ret (decide vs))
    → follow tail miss o ≡ ret (decide (v ∷ vs))
unfolding decide
Ends-follow take vs accepted tail miss e h = refl
Ends-follow pass vs (passed a x) tail miss e h = h a x
Ends-follow refuse vs rejected tail miss e h = refl
Ends-follow _ vs _ tail miss e h = absurd e

lands :
    (frame : Bytes) (rest : List Instruction) (bs : List (List Pending))
    → length rest ≡ total bs
    → (a x : ℕ) → exec frame (rest ++ end_part) (total bs) a x ≡ ret accept_length
lands frame rest bs n a x =
    let e : total bs ≡ length rest + 0 = omega (arith, n) in
    rw e (exec-append frame rest end_part 0 a x ∙ exec-end frame a x)

next_of-entry :
    (start n accept : ℕ) (bs : List (List Pending))
    → accept ≡ start + n + total bs
    → next_of (start + n) (accept + 1) bs ≡ start + 0 + n + entry bs
unfolding next_of total
next_of-entry start n accept [] h = omega arith
next_of-entry start n accept (b ∷ bs) h = omega arith

link_from-decide :
    (frame : Bytes) (start accept : ℕ) (bs : List (List Pending)) (vs : List Verdict)
    (code : List Instruction)
    → link_from start accept bs ≡ ok code
    → accept ≡ start + total bs
    → Judged frame bs vs
    → (length code ≡ total bs)
      × ((a x : ℕ) → exec frame (code ++ end_part) (entry bs) a x ≡ ret (decide vs))
unfolding link_from total
link_from-decide frame start accept [] [] code h u j =
    subst (λ c. (length c ≡ 0) × ((a x : ℕ) → exec frame (c ++ end_part) 1 a x ≡ ret (decide [])))
      (ok-injective [] code h) (refl, unfold exec in unfold effect in unfold decide in λ a x. refl)
link_from-decide frame start accept [] (v ∷ vs) code h u j = absurd j
link_from-decide frame start accept (b ∷ bs) [] code h u j = absurd j
link_from-decide frame start accept (b ∷ bs) (v ∷ vs) code h u (j, js) =
    let next = next_of (start + length b) (accept + 1) bs in
    let (c, hc, h1) = and_then-ok (link_block start accept next start b) _ h in
    let (rest, hr, h2) = and_then-ok (link_from (start + length b) accept bs) _ h1 in
    let (n, ih) = link_from-decide frame (start + length b) accept bs vs rest hr (omega arith) js in
    let tail = rest ++ end_part in
    let here : start ≡ start + 0 = omega arith in
    let (m, block) =
      link_block-follow frame start accept next tail (total bs) (entry bs) (lands frame rest bs n) 0
        b c (ap (λ q. link_block start accept next q b) (sym here) ∙ hc) (omega arith)
        (next_of-entry start (length b) accept bs (omega arith)) in
    let e : c ++ rest ≡ code = ok-injective (c ++ rest) code h2 in
    subst
      (λ d.
        (length d ≡ length b + total bs)
        × ((a x : ℕ) → exec frame (d ++ end_part) 0 a x ≡ ret (decide (v ∷ vs))))
      e
      (
        length-append c rest ∙ omega (arith, n, m),
        λ a x.
            ap (λ d. exec frame d 0 a x) (append_assoc c rest end_part)
            ∙ block 0 a x
            ∙ Ends-follow v vs (walk frame 0 b 0 a x) (exec frame tail) (entry bs) (j a x) ih,
      )

-- The program that `link` makes of one block or more ends on every frame, with the verdict of the first
-- block that does not pass.
pub link-decide :
    (frame : Bytes) (b : List Pending) (bs : List (List Pending)) (vs : List Verdict)
    (prog : List Instruction)
    → link (b ∷ bs) ≡ ok prog
    → Judged frame (b ∷ bs) vs
    → run prog frame ≡ ret (decide vs)
unfolding link run
link-decide frame b bs vs prog h j =
    let (code, hc, h1) = and_then-ok (link_from 0 (total (b ∷ bs)) (b ∷ bs)) _ h in
    let e : code ++ end_part ≡ prog = ok-injective (code ++ end_part) prog h1 in
    subst (λ p. exec frame p 0 0 0 ≡ ret (decide vs)) e
      ((link_from-decide frame 0 (total (b ∷ bs)) (b ∷ bs) vs code hc (omega arith) j).1 0 0)
