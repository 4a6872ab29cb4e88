-- ===== src/Wrap/Correct.antt =====
-- src/wrap.c: the words and the lines of wrapped text.
use dada_engine.Prelude.{
  ℕ, zero, suc, ◌≤◌, ◌≡◌, ◌⊎◌, refl, ap, ◌∙◌, inl, inr, Bool, true, false, Bool-cases, ◌&&◌, not,
  [], ◌∷◌, ◌++◌, ◌==◌, some, ok, if◌then◌else◌, take, drop, length, length-drop, arith,
}
use dada_engine.Prelude.Ends.{◌>>=◌}
use dada_engine.Prelude.Int.{ℤ, pos, ◌-ℤ◌, ltb_ℤ}
use dada_engine.Text.{Text}
use dada_engine.Wrap.{nextword_length, skip_whitespace, wrap_loop, print_wrapped}
use dada_engine.Wrap.Width.{
  lines_fit, lines_fit-word, lines_fit-blank, OnLine, OnLine-fresh, skip-OnLine, word-OnLine,
}
use dada_engine.Wrap.Words.{words, words_from-word, words_from-blank, words-skip}

length-skip :
    (cols : ℤ) (s : Text) (start : Bool) (space : ℤ)
    → length (skip_whitespace cols s start space).s ≤ length s
unfolding skip_whitespace
length-skip cols [] start space = omega arith
length-skip cols (c ∷ s) start space =
    ground (arith, length-skip cols s true (cols -ℤ pos 1), length-skip cols s start space)

skip-stops :
    (cols : ℤ) (s : Text) (start : Bool) (space : ℤ)
    → let at = skip_whitespace cols s start space in (at.s ≡ []) ⊎ (1 ≤ nextword_length at.s)
unfolding skip_whitespace
skip-stops cols [] start space = inl refl
skip-stops cols (c ∷ s) start space = elim (Bool-cases (nextword_length (c ∷ s) == 0)) [
  | inl none_here ↦ rw none_here (elim (Bool-cases (c == 10)) [
    | inl newline ↦ rw newline (skip-stops cols s true (cols -ℤ pos 1))
    | inr other ↦ rw other (skip-stops cols s start space)
  ])
  | inr some_here ↦ rw some_here (inr (ground arith))
]

length-drop_word :
    (s : Text) (n : ℕ)
    → (s ≡ []) ⊎ (1 ≤ nextword_length s)
    → length s ≤ suc n
    → length (drop (nextword_length s) s) ≤ n
length-drop_word s n (inl e) h = ground (arith, length-drop (nextword_length s) s)
length-drop_word s n (inr p) h = omega (arith, length-drop (nextword_length s) s)

words-break : (b : Bool) (t : Text) → words ((if b then 10 ∷ [] else []) ++ t) ≡ words t
words-break true t = words_from-blank [] 10 t refl
words-break false t = refl

wrap_loop_lem :
    (cols f col blanks : ℕ) (s : Text) (start : Bool) (space : ℤ)
    → length s ≤ f
    → OnLine cols col blanks start space
    → (out : Text) × (wrap_loop (pos cols) f s start space ≡ ok out)
      × (words out ≡ words s)
      × (lines_fit cols col blanks out ≡ true)
unfolding wrap_loop lines_fit
wrap_loop_lem cols f col blanks [] start space enough h = ([], refl, refl, h.good)
wrap_loop_lem cols zero col blanks (c ∷ s) start space enough h = absurd (omega arith)
wrap_loop_lem cols (suc f) col blanks (c ∷ s) start space enough h =
    let at = skip_whitespace (pos cols) (c ∷ s) start space in
    let n = nextword_length at.s in
    let break = ltb_ℤ at.space (pos n) && not at.start in
    let (col1, blanks1, on1, fit1) = skip-OnLine cols col blanks (c ∷ s) start space h in
    let (on2, fit2) = word-OnLine cols col1 blanks1 n at.start at.space on1 in
    let (left, printed) = words-skip (pos cols) (c ∷ s) start space in
    let short = length-skip (pos cols) (c ∷ s) start space in
    let (out, e, same, fits) =
      wrap_loop_lem cols f _ _ (drop n at.s) false _
        (length-drop_word at.s f (skip-stops (pos cols) (c ∷ s) start space)
          (omega (arith, short, enough)))
        on2 in
    let piece : Text = if break then 10 ∷ [] else [] in
    (
      at.printed ++ (piece ++ (take n at.s ++ b' ' ∷ out)),
      ap (λ o. o >>= λ rest. ok (at.printed ++ (piece ++ (take n at.s ++ b' ' ∷ rest)))) e,
      printed _ ∙ words-break break _ ∙ words_from-word [] at.s out same ∙ left,
      fit1 _
          ∙ fit2 _
          ∙ lines_fit-word cols _ _ at.s (b' ' ∷ out)
          ∙ lines_fit-blank cols _ _ out
          ∙ fits,
    )

-- Wrapping any text to any width that is not negative comes to an end. What is printed has the same
-- words in the same order, and each line of it, with the blanks after its words, is no wider than
-- the width, or holds one blank at most, that is, one word.
pub print_wrapped_lem :
    (cols : ℕ) (s : Text)
    → (out : Text) × (print_wrapped (some s) (pos cols) ≡ ok out)
      × (words out ≡ words s)
      × (lines_fit cols 0 0 out ≡ true)
unfolding print_wrapped
print_wrapped_lem cols s =
    wrap_loop_lem cols (length s) 0 0 s true (pos cols -ℤ pos 1) (omega arith) (OnLine-fresh cols)
