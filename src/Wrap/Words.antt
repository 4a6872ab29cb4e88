-- ===== src/Wrap/Words.antt =====
-- The words that src/wrap.c prints are those of the text.
use dada_engine.Prelude.{
  ℕ, suc, ◌≡◌, refl, ap, sym, ◌∙◌, inl, inr, Bool, true, false, Bool-cases, ◌||◌, List, [], ◌∷◌,
  ◌++◌, ◌==◌, if◌then◌else◌, take, drop, arith,
}
use dada_engine.Prelude.Int.{ℤ, pos, ◌-ℤ◌}
use dada_engine.Text.{Text}
use dada_engine.Wrap.{index_or_end, nextword_length, skip_whitespace}
use dada_engine.Wrap.Width.{nextword_length-cons}

abbrev pub is_blank : ℕ → Bool
is_blank c = (c == b' ') || (c == 10)

abbrev pub ended : Text → List Text → List Text
ended [] ws = ws
ended (c ∷ w) ws = (c ∷ w) ∷ ws

-- The words of a text, between blanks and line feeds; `w` is the word before the text.
unfoldable pub words_from : Text → Text → List Text
words_from w [] = ended w []
words_from w (c ∷ s) =
    let new = words_from [] s in
    let same = words_from (w ++ c ∷ []) s in if is_blank c then ended w new else same

abbrev pub words : Text → List Text
words s = words_from [] s

pub words_from-blank :
    (w : Text) (c : ℕ) (s : Text) → is_blank c ≡ true → words_from w (c ∷ s) ≡ ended w (words s)
unfolding words_from
words_from-blank w c s h = rw h refl

words_from-letter :
    (w : Text) (c : ℕ) (s : Text)
    → is_blank c ≡ false
    → words_from w (c ∷ s) ≡ words_from (w ++ c ∷ []) s
unfolding words_from
words_from-letter w c s h = rw h refl

blank_of_no_word : (c : ℕ) (s : Text) → nextword_length (c ∷ s) == 0 ≡ true → is_blank c ≡ true
blank_of_no_word c s h = ground (arith, nextword_length-cons c s)

nextword_length-blank : (c : ℕ) (s : Text) → is_blank c ≡ true → nextword_length (c ∷ s) ≡ 0
nextword_length-blank c s h = ground (arith, nextword_length-cons c s)

nextword_length-letter :
    (c : ℕ) (s : Text) → is_blank c ≡ false → nextword_length (c ∷ s) ≡ suc (nextword_length s)
nextword_length-letter c s h = ground (arith, nextword_length-cons c s)

words_from_nil : (w : Text) → words_from w [] ≡ ended w []
unfolding words_from
words_from_nil w = refl

words_nil : words [] ≡ []
words_nil = words_from_nil []

-- The next word of `s` and a blank, in front of anything that has the words of what is left of `s`.
pub words_from-word :
    (w s t : Text)
    → words t ≡ words (drop (nextword_length s) s)
    → words_from w (take (nextword_length s) s ++ b' ' ∷ t) ≡ words_from w s
unfolding nextword_length index_or_end
words_from-word w [] t h =
    words_from-blank w b' ' t refl ∙ ap (ended w) (h ∙ words_nil) ∙ sym (words_from_nil w)
words_from-word w (c ∷ s) t h = elim (Bool-cases (is_blank c)) [
  | inl blank ↦ rw (nextword_length-blank c s blank) (
      words_from-blank w b' ' t refl
      ∙ ap (ended w) (rest blank ∙ words_from-blank [] c s blank)
      ∙ sym (words_from-blank w c s blank))
  | inr letter ↦ rw (nextword_length-letter c s letter) (
      words_from-letter w c (take (nextword_length s) s ++ b' ' ∷ t) letter
      ∙ words_from-word (w ++ c ∷ []) s t (left letter)
      ∙ sym (words_from-letter w c s letter))
]
  where
    rest : is_blank c ≡ true → words t ≡ words (c ∷ s)
    rest blank = h ∙ ap (λ n. words (drop n (c ∷ s))) (nextword_length-blank c s blank)

    left : is_blank c ≡ false → words t ≡ words (drop (nextword_length s) s)
    left letter = h ∙ ap (λ n. words (drop n (c ∷ s))) (nextword_length-letter c s letter)

pub words-skip :
    (cols : ℤ) (s : Text) (start : Bool) (space : ℤ)
    → let at = skip_whitespace cols s start space in
      (words at.s ≡ words s) × ((t : Text) → words (at.printed ++ t) ≡ words t)
unfolding skip_whitespace
words-skip cols [] start space = (refl, λ t. refl)
words-skip cols (c ∷ s) start space = elim (Bool-cases (nextword_length (c ∷ s) == 0)) [
  | inl none_here ↦ rw none_here (
      let same = sym (words_from-blank [] c s (blank_of_no_word c s none_here)) in
      elim (Bool-cases (c == 10)) [
        | inl newline ↦ rw newline (
            let (left, printed) = words-skip cols s true (cols -ℤ pos 1) in
            (left ∙ same, λ t. words_from-blank [] 10 _ refl ∙ printed t))
        | inr other ↦
            rw other (let (left, printed) = words-skip cols s start space in (left ∙ same, printed))
      ])
  | inr some_here ↦ rw some_here (refl, λ t. refl)
]
