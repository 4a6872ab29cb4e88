-- ===== src/Wrap/Width.antt =====
-- The widths of the lines that src/wrap.c prints.
use dada_engine.Prelude.{
  ℕ, suc, ◌+◌, ◌≡◌, refl, ap, ◌∙◌, inl, inr, Bool, true, false, Bool-cases, ◌&&◌, ◌||◌, [], ◌∷◌,
  ◌++◌, leb, not, ◌==◌, if◌then◌else◌, take, arith,
}
use dada_engine.Prelude.Int.{ℤ, pos, ◌-ℤ◌, pos_part, neg_part, -ℤ_parts, ltb_ℤ}
use dada_engine.Text.{Text}
use dada_engine.Wrap.{index_or_end, nextword_length, skip_whitespace}

-- A line with one blank holds one word.
abbrev pub line_fits : ℕ → ℕ → ℕ → Bool
line_fits cols col words = leb col cols || leb words 1

-- Whether each line of the text is at most `cols` wide, or holds one blank at most; `col`
-- characters and `blanks` blanks of the first line stand before the text.
unfoldable pub lines_fit : ℕ → ℕ → ℕ → Text → Bool
lines_fit cols col blanks [] = line_fits cols col blanks
lines_fit cols col blanks (c ∷ s) =
    let line = lines_fit cols 0 0 s in
    let blank = lines_fit cols (col + 1) (blanks + 1) s in
    let same = lines_fit cols (col + 1) blanks s in
    if c == 10 then line_fits cols col blanks && line else (if c == b' ' then blank else same)

pub nextword_length-cons :
    (c : ℕ) (s : Text)
    → nextword_length (c ∷ s) ≡ (if (c == b' ') || (c == 10) then 0 else suc (nextword_length s))
unfolding nextword_length index_or_end
nextword_length-cons c s = ground arith

no_word : (n : ℕ) → n ≡ n + nextword_length []
unfolding nextword_length index_or_end
no_word n = omega arith

lines_fit-letter :
    (cols col blanks c : ℕ) (s : Text)
    → ((c == b' ') || (c == 10)) ≡ false
    → lines_fit cols col blanks (c ∷ s) ≡ lines_fit cols (col + 1) blanks s
unfolding lines_fit
lines_fit-letter cols col blanks c s h = ground arith

pub lines_fit-word :
    (cols col blanks : ℕ) (s t : Text)
    → lines_fit cols col blanks (take (nextword_length s) s ++ t)
      ≡ lines_fit cols (col + nextword_length s) blanks t
unfolding lines_fit nextword_length
lines_fit-word cols col blanks [] t = ap (λ k. lines_fit cols k blanks t) (no_word col)
lines_fit-word cols col blanks (c ∷ s) t = elim (Bool-cases ((c == b' ') || (c == 10))) [
  | inl blank ↦
      rw (nextword_length-cons c s, blank) (ap (λ k. lines_fit cols k blanks t) (omega arith))
  | inr letter ↦
      rw (nextword_length-cons c s, letter)
        (lines_fit-letter cols col blanks c (take (nextword_length s) s ++ t) letter
          ∙ lines_fit-word cols (col + 1) blanks s t
          ∙ ap (λ k. lines_fit cols k blanks t) (omega arith))
]

pub lines_fit-newline :
    (cols col blanks : ℕ) (s : Text)
    → line_fits cols col blanks ≡ true
    → lines_fit cols col blanks (10 ∷ s) ≡ lines_fit cols 0 0 s
unfolding lines_fit
lines_fit-newline cols col blanks s h = rw h refl

pub lines_fit-blank :
    (cols col blanks : ℕ) (s : Text)
    → lines_fit cols col blanks (b' ' ∷ s) ≡ lines_fit cols (col + 1) (blanks + 1) s
unfolding lines_fit
lines_fit-blank cols col blanks s = refl

-- The column is what `space` says, and a line that has not started is empty.
pub record OnLine (cols col blanks : ℕ) (start : Bool) (space : ℤ) : Type 0 where
  column : pos_part space + col + 1 ≡ cols + neg_part space
  fresh : start ≡ true → (col ≡ 0) × (blanks ≡ 0)
  pub good : line_fits cols col blanks ≡ true

pub OnLine-fresh : (cols : ℕ) → OnLine cols 0 0 true (pos cols -ℤ pos 1)
OnLine-fresh cols = record {
  column = omega (arith, -ℤ_parts (pos cols) (pos 1));
  fresh = λ e. (refl, refl);
  good = ground arith;
}

pub skip-OnLine :
    (cols col blanks : ℕ) (s : Text) (start : Bool) (space : ℤ)
    → OnLine cols col blanks start space
    → let at = skip_whitespace (pos cols) s start space in
      (col' : ℕ) × (blanks' : ℕ) × OnLine cols col' blanks' at.start at.space
      × ((t : Text) → lines_fit cols col blanks (at.printed ++ t) ≡ lines_fit cols col' blanks' t)
unfolding skip_whitespace
skip-OnLine cols col blanks [] start space h = (col, blanks, h, λ t. refl)
skip-OnLine cols col blanks (c ∷ s) start space h =
    elim (Bool-cases (nextword_length (c ∷ s) == 0)) [
      | inl blank ↦ rw blank (elim (Bool-cases (c == 10)) [
        | inl newline ↦ rw newline (
            let (col', blanks', on, same) =
              skip-OnLine cols 0 0 s true (pos cols -ℤ pos 1) (OnLine-fresh cols) in
            let at_line = skip_whitespace (pos cols) s true (pos cols -ℤ pos 1) in
            (
              col',
              blanks',
              on,
              λ t. lines_fit-newline cols col blanks (at_line.printed ++ t) h.good ∙ same t,
            ))
        | inr other ↦ rw other (skip-OnLine cols col blanks s start space h)
      ])
      | inr letter ↦ rw letter (col, blanks, h, λ t. refl)
    ]

word_fits :
    (cols col blanks n : ℕ) (start : Bool) (space : ℤ)
    → OnLine cols col blanks start space
    → ltb_ℤ space (pos n) && not start ≡ false
    → line_fits cols (col + n + 1) (blanks + 1) ≡ true
word_fits cols col blanks n true space h same = ground (arith, h.fresh refl)
word_fits cols col blanks n false space h same = ground (arith, h.column)

-- A word of `n` letters is put on the line that is there, or on a new one.
pub word-OnLine :
    (cols col blanks n : ℕ) (start : Bool) (space : ℤ)
    → OnLine cols col blanks start space
    → let break = ltb_ℤ space (pos n) && not start in
      let left = if break then pos cols -ℤ pos 1 else space in
      let col' = if break then 0 else col in
      let blanks' = if break then 0 else blanks in
      OnLine cols (col' + n + 1) (blanks' + 1) false (left -ℤ pos (n + 1))
      × ((t : Text)
          → lines_fit cols col blanks ((if break then 10 ∷ [] else []) ++ t)
            ≡ lines_fit cols col' blanks' t)
word-OnLine cols col blanks n start space h = elim (Bool-cases (ltb_ℤ space (pos n) && not start)) [
  | inl break ↦ rw break (
    record {
      column =
          omega (arith, -ℤ_parts (pos cols) (pos 1), -ℤ_parts (pos cols -ℤ pos 1) (pos (n + 1)));
      fresh = λ e. cc;
      good = ground arith;
    },
    λ t. lines_fit-newline cols col blanks t h.good,
  )
  | inr same ↦ rw same (
    record {
      column = omega (arith, h.column, -ℤ_parts space (pos (n + 1)));
      fresh = λ e. cc;
      good = word_fits cols col blanks n start space h same;
    },
    λ t. refl,
  )
]
