-- ===== src/Wrap.antt =====
-- src/wrap.c: the text is printed with its words wrapped to a width. What is written to the file is
-- the result. Texts are taken to be shorter than 2^31, so that `int` does not overflow.
pub mod Width
pub mod Words
pub mod Correct
use dada_engine.Prelude.{
  ℕ, zero, suc, ◌+◌, Bool, true, false, ◌&&◌, not, [], ◌∷◌, ◌++◌, Option, none, some, Outcome, ok,
  fault, timeout, ltb, ◌==◌, if◌then◌else◌, length, take, drop,
}
use dada_engine.Prelude.Ends.{◌>>=◌}
use dada_engine.Prelude.Int.{ℤ, pos, ◌-ℤ◌, ltb_ℤ}
use dada_engine.Text.{Text}

-- `strchr(s, c)` less `s`, or `strlen(s)` if the character is not there.
unfoldable pub index_or_end : ℕ → Text → ℕ
index_or_end c [] = 0
index_or_end c (x ∷ s) = if x == c then 0 else suc (index_or_end c s)

unfoldable pub nextword_length : Text → ℕ
unfolding index_or_end
nextword_length s =
    let i = index_or_end b' ' s in let j = index_or_end 10 s in if ltb i j then i else j

-- The variables of the loop, and what was printed.
pub record Cursor : Type 0 where
  s : Text
  start : Bool
  space : ℤ
  printed : Text

-- `while(!n && (*s)) …`; `n` is always the length of the next word of `s`.
unfoldable pub skip_whitespace : ℤ → Text → Bool → ℤ → Cursor
unfolding nextword_length
skip_whitespace cols [] start space = record { s = []; start = start; space = space; printed = [] }
skip_whitespace cols (c ∷ s) start space =
    let line = skip_whitespace cols s true (cols -ℤ pos 1) in
    let same = skip_whitespace cols s start space in
    let here : Cursor = record { s = c ∷ s; start = start; space = space; printed = [] } in
    if nextword_length (c ∷ s) == 0
    then (if c == 10 then record line { printed = 10 ∷ line.printed } else same)
    else here

unfoldable pub wrap_loop : ℤ → ℕ → Text → Bool → ℤ → Outcome Text
unfolding skip_whitespace
wrap_loop cols f [] start space = ok []
wrap_loop cols zero (c ∷ s) start space = timeout
wrap_loop cols (suc f) (c ∷ s) start space =
    let at = skip_whitespace cols (c ∷ s) start space in
    let n = nextword_length at.s in
    let break = ltb_ℤ at.space (pos n) && not at.start in
    let left = if break then cols -ℤ pos 1 else at.space in
    wrap_loop cols f (drop n at.s) false (left -ℤ pos (n + 1)) >>= λ rest.
    ok (at.printed ++ ((if break then 10 ∷ [] else []) ++ (take n at.s ++ b' ' ∷ rest)))

unfoldable pub print_wrapped : Option Text → ℤ → Outcome Text
unfolding wrap_loop
print_wrapped none cols = fault
print_wrapped (some s) cols = wrap_loop cols (length s) s true (cols -ℤ pos 1)
