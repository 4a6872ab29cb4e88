-- ===== src/Strfunc/Cook.antt =====
-- src/strfunc.c: `cookstr`, and how a text is quoted.
use dada_engine.Prelude.{
  ℕ, ◌≤◌, ◌≡◌, ◌≢◌, refl, ap, ◌∙◌, [], ◌∷◌, ◌++◌, arith, length, if◌then◌else◌, ◌==◌,
}
use dada_engine.Text.{Text}
use dada_engine.Strfunc.{cookstr, escape_char}

-- Cooking never makes a string longer, so that it can be done in place.
length-cookstr : (s : Text) → length (cookstr s) ≤ length s
unfolding cookstr
length-cookstr [] = omega arith
length-cookstr (c ∷ []) = ground arith
length-cookstr (c ∷ d ∷ s) = ground (arith, length-cookstr s, length-cookstr (d ∷ s))

-- One character written as pb source wants it: a backslash in front of a backslash, and `\n` for a
-- line feed.
abbrev pub quote_char : ℕ → Text
quote_char c =
    if c == b'\\' then b'\\' ∷ b'\\' ∷ [] else (if c == 10 then b'\\' ∷ b'n' ∷ [] else c ∷ [])

abbrev pub quote : Text → Text
quote [] = []
quote (c ∷ s) = quote_char c ++ quote s

cookstr-cons : (c : ℕ) (s : Text) → c ≢ b'\\' → cookstr (c ∷ s) ≡ c ∷ cookstr s
unfolding cookstr
cookstr-cons c [] h = ground arith
cookstr-cons c (d ∷ s) h = ground arith

escape_char-backslash : escape_char b'\\' ≡ b'\\'
unfolding escape_char
escape_char-backslash = refl

escape_char-n : escape_char b'n' ≡ 10
unfolding escape_char
escape_char-n = refl

cookstr-escape : (d : ℕ) (s : Text) → cookstr (b'\\' ∷ d ∷ s) ≡ escape_char d ∷ cookstr s
unfolding cookstr
cookstr-escape d s = refl

cookstr-quote_char : (c : ℕ) (s : Text) → cookstr (quote_char c ++ s) ≡ c ∷ cookstr s
cookstr-quote_char c s = ground (
  arith,
  cookstr-cons c s,
  cookstr-escape b'\\' s,
  cookstr-escape b'n' s,
  escape_char-backslash,
  escape_char-n,
)

-- Cooking a quoted text gives the text back.
pub cookstr-quote : (s : Text) → cookstr (quote s) ≡ s
unfolding cookstr
cookstr-quote [] = refl
cookstr-quote (c ∷ s) = cookstr-quote_char c (quote s) ∙ ap (λ t. c ∷ t) (cookstr-quote s)
