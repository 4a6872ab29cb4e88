-- ===== src/EmitPs/Brackets.antt =====
-- The brackets of a text, and the texts that close just what they open.
use mathlib.Core.List.{append_assoc}
use dada_engine.Prelude.{
  ℕ, ◌≡◌, refl, ap, ◌∙◌, Bool, true, false, ◌||◌, ◌&&◌, not, zero, suc, ◌+◌, ◌/◌, ◌%◌, Option, none,
  some, List, [], ◌∷◌, ◌++◌, ◌==◌, if◌then◌else◌, arith,
}
use dada_engine.Prelude.Int.{ℤ, pos, negsuc}
use dada_engine.Text.{Text}
use dada_engine.Text.Decimal.{digits, decimal, print_int}

abbrev pub opening : ℕ → Bool
opening c = (c == b'[') || ((c == b'{') || (c == b'('))

abbrev pub closing : ℕ → Bool
closing c = (c == b']') || ((c == b'}') || (c == b')'))

abbrev pub partner : ℕ → ℕ
partner c = if c == b'[' then b']' else if c == b'{' then b'}' else b')'

-- The brackets that are still open after the text, as the ones that close them; `none` if one is
-- closed that was not the last one opened.
unfoldable pub open_after : List ℕ → Text → Option (List ℕ)
open_after stack [] = some stack
open_after [] (c ∷ s) =
    let opened = open_after (partner c ∷ []) s in
    let same = open_after [] s in if opening c then opened else (if closing c then none else same)
open_after (top ∷ stack) (c ∷ s) =
    let opened = open_after (partner c ∷ top ∷ stack) s in
    let closed = open_after stack s in
    let same = open_after (top ∷ stack) s in
    if opening c then opened else (if closing c then (if c == top then closed else none) else same)

-- The other characters that change how PostScript reads what follows them: a backslash, `%`, `<` and
-- `>`.
abbrev pub special : ℕ → Bool
special c = (c == 92) || ((c == b'%') || ((c == b'<') || (c == b'>')))

abbrev pub clean : Text → Bool
clean [] = true
clean (c ∷ s) = not (opening c) && (not (closing c) && (not (special c) && clean s))

abbrev pub NoSpecials : Text → Type 0
NoSpecials t = clean t ≡ true

-- The text closes just the brackets that it opens, whatever stands before and after it.
abbrev pub Balanced : Text → Type 0
Balanced t = (stack : List ℕ) (rest : Text) → open_after stack (t ++ rest) ≡ open_after stack rest

pub Balanced-append : (s t : Text) → Balanced s → Balanced t → Balanced (s ++ t)
Balanced-append s t h k stack rest =
    ap (open_after stack) (append_assoc s t rest) ∙ h stack (t ++ rest) ∙ k stack rest

open_after-letter :
    (c : ℕ) (stack : List ℕ) (s : Text)
    → opening c ≡ false
    → closing c ≡ false
    → open_after stack (c ∷ s) ≡ open_after stack s
unfolding open_after
open_after-letter c [] s h k = rw (h, k) refl
open_after-letter c (top ∷ stack) s h k = rw (h, k) refl

open_after-opening :
    (c : ℕ) (stack : List ℕ) (s : Text)
    → opening c ≡ true
    → open_after stack (c ∷ s) ≡ open_after (partner c ∷ stack) s
unfolding open_after
open_after-opening c [] s h = rw h refl
open_after-opening c (top ∷ stack) s h = rw h refl

open_after-closing :
    (c : ℕ) (stack : List ℕ) (s : Text)
    → opening c ≡ true
    → open_after (partner c ∷ stack) (partner c ∷ s) ≡ open_after stack s
unfolding open_after
open_after-closing c stack s h = ground arith

pub Balanced-cons :
    (c : ℕ) (t : Text) → opening c ≡ false → closing c ≡ false → Balanced t → Balanced (c ∷ t)
Balanced-cons c t h k b stack rest = open_after-letter c stack (t ++ rest) h k ∙ b stack rest

pub Balanced-enclosed :
    (c : ℕ) (t u : Text)
    → opening c ≡ true
    → Balanced t
    → Balanced u
    → Balanced (c ∷ (t ++ partner c ∷ u))
Balanced-enclosed c t u h b d stack rest =
    open_after-opening c stack ((t ++ partner c ∷ u) ++ rest) h
    ∙ ap (open_after (partner c ∷ stack)) (append_assoc t (partner c ∷ u) rest)
    ∙ b (partner c ∷ stack) (partner c ∷ (u ++ rest))
    ∙ open_after-closing c stack (u ++ rest) h
    ∙ d stack rest

pub clean-Balanced : (t : Text) → clean t ≡ true → Balanced t
clean-Balanced [] h = λ stack rest. refl
clean-Balanced (c ∷ t) h =
    Balanced-cons c t (ground arith) (ground arith) (clean-Balanced t (ground arith))

clean-digits : (f n : ℕ) (out : Text) → clean out ≡ true → clean (digits f n out) ≡ true
unfolding digits
clean-digits zero n out h = h
clean-digits (suc f) n out h = ground (arith, clean-digits f (n / 10) ((b'0' + n % 10) ∷ out))

pub clean-print_int : (i : ℤ) → clean (print_int i) ≡ true
unfolding print_int decimal
clean-print_int (pos n) = clean-digits (suc n) n [] refl
clean-print_int (negsuc n) = clean-digits (suc (suc n)) (suc n) [] refl

pub Balanced-suffix : (t u : Text) → Balanced t → clean u ≡ true → Balanced (t ++ u)
Balanced-suffix t u h k = Balanced-append t u h (clean-Balanced u k)

-- `/t`, a blank, and what follows.
pub Balanced-named : (t u : Text) → NoSpecials t → Balanced u → Balanced (b'/' ∷ (t ++ b' ' ∷ u))
Balanced-named t u h k =
    Balanced-cons b'/' (t ++ b' ' ∷ u) refl refl
      (Balanced-append t (b' ' ∷ u) (clean-Balanced t h) (Balanced-cons b' ' u refl refl k))
