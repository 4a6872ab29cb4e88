-- ===== src/Lexer/Literals.antt =====
-- src/lexer.x, the pattern of a literal, \"[^\"]*(\\.[^\"]*)*\", and what its action makes of it.
use dada_engine.Prelude.{
  ℕ, ◌-◌, ◌≡◌, ◌≢◌, refl, ap, ◌∙◌, [], ◌∷◌, ◌++◌, Option, some, ok, length, take, length-append,
  arith, ◌==◌, inl, inr, Bool-cases,
}
use dada_engine.Prelude.Int.{ℤ}
use dada_engine.Text.{Text}
use dada_engine.Strfunc.{cookstr, strnnew}
use dada_engine.Strfunc.Cook.{quote, quote_char, cookstr-quote}
use dada_engine.Lexer.{LexState, t_literal, literal, literal_value, lex_action}

-- `[^\"]*`
abbrev pub Unquoted : Text → Type 0
Unquoted [] = Unit
Unquoted (c ∷ s) = (c ≢ b'"') × Unquoted s

-- `(\\.[^\"]*)*\"`; a dot is not a line feed.
pub data ClosesLiteral : Text → Type 0 where
  closes : ClosesLiteral (b'"' ∷ [])
  escapes :
      (c : ℕ) (u rest : Text) {t : Text}
      → c ≢ 10
      → Unquoted u
      → ClosesLiteral rest
      → t ≡ b'\\' ∷ c ∷ (u ++ rest)
      → ClosesLiteral t

-- The pattern of a literal.
pub data IsLiteral : Text → Type 0 where
  opens :
      (u rest : Text) {t : Text}
      → Unquoted u
      → ClosesLiteral rest
      → t ≡ b'"' ∷ (u ++ rest)
      → IsLiteral t

Unquoted-append : (a b : Text) → Unquoted a → Unquoted b → Unquoted (a ++ b)
Unquoted-append [] b ha hb = hb
Unquoted-append (c ∷ a) b (h, ha) hb = (h, Unquoted-append a b ha hb)

Unquoted-quote_char : (c : ℕ) → c ≢ b'"' → Unquoted (quote_char c)
Unquoted-quote_char c h = elim (Bool-cases (c == b'\\')) [
  | inl backslash ↦ rw backslash (omega arith, (omega arith, tt))
  | inr other ↦ elim (Bool-cases (c == 10)) [
    | inl line_feed ↦ rw (other, line_feed) (omega arith, (omega arith, tt))
    | inr letter ↦ rw (other, letter) (h, tt)
  ]
]

Unquoted-quote : (t : Text) → Unquoted t → Unquoted (quote t)
Unquoted-quote [] h = tt
Unquoted-quote (c ∷ t) (h, hs) =
    Unquoted-append (quote_char c) (quote t) (Unquoted-quote_char c h) (Unquoted-quote t hs)

take-append : (a b : Text) → take (length a) (a ++ b) ≡ a
take-append [] b = refl
take-append (c ∷ a) b = ap (λ t. c ∷ t) (take-append a b)

-- Between the quotation marks.
literal_value-inner : (t : Text) → literal_value (b'"' ∷ t ++ b'"' ∷ []) ≡ cookstr t
unfolding literal_value strnnew
literal_value-inner t =
    let shorter : length (b'"' ∷ t ++ b'"' ∷ []) - 2 ≡ length t =
      omega (arith, length-append t (b'"' ∷ [])) in
    ap (λ n. cookstr (take n (t ++ b'"' ∷ []))) shorter ∙ ap cookstr (take-append t (b'"' ∷ []))

-- A text without quotation marks, written with each backslash doubled and each line feed as \n
-- between quotation marks, is a literal, and the value of the token is the text.
pub lex_action-quote :
    (sscanf : Text → ℤ × Option Text) (t : Text) (s : LexState)
    → Unquoted t
    → IsLiteral (b'"' ∷ quote t ++ b'"' ∷ [])
      × (lex_action sscanf literal (b'"' ∷ quote t ++ b'"' ∷ []) s ≡ ok (some (t_literal t), s))
unfolding lex_action
lex_action-quote sscanf t s h = (
  opens (quote t) (b'"' ∷ []) (Unquoted-quote t h) closes refl,
  ap (λ v. ok (some (t_literal v), s)) (literal_value-inner (quote t) ∙ cookstr-quote t),
)
