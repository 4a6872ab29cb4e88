-- ===== src/Tests/Lexer.antt =====
-- Literals, and words that the lexer drops.
use dada_engine.Prelude.{◌≡◌, refl, [], ◌∷◌, ◌++◌, Option, some, none, ok, arith, false}
use dada_engine.Prelude.Int.{ℤ, pos}
use dada_engine.Text.{Text, codes, strcmp}
use dada_engine.Strfunc.Cook.{quote}
use dada_engine.Lexer.{LexState, t_literal, t_exists, literal, lex_action, directive_token}
use dada_engine.Lexer.Literals.{Unquoted, IsLiteral, lex_action-quote}

abbrev state : LexState
state = record { cur_line = pos 1; cur_file = codes "Wibble."; in_comment = false }

abbrev no_word : Text → ℤ × Option Text
no_word s = (pos 0, none)

-- A backslash, and the letter a before it.
abbrev slashed : Text
slashed = b'a' ∷ b'\\' ∷ []

slashed-Unquoted : Unquoted slashed
slashed-Unquoted = (omega arith, (omega arith, tt))

lex_action-quote_example :
    IsLiteral (b'"' ∷ quote slashed ++ b'"' ∷ [])
    × (lex_action no_word literal (b'"' ∷ quote slashed ++ b'"' ∷ []) state
        ≡ ok (some (t_literal slashed), state))
lex_action-quote_example = lex_action-quote no_word slashed state slashed-Unquoted

-- Of the three spellings only the last is a token.
exists_dropped : directive_token (codes "%exists") ≡ none
unfolding directive_token strcmp
exists_dropped = refl

exists_kept : directive_token (codes "%e") ≡ some t_exists
unfolding directive_token strcmp
exists_kept = refl
