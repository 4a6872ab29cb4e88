-- ===== src/Lexer.antt =====
-- src/lexer.x: the actions that lex does on what a pattern has matched. Which pattern matches, and how
-- much of the text, is up to the code that lex generates: a pattern and its `yytext` are given.
-- `sscanf` with "%d %s" is a parameter, and the value that `atof` gives is left as its text, since
-- nothing reads it.
pub mod Literals
use dada_engine.Prelude.{
  ℕ, ◌-◌, List, [], ◌∷◌, Bool, true, false, Option, none, some, Outcome, ok, fault, length, drop,
  ltb, if◌then◌else◌,
}
use dada_engine.Prelude.Int.{ℤ, pos, ◌+ℤ◌, ◌-ℤ◌}
use dada_engine.Text.{Text, codes, str_eq}
use dada_engine.Text.Decimal.{atoi}
use dada_engine.Strfunc.{strnnew, cookstr, or_empty}

-- The tokens with their values. `letter` is one that is returned as a character.
pub data Token : Type 0 where
  t_xform t_cond t_exists t_num t_repeat t_unique t_enum t_pick t_resource t_deref t_ellipsis :
      Token
  t_integer : ℤ → Token
  t_real t_literal t_ident : Text → Token
  letter : ℕ → Token

-- The patterns of the rules; `directive` is a word behind a percent sign, and `sign` any of the
-- patterns that are one character or an arrow.
pub data Pattern : Type 0 where
  line_end line_marker hash_comment slash_comment comment_open comment_close comment_text white
        integer real literal directive ident sign :
      Pattern

-- `cur_line`, `cur_file` and the start condition.
pub record LexState : Type 0 where
  pub cur_line : ℤ
  pub cur_file : Text
  pub in_comment : Bool

-- `char cur_file[1024]`
abbrev pub file_size : ℕ
file_size = 1024

-- A pattern with no action behind it is dropped: so are "%exists", "%E", "%num" and "%N".
unfoldable pub directive_token : Text → Option Token
directive_token t =
    if str_eq t (codes "%trans")
    then some t_xform
    else if str_eq t (codes "%cond")
    then some t_cond
    else if str_eq t (codes "%e")
    then some t_exists
    else if str_eq t (codes "%n")
    then some t_num
    else if str_eq t (codes "%repeat")
    then some t_repeat
    else if str_eq t (codes "%unique")
    then some t_unique
    else if str_eq t (codes "%enum")
    then some t_enum
    else if str_eq t (codes "%pick")
    then some t_pick
    else if str_eq t (codes "%resource")
    then some t_resource
    else none

-- The last rule returns the first character.
abbrev first_letter : Text → Token
first_letter [] = letter 0
first_letter (c ∷ s) = letter c

unfoldable pub sign_token : Text → Token
sign_token t =
    if str_eq t (codes "->")
    then letter b'M'
    else if str_eq t (codes "<->")
    then letter b'R'
    else if str_eq t (codes "<<")
    then letter b'V'
    else if str_eq t (codes ">>")
    then letter b'G'
    else if str_eq t (codes "@")
    then t_deref
    else if str_eq t (codes "..")
    then t_ellipsis
    else first_letter t

-- `strnnew(yytext+1, yyleng-2)`, cooked.
unfoldable pub literal_value : Text → Text
unfolding strnnew cookstr
literal_value yytext = cookstr (or_empty (strnnew (some (drop 1 yytext)) (length yytext - 2)))

-- What `sscanf` reads: a number, and a word if there is one, which `cur_file` must have room for.
unfoldable pub mark_line : ℤ × Option Text → LexState → Outcome LexState
mark_line (line, none) s = ok (record s { cur_line = line -ℤ pos 1 })
mark_line (line, some file) s =
    if ltb (length file) file_size
    then ok (record s { cur_line = line -ℤ pos 1; cur_file = file })
    else fault

module _ (sscanf : Text → ℤ × Option Text) where
  -- A rule's action; `none` where it does not return.
  unfoldable pub lex_action : Pattern → Text → LexState → Outcome (Option Token × LexState)
  unfolding directive_token sign_token literal_value mark_line
  lex_action line_end yytext s = ok (none, record s { cur_line = s.cur_line +ℤ pos 1 })
  lex_action line_marker yytext s =
      elim (mark_line (sscanf (drop 2 yytext)) s) as (λ _. Outcome (Option Token × LexState)) [
        | ok t ↦ ok (none, t)
        | Outcome.exited n ↦ Outcome.exited n
        | fault ↦ fault
        | Outcome.timeout ↦ Outcome.timeout
      ]
  lex_action comment_open yytext s = ok (none, record s { in_comment = true })
  lex_action comment_close yytext s = ok (none, record s { in_comment = false })
  lex_action integer yytext s = ok (some (t_integer (atoi yytext)), s)
  lex_action real yytext s = ok (some (t_real yytext), s)
  lex_action literal yytext s = ok (some (t_literal (literal_value yytext)), s)
  lex_action directive yytext s = ok (directive_token yytext, s)
  lex_action ident yytext s = ok (some (t_ident yytext), s)
  lex_action sign yytext s = ok (some (sign_token yytext), s)
  lex_action hash_comment yytext s = ok (none, s)
  lex_action slash_comment yytext s = ok (none, s)
  lex_action comment_text yytext s = ok (none, s)
  lex_action white yytext s = ok (none, s)
