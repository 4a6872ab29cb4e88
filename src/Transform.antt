-- ===== src/Transform.antt =====
-- src/transform.h and src/transform.c: sed-style transformations.
-- A character array that is being written is a `Buffer`: what it holds from its start, whether a
-- NUL has been written behind that, and its size. A write past its end, and a search for the NUL
-- where there is none, are faults.
pub mod Address
pub mod Case
use dada_engine.Prelude.{
  ℕ, zero, suc, ◌+◌, ◌-◌, ◌%◌, List, [], ◌∷◌, ◌++◌, Bool, true, false, ◌&&◌, ◌||◌, Option, none,
  some, Outcome, ok, fault, timeout, length, take, drop, leb, ltb, ◌==◌, if◌then◌else◌,
}
use dada_engine.Prelude.Ends.{◌>>=◌}
use dada_engine.Prelude.Int.{ℤ, pos, negsuc}
use dada_engine.Text.{Text, str_eq}
use dada_engine.Map.{Regex, matched, regex_subst}

-- `TransCmd` without its link: a command is told by the first character of `cmdname`.
pub record TransCmd : Type 0 where
  pub addr : Option (ℤ × ℤ)
  pub cmdname : Text
  pub params : List Text

pub record TransOpt : Type 0 where
  pub key : Text
  pub cmds : List TransCmd

pub record Transformation : Type 0 where
  pub name : Text
  pub options : List TransOpt

-- At most three characters of the name are kept.
unfoldable pub new_transcmd : Option (ℤ × ℤ) → Text → List Text → TransCmd
new_transcmd addr id args = record { addr = addr; cmdname = take 3 id; params = args }

unfoldable pub new_transopt : Text → List TransCmd → TransOpt
new_transopt key cmds = record { key = key; cmds = cmds }

unfoldable pub new_transformation : Text → List TransOpt → Transformation
new_transformation name opts = record { name = name; options = opts }

unfoldable pub trans_lookup : List Transformation → Text → Option Transformation
trans_lookup [] name = none
trans_lookup (t ∷ next) name = if str_eq t.name name then some t else trans_lookup next name

-- `while(addr<0) addr+=l;` on -(n + 1), with `l` positive.
unfoldable pub raise : ℕ → ℕ → ℕ → Outcome ℕ
raise zero n l = timeout
raise (suc f) n l = let again = raise f (n - l) l in if leb l n then again else ok (l - (n + 1))

unfoldable pub addr_normalise : ℤ → Text → Outcome ℕ
unfolding raise
addr_normalise (pos a) input = if length input == 0 then ok 0 else ok (a % length input)
addr_normalise (negsuc n) input =
    if length input == 0
    then ok 0
    else (raise (suc n) n (length input) >>= λ a. ok (a % length input))

pub record Buffer : Type 0 where
  pub held : Text
  pub closed : Bool
  pub size : ℕ

-- `*r = '\0'` on a fresh buffer.
unfoldable pub clear : ℕ → Outcome Buffer
clear size = if size == 0 then fault else ok (record { held = []; closed = true; size = size })

-- `strncpy(r, s, n)`: no NUL is written unless `s` is shorter than `n`.
unfoldable pub strncpy : Buffer → Text → ℕ → Outcome Buffer
strncpy b s n =
    if n == 0
    then ok b
    else if leb n b.size
    then ok (record { held = take n s; closed = ltb (length s) n; size = b.size })
    else fault

-- `strncat(r, s, n)` writes a NUL behind what it adds.
unfoldable pub strncat : Buffer → Text → ℕ → Outcome Buffer
strncat b s n =
    if b.closed && ltb (length b.held + length (take n s)) b.size
    then ok (record b { held = b.held ++ take n s })
    else fault

unfoldable pub tolower : ℕ → ℕ
tolower c = if leb b'A' c && leb c b'Z' then c + 32 else c

unfoldable pub toupper : ℕ → ℕ
toupper c = if leb b'a' c && leb c b'z' then c - 32 else c

-- `tolower` and `toupper` are defined on what an unsigned char holds and on EOF. A `char` is signed:
-- a byte of 128 or more is negative, and of these only 255 is EOF, which is given back.
abbrev pub is_character : ℕ → Bool
is_character c = ltb c 128 || (c == 255)

unfoldable pub change_first : (ℕ → ℕ) → ℕ → Text → Outcome Text
change_first f zero s = ok s
change_first f (suc n) [] = ok []
change_first f (suc n) (c ∷ s) =
    let rest = change_first f n s in if is_character c then (rest >>= λ r. ok (f c ∷ r)) else fault

-- `for(i=from; i<=to; i++) input[i] = f(input[i]);` with `stop` for `to + 1`.
unfoldable pub change_range : (ℕ → ℕ) → ℕ → ℕ → Text → Outcome Text
unfolding change_first
change_range f from stop input =
    change_first f (stop - from) (drop from input) >>= λ r. ok (take from input ++ r)

-- `from` and `to + 1`.
unfoldable pub cmd_range : Option (ℤ × ℤ) → Text → Outcome (ℕ × ℕ)
unfolding addr_normalise
cmd_range none input = ok (0, length input)
cmd_range (some (a, b)) input =
    addr_normalise a input >>= λ from. addr_normalise b input >>= λ to. ok (from, to + 1)

-- The size given to `malloc` leaves no room for the closing NUL.
unfoldable pub delete_range : ℕ → ℕ → Text → Outcome Text
unfolding clear strncpy strncat
delete_range from stop input = clear (length input + from - stop) >>= λ r.
    strncpy r input from >>= λ r'.
    strncat r' (drop stop input) (length input - stop) >>= λ r''. ok r''.held

-- `list_nth(params, i)->data`
abbrev pub first_two : List Text → Outcome (Text × Text)
first_two (a ∷ b ∷ rest) = ok (a, b)
first_two _ = fault

-- The first character of a name that may be empty.
abbrev pub first_char : Text → ℕ
first_char [] = 0
first_char (c ∷ s) = c

module _ (re : Regex) where
  -- The result of `regcomp` is not looked at.
  unfoldable pub transopt_match : List TransOpt → Text → Option TransOpt
  transopt_match [] string = none
  transopt_match (opt ∷ next) string =
      if matched (re.regexec opt.key string false) then some opt else transopt_match next string

  -- The `switch` on the command's first character; an unknown command changes nothing.
  unfoldable pub xform_switch : ℕ → Text → List Text → ℕ → ℕ → Outcome (Option Text)
  unfolding delete_range change_range tolower toupper regex_subst
  xform_switch name input params from stop =
      if name == b'd'
      then (delete_range from stop input >>= λ r. ok (some r))
      else if name == b'l'
      then (change_range tolower from stop input >>= λ r. ok (some r))
      else if name == b's'
      then (first_two params >>= λ (a, b). regex_subst re input a b)
      else if name == b'u'
      then (change_range toupper from stop input >>= λ r. ok (some r))
      else ok (some input)

  unfoldable pub apply_xform_cmd : Option Text → TransCmd → Outcome (Option Text)
  unfolding cmd_range xform_switch
  apply_xform_cmd none cmd = fault
  apply_xform_cmd (some input) cmd = cmd_range cmd.addr input >>= λ (from, stop).
      xform_switch (first_char cmd.cmdname) input cmd.params from stop

  unfoldable pub run_cmds : Option Text → List TransCmd → Outcome (Option Text)
  unfolding apply_xform_cmd
  run_cmds input [] = ok input
  run_cmds input (cmd ∷ next) = apply_xform_cmd input cmd >>= λ r. run_cmds r next

  -- `regexec` on a NULL input is a fault, if there is an option to match.
  unfoldable pub apply_xform : Option Text → Option Transformation → Outcome (Option Text)
  unfolding transopt_match run_cmds
  apply_xform input none = ok input
  apply_xform none (some xfm) = elim xfm.options [ [] ↦ ok none | x ∷ xs ↦ fault ]
  apply_xform (some s) (some xfm) = elim (transopt_match xfm.options s) [
    | none ↦ ok (some s)
    | some option ↦ run_cmds (some s) option.cmds
  ]
