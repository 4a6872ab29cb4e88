-- ===== src/Strfunc.antt =====
-- src/strfunc.c and src/dstring.c: string helpers. A `char *` that may be NULL is an `Option`.
pub mod Cook
use dada_engine.Prelude.{
  ℕ, zero, suc, ◌+◌, ◌-◌, ◌/◌, ◌%◌, ◌<◌, List, [], ◌∷◌, ◌++◌, Option, none, some, length, take,
  if◌then◌else◌, ◌==◌,
}
use dada_engine.Prelude.Int.{ℤ, pos, negsuc, ◌-ℤ◌}
use dada_engine.Text.{Text}

unfoldable pub strnnew : Option Text → ℕ → Option Text
strnnew none l = none
strnnew (some s) l = some (take l s)

unfoldable pub strdup : Text → Option Text
unfolding strnnew
strdup s = strnnew (some s) (length s)

unfoldable pub concat : Option Text → Option Text → Option Text
unfolding strnnew
concat none none = none
concat none (some bar) = strnnew (some bar) (length bar)
concat (some foo) none = strnnew (some foo) (length foo)
concat (some foo) (some bar) = some (foo ++ bar)

-- A NULL string counts as empty.
abbrev pub or_empty : Option Text → Text
or_empty none = []
or_empty (some s) = s

unfoldable pub dstrcat : Option Text → Option Text → Option Text
dstrcat a b = some (or_empty a ++ or_empty b)

-- The character that stands for `\c`.
unfoldable pub escape_char : ℕ → ℕ
escape_char c =
    if c == b'n'
    then 10
    else if c == b't'
    then 9
    else if c == b'v'
    then 11
    else if c == b'b'
    then 8
    else if c == b'r'
    then 13
    else if c == b'f'
    then 12
    else if c == b'a'
    then 7
    else c

-- What `cookstr` leaves in the buffer. A backslash at the very end is dropped.
unfoldable pub cookstr : Text → Text
cookstr [] = []
cookstr (c ∷ []) = if c == b'\\' then [] else c ∷ []
cookstr (c ∷ d ∷ s) =
    let escaped = escape_char d ∷ cookstr s in
    let plain = c ∷ cookstr (d ∷ s) in if c == b'\\' then escaped else plain

-- `to - from`, which `cookstr` returns.
unfoldable pub cookstr_result : Text → ℤ
unfolding cookstr
cookstr_result s = pos (length (cookstr s)) -ℤ pos (length s)
