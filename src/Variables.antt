-- ===== src/Variables.antt =====
-- src/variables.c: the global variables, as an unbalanced search tree over their names.
-- `new_str_var` and `new_int_var` end without a `return`; the model has them return the variable
-- that they have filled, which is what their callers rely on.
pub mod Laws
pub mod Order
use dada_engine.Prelude.{Option, none, some, Ordering}
use dada_engine.Prelude.Int.{ℤ, pos}
use dada_engine.Text.{Text, strcmp}
use dada_engine.Text.Decimal.{print_int}

-- `type_t`
pub data TypeT : Type 0 where
  mu int_t string_t : TypeT

-- A type and the union of contents that goes with it. A string may be NULL.
pub data Value : Type 0 where
  int : ℤ → Value
  str : Option Text → Value

-- `struct var *`
pub data Vars : Type 0 where
  null : Vars
  var : Text → Value → Vars → Vars → Vars

unfoldable pub new_str_var : Text → Option Text → Vars
new_str_var name val = var name (str val) null null

unfoldable pub new_int_var : Text → ℤ → Vars
new_int_var name val = var name (int val) null null

unfoldable pub var_insert_str : Vars → Text → Option Text → Vars
unfolding new_str_var
var_insert_str null name val = new_str_var name val
var_insert_str (var n v left right) name val = elim (strcmp name n) [
  | Ordering.eq ↦ var n (str val) left right
  | Ordering.lt ↦ var n v (var_insert_str left name val) right
  | Ordering.gt ↦ var n v left (var_insert_str right name val)
]

unfoldable pub var_insert_int : Vars → Text → ℤ → Vars
unfolding new_int_var
var_insert_int null name val = new_int_var name val
var_insert_int (var n v left right) name val = elim (strcmp name n) [
  | Ordering.eq ↦ var n (int val) left right
  | Ordering.lt ↦ var n v (var_insert_int left name val) right
  | Ordering.gt ↦ var n v left (var_insert_int right name val)
]

-- The value of the variable that the search ends at; NULL is `none`.
unfoldable pub var_lookup : Vars → Text → Option Value
var_lookup null key = none
var_lookup (var n v left right) key = elim (strcmp n key) [
  | Ordering.eq ↦ some v
  | Ordering.gt ↦ var_lookup left key
  | Ordering.lt ↦ var_lookup right key
]

unfoldable pub var_type : Vars → Text → TypeT
var_type tree key = elim (var_lookup tree key) [
  | none ↦ mu
  | some (int i) ↦ int_t
  | some (str s) ↦ string_t
]

-- What a value reads as where a string is wanted.
abbrev pub text_of_value : Value → Option Text
text_of_value (str s) = s
text_of_value (int i) = some (print_int i)

unfoldable pub var_fetch : Vars → Text → Option Text
var_fetch vars var_name = elim (var_lookup vars var_name) [ none ↦ none | some v ↦ text_of_value v ]

unfoldable pub var_fetch_int : Vars → Text → ℤ
var_fetch_int vars var_name = elim (var_lookup vars var_name) [
  | none ↦ pos 0
  | some (int i) ↦ i
  | some (str s) ↦ pos 0
]

unfoldable pub var_put : Vars → Text → Option Text → Vars
unfolding var_insert_str
var_put vars var_name value = var_insert_str vars var_name value

unfoldable pub var_put_int : Vars → Text → ℤ → Vars
unfolding var_insert_int
var_put_int vars var_name value = var_insert_int vars var_name value
