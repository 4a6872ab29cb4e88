-- ===== src/Variables/Order.antt =====
-- src/variables.c: the search-tree invariant of the variables.
use dada_engine.Prelude.{◌≡◌, arith, Option, Ordering}
use dada_engine.Prelude.Int.{ℤ}
use dada_engine.Text.{Text, strcmp}
use dada_engine.Text.Order.{lt_of_gt}
use dada_engine.Variables.{Vars, null, var, var_insert_str, var_insert_int}

-- Every name of the tree satisfies `P`.
abbrev pub Names : (Text → Type 0) → Vars → Type 0
Names P null = Unit
Names P (var n v l r) = P n × Names P l × Names P r

abbrev pub IsOrdered : Vars → Type 0
IsOrdered null = Unit
IsOrdered (var n v l r) =
    Names (λ m. strcmp m n ≡ Ordering.lt) l
    × Names (λ m. strcmp n m ≡ Ordering.lt) r
    × IsOrdered l
    × IsOrdered r

Names-var_insert_str :
    (P : Text → Type 0) (t : Vars) (name : Text) (val : Option Text)
    → P name
    → Names P t
    → Names P (var_insert_str t name val)
unfolding var_insert_str
Names-var_insert_str P null name val p a = (p, tt, tt)
Names-var_insert_str P (var n v l r) name val p a =
    ground (arith, Names-var_insert_str P l name val, Names-var_insert_str P r name val)

Names-var_insert_int :
    (P : Text → Type 0) (t : Vars) (name : Text) (val : ℤ)
    → P name
    → Names P t
    → Names P (var_insert_int t name val)
unfolding var_insert_int
Names-var_insert_int P null name val p a = (p, tt, tt)
Names-var_insert_int P (var n v l r) name val p a =
    ground (arith, Names-var_insert_int P l name val, Names-var_insert_int P r name val)

pub var_insert_str-IsOrdered :
    (t : Vars) (name : Text) (val : Option Text)
    → IsOrdered t
    → IsOrdered (var_insert_str t name val)
unfolding var_insert_str
var_insert_str-IsOrdered null name val s = (tt, tt, tt, tt)
var_insert_str-IsOrdered (var n v l r) name val s = ground (
  arith,
  var_insert_str-IsOrdered l name val,
  var_insert_str-IsOrdered r name val,
  Names-var_insert_str (λ m. strcmp m n ≡ Ordering.lt) l name val,
  Names-var_insert_str (λ m. strcmp n m ≡ Ordering.lt) r name val,
  lt_of_gt name n,
)

pub var_insert_int-IsOrdered :
    (t : Vars) (name : Text) (val : ℤ) → IsOrdered t → IsOrdered (var_insert_int t name val)
unfolding var_insert_int
var_insert_int-IsOrdered null name val s = (tt, tt, tt, tt)
var_insert_int-IsOrdered (var n v l r) name val s = ground (
  arith,
  var_insert_int-IsOrdered l name val,
  var_insert_int-IsOrdered r name val,
  Names-var_insert_int (λ m. strcmp m n ≡ Ordering.lt) l name val,
  Names-var_insert_int (λ m. strcmp n m ≡ Ordering.lt) r name val,
  lt_of_gt name n,
)
