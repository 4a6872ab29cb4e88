-- ===== src/Variables/Laws.antt =====
-- src/variables.c: what is read after a write.
use dada_engine.Prelude.{◌≡◌, Option, some, arith, Ordering, if◌then◌else◌}
use dada_engine.Text.{Text, strcmp, str_eq}
use dada_engine.Text.Order.{eq_of_strcmp, strcmp_refl, lt_of_gt, gt_of_lt}
use dada_engine.Variables.{Value, str, Vars, null, var, var_lookup, var_put}

-- The comparison of a look-up is the other way round than that of an insertion.
strcmp_eq_symm : (s t : Text) → strcmp s t ≡ Ordering.eq → strcmp t s ≡ Ordering.eq
strcmp_eq_symm s t h = ground (arith, eq_of_strcmp s t h, strcmp_refl s)

-- After a string is put into a variable that is there, a look-up of it finds the string, and a look-up
-- of any other variable finds what it found before.
pub var_lookup-var_put :
    (vars : Vars) (name key : Text) (value : Option Text) (old : Value)
    → var_lookup vars name ≡ some old
    → var_lookup (var_put vars name value) key
      ≡ (if str_eq name key then some (str value) else var_lookup vars key)
unfolding var_lookup var_put
var_lookup-var_put null name key value old h = cc
var_lookup-var_put (var n v l r) name key value old h = ground (
  arith,
  var_lookup-var_put l name key value old,
  var_lookup-var_put r name key value old,
  eq_of_strcmp name n,
  eq_of_strcmp n key,
  eq_of_strcmp name key,
  strcmp_refl n,
  lt_of_gt name n,
  gt_of_lt name n,
  strcmp_eq_symm name n,
)
