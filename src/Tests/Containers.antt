-- ===== src/Tests/Containers.antt =====
-- Dictionaries, variables, rules, lists and strings.
use dada_engine.Prelude.{ℕ, ◌+◌, ◌≡◌, refl, [], ◌∷◌, some, if◌then◌else◌}
use dada_engine.Prelude.Int.{pos, sub_ℕ, ◌+ℤ◌}
use dada_engine.Text.{codes, str_eq, strcmp}
use dada_engine.Dict.{
  Dict, dictnode, insert, dict_def, dict_get, dict_nth, dict_ord, dict_preorder_traverse,
}
use dada_engine.Dict.Order.{IsOrdered, insert-IsOrdered}
use dada_engine.Dict.Lookup.{found, dict_get-dict_def}
use dada_engine.Dict.Position.{visit, rank, dict_ord_lem, dict_preorder_traverse-visit}
use dada_engine.Dict.RoundTrip.{dict_nth-dict_ord}
use dada_engine.Variables
use dada_engine.Variables.{Vars, var, int, str, var_lookup, var_put, var_put_int}
use dada_engine.Variables.Laws.{var_lookup-var_put}

-- "b" above "a" and "d".
abbrev dict : Dict ℕ
dict =
    dictnode (codes "b") 2 (dictnode (codes "a") 1 Dict.null Dict.null)
      (dictnode (codes "d") 4 Dict.null Dict.null)

dict-IsOrdered : IsOrdered dict
unfolding strcmp
dict-IsOrdered = ((refl, tt, tt), (refl, tt, tt), (tt, tt, tt, tt), (tt, tt, tt, tt))

insert-IsOrdered_example : IsOrdered (insert dict (codes "c") 3)
insert-IsOrdered_example = insert-IsOrdered dict (codes "c") 3 dict-IsOrdered

dict_get-dict_def_example :
    dict_get (dict_def dict (codes "c") 3) (codes "a")
    ≡ (if str_eq (codes "a") (codes "c") then some 3 else dict_get dict (codes "a"))
dict_get-dict_def_example = dict_get-dict_def dict (codes "c") (codes "a") 3

dict_preorder_traverse-visit_example :
    dict_preorder_traverse dict (λ v s. v ∷ s) [] ≡ visit (λ v s. v ∷ s) (2 ∷ 1 ∷ 4 ∷ []) []
dict_preorder_traverse-visit_example =
    dict_preorder_traverse-visit (codes "b") 2 (dictnode (codes "a") 1 Dict.null Dict.null)
      (dictnode (codes "d") 4 Dict.null Dict.null) (λ v s. v ∷ s) []

dict_ord_lem_example :
    dict_ord dict (codes "c") ≡ sub_ℕ (rank dict (codes "c") + found (dict_get dict (codes "c"))) 1
dict_ord_lem_example = dict_ord_lem dict (codes "c") dict-IsOrdered

-- A missing key has the number of a key that is there.
ord_missing : dict_ord dict (codes "c") ≡ pos 1
unfolding dict_ord strcmp ◌+ℤ◌
ord_missing = refl

dict_nth-dict_ord_example : dict_nth dict (dict_ord dict (codes "d")) ≡ some 4
unfolding dict_get strcmp
dict_nth-dict_ord_example = dict_nth-dict_ord dict (codes "d") 4 refl

abbrev vars : Vars
vars = var (codes "x") (int (pos 7)) Variables.null Variables.null

var_lookup-var_put_example :
    var_lookup (var_put vars (codes "x") (some (codes "up"))) (codes "x") ≡ (
      if str_eq (codes "x") (codes "x")
      then some (str (some (codes "up")))
      else var_lookup vars (codes "x"))
unfolding var_lookup strcmp
var_lookup-var_put_example =
    var_lookup-var_put vars (codes "x") (codes "x") (some (codes "up")) (int (pos 7)) refl
