-- ===== src/Resolve/Passing.antt =====
-- src/resolve.c, `resolve_params`: how parameters are looked up and passed.
use dada_engine.Prelude.{List, [], ◌∷◌, Option, none, some, if◌then◌else◌}
use dada_engine.Prelude.Int.{ℤ, negsuc, eqb_ℤ, ltb_ℤ}
use dada_engine.Text.{Text, codes}
use dada_engine.Ptrlist.{list_length, list_nth}
use dada_engine.Rtn.{
  Node, Nodes, literal, symbol, mapping, deref, var_conddef, var_def, var_ref, silence, star, plus,
  repeat_const, repeat_var, code, choice, nil, cons, param_indexof, RuleTree, null, node, rule_find,
}
use dada_engine.Engine.{Env, M, ◌>>=◌, pure, crash}

-- A resolved string may be NULL.
abbrev pub Cooked : Type 0
Cooked = List (Option Text)

abbrev pub Resolver : Type 0
Resolver = Node → List Text → Cooked → M (Option Text)

abbrev pub off_end : Text
off_end = codes "(parameter off end of list)"

-- `strdup` of a string that may be NULL.
abbrev pub strdup : Option Text → M (Option Text)
strdup none = crash
strdup (some t) = pure (some t)

-- `strdup(l->data)`; `l` may be NULL.
abbrev pub first_cell : Cooked → M (Option Text)
first_cell [] = crash
first_cell (t ∷ rest) = strdup t

-- The parameter at a place that `param_indexof` has found.
unfoldable pub actual : ℤ → Cooked → M (Option Text)
unfolding list_length list_nth
actual index cooked =
    if ltb_ℤ index (list_length cooked)
    then first_cell (list_nth cooked index)
    else pure (some off_end)

-- `in->data`, read as a string. Code and an inline choice have the address of a structure there, whose
-- bytes are read; the other nodes have NULL.
abbrev pub data_of : Env → Node → Option Text
data_of env (literal t) = some t
data_of env (symbol m t ps) = some t
data_of env (mapping t n) = some t
data_of env (var_conddef t n) = some t
data_of env (var_def t n) = some t
data_of env (var_ref t) = some t
data_of env (repeat_var t n) = some t
data_of env (code is) = some (env.raw (code is))
data_of env (choice at options) = some (env.raw (choice at options))
data_of env _ = none

-- `param_indexof(formal, in->data)`, and the parameters of the rule called `in->data`.
unfoldable pub formal_index : List Text → Option Text → M ℤ
unfolding param_indexof
formal_index formal (some t) = pure (param_indexof formal t)
formal_index [] none = pure (negsuc 0)
formal_index (x ∷ formal) none = crash

unfoldable pub callee_formal : RuleTree → Option Text → M (List Text)
unfolding rule_find
callee_formal rules (some t) = elim (rule_find rules t) [
  | null ↦ pure []
  | node r left right ↦ pure r.params
]
callee_formal null none = pure []
callee_formal (node r left right) none = crash

-- One node of `resolve_params`, once its own parameters are resolved by `inner`.
unfoldable pub resolve_param :
    Resolver → Env → List Text → Cooked → Node → M Cooked → M (Option Text)
unfolding formal_index callee_formal actual
resolve_param self env formal cooked atom inner = do
  let cascade = λ (i : ℤ). actual i cooked
  let resolved =
      callee_formal env.rules (data_of env atom) >>= λ fs. inner >>= λ cs. self atom fs cs
  index ← formal_index formal (data_of env atom)
  if eqb_ℤ index (negsuc 0) then resolved else cascade index

abbrev pub one : M (Option Text) → M Cooked
one m = m >>= λ t. pure (t ∷ [])

unfoldable mutual
  pub resolve_params : Resolver → Env → List Text → Cooked → Nodes → M Cooked
  resolve_params self env formal cooked nil = pure []
  resolve_params self env formal cooked (cons atom next) = do
    t ← resolve_param self env formal cooked atom (resolve_subparams self env formal cooked atom)
    rest ← resolve_params self env formal cooked next
    pure (t ∷ rest)

  -- `resolve_params` on the node's own `params`.
  pub resolve_subparams : Resolver → Env → List Text → Cooked → Node → M Cooked
  resolve_subparams self env formal cooked (symbol m t ps) =
      resolve_params self env formal cooked ps
  resolve_subparams self env formal cooked (mapping t n) =
      one (resolve_param self env formal cooked n (resolve_subparams self env formal cooked n))
  resolve_subparams self env formal cooked (deref m n) =
      one (resolve_param self env formal cooked n (resolve_subparams self env formal cooked n))
  resolve_subparams self env formal cooked (var_conddef t n) =
      one (resolve_param self env formal cooked n (resolve_subparams self env formal cooked n))
  resolve_subparams self env formal cooked (var_def t n) =
      one (resolve_param self env formal cooked n (resolve_subparams self env formal cooked n))
  resolve_subparams self env formal cooked (silence n) =
      one (resolve_param self env formal cooked n (resolve_subparams self env formal cooked n))
  resolve_subparams self env formal cooked (star n) =
      one (resolve_param self env formal cooked n (resolve_subparams self env formal cooked n))
  resolve_subparams self env formal cooked (plus n) =
      one (resolve_param self env formal cooked n (resolve_subparams self env formal cooked n))
  resolve_subparams self env formal cooked (repeat_const i n) =
      one (resolve_param self env formal cooked n (resolve_subparams self env formal cooked n))
  resolve_subparams self env formal cooked (repeat_var t n) =
      one (resolve_param self env formal cooked n (resolve_subparams self env formal cooked n))
  resolve_subparams self env formal cooked _ = pure []
