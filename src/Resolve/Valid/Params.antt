-- ===== src/Resolve/Valid/Params.antt =====
-- src/resolve.c, `resolve_params`, and the invariant of the engine's state.
use dada_engine.Prelude.{List, [], ◌∷◌, Option, none, some}
use dada_engine.Prelude.Int.{ℤ, negsuc, eqb_ℤ, ltb_ℤ}
use dada_engine.Text.{Text}
use dada_engine.Ptrlist.{list_length, list_nth}
use dada_engine.Rtn.{
  Node, Nodes, literal, symbol, mapping, deref, var_conddef, var_def, var_ref, code, silence,
  choice, star, plus, repeat_const, repeat_var, nil, cons, RuleTree, null, node, rule_find,
}
use dada_engine.Engine.{Env, M, pure}
use dada_engine.Resolve.Passing.{
  Cooked, Resolver, strdup, first_cell, actual, data_of, formal_index, callee_formal, resolve_param,
  one, resolve_params, resolve_subparams,
}
use dada_engine.Resolve.Yields.{crashes}
use dada_engine.Machine.Valid.{Keeps, Keeps-bind, Keeps-pure, Keeps-if}

pub Keeps-strdup : (t : Option Text) → Keeps (strdup t)
Keeps-strdup none = λ s v. crashes
Keeps-strdup (some t) = Keeps-pure (some t)

Keeps-first_cell : (c : Cooked) → Keeps (first_cell c)
Keeps-first_cell [] = λ s v. crashes
Keeps-first_cell (t ∷ rest) = Keeps-strdup t

pub Keeps-actual : (index : ℤ) (cooked : Cooked) → Keeps (actual index cooked)
unfolding actual
Keeps-actual index cooked =
    Keeps-if (ltb_ℤ index (list_length cooked)) (Keeps-first_cell (list_nth cooked index))
      (Keeps-pure _)

Keeps-formal_index : (formal : List Text) (t : Option Text) → Keeps (formal_index formal t)
unfolding formal_index
Keeps-formal_index formal (some t) = Keeps-pure _
Keeps-formal_index [] none = Keeps-pure _
Keeps-formal_index (x ∷ formal) none = λ s v. crashes

Keeps-callee_formal : (rules : RuleTree) (t : Option Text) → Keeps (callee_formal rules t)
unfolding callee_formal
Keeps-callee_formal rules (some t) = found (rule_find rules t)
  where
    found :
        (r : RuleTree)
        → Keeps {A = List Text} (elim r [ null ↦ pure [] | node r left right ↦ pure r.params ])
    found null = Keeps-pure []
    found (node r left right) = Keeps-pure r.params
Keeps-callee_formal null none = Keeps-pure []
Keeps-callee_formal (node r left right) none = λ s v. crashes

-- What a resolver does with every node.
abbrev pub Keeper : Resolver → Type 0
Keeper self = (n : Node) (formal : List Text) (cooked : Cooked) → Keeps (self n formal cooked)

Keeps-one : (m : M (Option Text)) → Keeps m → Keeps (one m)
Keeps-one m k = Keeps-bind k λ t. Keeps-pure (t ∷ [])

Keeps-param :
    (self : Resolver) (env : Env) (formal : List Text) (cooked : Cooked) (atom : Node)
    (inner : M Cooked)
    → Keeper self
    → Keeps inner
    → Keeps (resolve_param self env formal cooked atom inner)
unfolding resolve_param
Keeps-param self env formal cooked atom inner k l =
    Keeps-bind (Keeps-formal_index formal (data_of env atom)) λ index.
      Keeps-if (eqb_ℤ index (negsuc 0))
        (Keeps-bind (Keeps-callee_formal env.rules (data_of env atom))
          λ fs. Keeps-bind l λ cs. k atom fs cs)
        (Keeps-actual index cooked)

mutual
  unfolding resolve_params

  pub Keeps-params :
      (self : Resolver) (env : Env) (formal : List Text) (cooked : Cooked) (ns : Nodes)
      → Keeper self
      → Keeps (resolve_params self env formal cooked ns)
  Keeps-params self env formal cooked nil k = Keeps-pure []
  Keeps-params self env formal cooked (cons atom next) k =
      Keeps-bind
        (Keeps-param self env formal cooked atom _ k
          (Keeps-subparams self env formal cooked atom k))
        λ t. Keeps-bind (Keeps-params self env formal cooked next k) λ rest. Keeps-pure (t ∷ rest)

  Keeps-subparams :
      (self : Resolver) (env : Env) (formal : List Text) (cooked : Cooked) (atom : Node)
      → Keeper self
      → Keeps (resolve_subparams self env formal cooked atom)
  Keeps-subparams self env formal cooked (symbol m t ps) k =
      Keeps-params self env formal cooked ps k
  Keeps-subparams self env formal cooked (mapping t n) k =
      Keeps-one _
        (Keeps-param self env formal cooked n _ k (Keeps-subparams self env formal cooked n k))
  Keeps-subparams self env formal cooked (deref m n) k =
      Keeps-one _
        (Keeps-param self env formal cooked n _ k (Keeps-subparams self env formal cooked n k))
  Keeps-subparams self env formal cooked (var_conddef t n) k =
      Keeps-one _
        (Keeps-param self env formal cooked n _ k (Keeps-subparams self env formal cooked n k))
  Keeps-subparams self env formal cooked (var_def t n) k =
      Keeps-one _
        (Keeps-param self env formal cooked n _ k (Keeps-subparams self env formal cooked n k))
  Keeps-subparams self env formal cooked (silence n) k =
      Keeps-one _
        (Keeps-param self env formal cooked n _ k (Keeps-subparams self env formal cooked n k))
  Keeps-subparams self env formal cooked (star n) k =
      Keeps-one _
        (Keeps-param self env formal cooked n _ k (Keeps-subparams self env formal cooked n k))
  Keeps-subparams self env formal cooked (plus n) k =
      Keeps-one _
        (Keeps-param self env formal cooked n _ k (Keeps-subparams self env formal cooked n k))
  Keeps-subparams self env formal cooked (repeat_const i n) k =
      Keeps-one _
        (Keeps-param self env formal cooked n _ k (Keeps-subparams self env formal cooked n k))
  Keeps-subparams self env formal cooked (repeat_var t n) k =
      Keeps-one _
        (Keeps-param self env formal cooked n _ k (Keeps-subparams self env formal cooked n k))
  Keeps-subparams self env formal cooked (literal t) k = Keeps-pure []
  Keeps-subparams self env formal cooked (var_ref t) k = Keeps-pure []
  Keeps-subparams self env formal cooked (code is) k = Keeps-pure []
  Keeps-subparams self env formal cooked (choice at options) k = Keeps-pure []
