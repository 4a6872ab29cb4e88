-- ===== src/Resolve/Runs/Formals.antt =====
-- The formal parameters that a run stands under, and what they are given.
use dada_engine.Prelude.{ℕ, ◌≤◌, ◌≡◌, List, [], Option, none, some, length, get_elem?}
use dada_engine.Prelude.Int.{negsuc}
use dada_engine.Text.{Text}
use dada_engine.Rtn.{
  Node, Nodes, symbol, mapping, deref, var_conddef, var_def, silence, star, plus, repeat_const,
  repeat_var, nil, cons, param_indexof, RuleTree, null, node, rule_find,
}
use dada_engine.Resolve.Passing.{Cooked, off_end}

-- What stands at a place of the actual parameters; behind them there is a fixed text.
pub data Supplies : Cooked → ℕ → Option Text → Type 0 where
  given : {cs : Cooked} {i : ℕ} {t : Text} → get_elem? cs i ≡ some (some t) → Supplies cs i (some t)
  off : {cs : Cooked} {i : ℕ} → length cs ≤ i → Supplies cs i (some off_end)

-- A node's `params`.
abbrev pub params_of : Node → Nodes
params_of (symbol m t ps) = ps
params_of (mapping t n) = cons n nil
params_of (deref m n) = cons n nil
params_of (var_conddef t n) = cons n nil
params_of (var_def t n) = cons n nil
params_of (silence n) = cons n nil
params_of (star n) = cons n nil
params_of (plus n) = cons n nil
params_of (repeat_const i n) = cons n nil
params_of (repeat_var t n) = cons n nil
params_of _ = nil

abbrev pub params_in : RuleTree → List Text
params_in null = []
params_in (node r left right) = r.params

-- The names of the parameters of the rule that is called so. A NULL name is looked for only in an
-- empty grammar.
abbrev pub FormalsOf : RuleTree → Option Text → List Text → Type 0
FormalsOf rules (some t) fs = fs ≡ params_in (rule_find rules t)
FormalsOf rules none fs = (rules ≡ null) × (fs ≡ [])

-- The name is that of no parameter. A NULL name is looked for only among none.
abbrev pub IsNoFormal : List Text → Option Text → Type 0
IsNoFormal fs (some t) = param_indexof fs t ≡ negsuc 0
IsNoFormal fs none = fs ≡ []
