-- ===== src/Check.antt =====
-- src/check.c: the search for undefined names in a grammar. `errors` is passed on from call to call;
-- a grammar is taken to have fewer than 2^31 names. The messages are left out.
pub mod Defined
use dada_engine.Prelude.{
  ℕ, suc, ◌+◌, Bool, true, false, ◌&&◌, List, Option, none, some, Outcome, ok, exited, ltb,
  if◌then◌else◌,
}
use dada_engine.Prelude.Ends.{◌>>=◌}
use dada_engine.Prelude.Int.{negsuc, eqb_ℤ}
use dada_engine.Text.{Text}
use dada_engine.Rtn.{
  Node, Nodes, Options, symbol, mapping, nil, cons, end, option, node_map, param_indexof, Rule,
  RuleTree, null, node, rule_find, rule_inorder_traverse,
}
use dada_engine.Map.{map_lookup}
use dada_engine.Transform.{trans_lookup}
use dada_engine.Engine.{Env}

abbrev pub is_formal : Rule → Text → Bool
is_formal rule name = if eqb_ℤ (param_indexof rule.params name) (negsuc 0) then false else true

abbrev pub is_null : RuleTree → Bool
is_null null = true
is_null (node r left right) = false

abbrev pub is_none {ℓ} : {A : Type ℓ} → Option A → Bool
is_none none = true
is_none (some a) = false

-- `rule_find(closure->rules, a->data)==NULL`
abbrev pub no_rule : Env → Text → Bool
no_rule env name = is_null (rule_find env.rules name)

abbrev pub no_mapping : Env → Text → Bool
no_mapping env name =
    is_none (map_lookup env.mappings name) && is_none (trans_lookup env.transformations name)

abbrev pub count : Bool → ℕ → ℕ
count wrong errors = if wrong then errors + 1 else errors

-- Of the parameters that are passed, only the first is looked at.
unfoldable pub undef_iter2 : Env → Rule → Node → ℕ → ℕ
undef_iter2 env rule (symbol mode t nil) errors =
    if is_formal rule t then errors else count (no_rule env t) errors
undef_iter2 env rule (symbol mode t (cons param next)) errors =
    let rest = undef_iter2 env rule param (count (no_rule env t) errors) in
    if is_formal rule t then errors else rest
undef_iter2 env rule (mapping t n) errors = undef_iter2 env rule n (count (no_mapping env t) errors)
undef_iter2 env rule _ errors = errors

-- `option_map` of `undef_iter1`
unfoldable pub undef_iter1 : Env → Rule → Options → ℕ → Outcome ℕ
unfolding undef_iter2
undef_iter1 env rule end errors = ok errors
undef_iter1 env rule (option o atoms next) errors =
    node_map atoms (λ n e. ok (undef_iter2 env rule n e)) errors >>= undef_iter1 env rule next

unfoldable pub undef_iter0 : Env → Rule → Outcome ℕ → Outcome ℕ
unfolding undef_iter1
undef_iter0 env rule errors = errors >>= undef_iter1 env rule rule.options

unfoldable pub check_for_undefined : Env → Outcome (Unit {0})
unfolding undef_iter0
check_for_undefined env = rule_inorder_traverse env.rules (undef_iter0 env) (ok 0) >>= λ errors.
    if ltb 0 errors then exited 1 else ok tt

-- The search for unused rules is empty in the source.
unfoldable pub check_rtn : Env → Outcome (Unit {0})
unfolding check_for_undefined
check_rtn env = check_for_undefined env
