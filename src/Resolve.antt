-- ===== src/Resolve.antt =====
-- src/resolve.c: the resolution of a grammar to a text. `resolve_atom` calls itself through the rules
-- of the grammar, so it runs on fuel: one unit for each call of itself in a call, and `timeout` is
-- the end of the fuel. The functions between two such calls take `self`, the calls with one unit
-- less. Where C leaves the order of arguments open, they are computed from left to right. The trace
-- output is left out.
pub mod Passing
pub mod Yields
pub mod Language
pub mod Sound
pub mod Lasts
pub mod Termination
pub mod Valid
pub mod Extends
pub mod Runs
use dada_engine.Prelude.{
  ℕ, zero, suc, ◌%◌, List, [], ◌∷◌, Option, none, some, Outcome, ok, fault, timeout, ltb,
  if◌then◌else◌,
}
use dada_engine.Prelude.Int.{ℤ, pos, negsuc, eqb_ℤ, ltb_ℤ, pos_part}
use dada_engine.Text.{Text, codes}
use dada_engine.Text.Decimal.{atoi}
use dada_engine.Strfunc.{dstrcat}
use dada_engine.Ptrlist.{list_length, list_nth}
use dada_engine.Variables.{var_fetch, var_put}
use dada_engine.Rtn.{
  ResMode, plain, Node, Nodes, Options, literal, symbol, mapping, deref, var_conddef, var_def,
  var_ref, code, silence, choice, star, plus, repeat_const, repeat_var, nil, cons, end, option,
  node_map, option_length, option_nth, param_indexof, RuleTree, null, node, rule_find,
}
use dada_engine.Map.{map_lookup, apply_mapping}
use dada_engine.Transform.{trans_lookup, apply_xform}
use dada_engine.Engine.{
  Env, Engine, M, ◌>>=◌, ◌>>◌, pure, then_do, lift, crash, quit, get, put, update, next_rand,
}
use dada_engine.Select.{redraw, select_option}
use dada_engine.Machine.{exec_stream}
use dada_engine.Resolve.Passing.{
  Cooked, Resolver, off_end, strdup, first_cell, actual, data_of, formal_index, callee_formal,
  resolve_param, one, resolve_params, resolve_subparams,
}

-- `resolve_iterator`: the result is the state that `node_map` passes on.
unfoldable pub resolve_iterator :
    Resolver → List Text → Cooked → Node → Option Text × Engine → Outcome (Option Text × Engine)
resolve_iterator self formal cooked atom (result, s) =
    then_do (self atom formal cooked s) λ t. pure (dstrcat result t)

unfoldable pub resolve_option : Resolver → Options → List Text → Cooked → M (Option Text)
unfolding resolve_iterator
resolve_option self end formal cooked s = fault
resolve_option self (option o atoms next) formal cooked s =
    node_map atoms (resolve_iterator self formal cooked) (none, s)

-- `_resolve_rule`. `f` is the fuel of the loop that draws again.
unfoldable pub resolve_called :
    Env → ℕ → Resolver → RuleTree → Nodes → List Text → Cooked → ResMode → M (Option Text)
unfolding resolve_params resolve_option select_option
resolve_called env f self null param formal cooked mode = pure none
resolve_called env f self (node r left right) param formal cooked mode = do
  actuals ← resolve_params self env formal cooked param
  o ← select_option env f r.options r.last_choice mode
  resolve_option self o r.params actuals

-- `resolve_rule`
unfoldable pub resolve_top : Env → ℕ → Resolver → RuleTree → M (Option Text)
unfolding resolve_called
resolve_top env f self rule = resolve_called env f self rule nil [] [] plain

-- `while((rand()%5)>1) result = dstrcat(result, …)`
unfoldable pub star_loop : Env → ℕ → M (Option Text) → Option Text → M (Option Text)
star_loop env zero body result = λ s. timeout
star_loop env (suc f) body result = do
  let again = body >>= λ t. star_loop env f body (dstrcat result t)
  r ← next_rand env
  if ltb 1 (r % 5) then again else pure result

unfoldable pub repeat_loop : ℕ → M (Option Text) → Option Text → M (Option Text)
repeat_loop zero body result = pure result
repeat_loop (suc n) body result = body >>= λ t. repeat_loop n body (dstrcat result t)

-- What `mapping` does to the text that it is applied to.
unfoldable pub apply_named : Env → Text → Option Text → Outcome (Option Text)
unfolding apply_mapping apply_xform
apply_named env name t = elim (map_lookup env.mappings name) [
  | some m ↦ apply_mapping env.regex t (some m)
  | none ↦ apply_xform env.regex t (trans_lookup env.transformations name)
]

-- `rule_find(rules, name)` with a name that may be NULL.
unfoldable pub find_named : RuleTree → Option Text → M RuleTree
unfolding rule_find
find_named rules (some t) = pure (rule_find rules t)
find_named null none = pure null
find_named (node r left right) none = crash

unfoldable pub put_var : Text → Option Text → M (Unit {0})
unfolding var_put
put_var name val s = ok (tt, record s { vars = var_put s.vars name val })

-- Goes on with the string, or with the other action where it is NULL.
unfoldable pub with_string :
    Option Text → M (Option Text) → (Text → M (Option Text)) → M (Option Text)
with_string none otherwise use_it = otherwise
with_string (some t) otherwise use_it = use_it t

abbrev pub or_undefined : Option Text → Text
or_undefined none = codes "undefined"
or_undefined (some t) = t

-- The inline choice: `at` is the address of `last_choice`.
unfoldable pub resolve_choice :
    Env → ℕ → Resolver → ℕ → Options → List Text → Cooked → M (Option Text)
unfolding redraw resolve_option
resolve_choice env f self at options formal cooked = do
  s ← get
  picked ← redraw env f (option_length options) (s.last_choice at)
  t ← get
  put (record t { last_choice = update t.last_choice at (pos picked) })
  resolve_option self (option_nth options picked) formal cooked

-- The `switch` of `resolve_atom`; `f` is the fuel of its loops.
unfoldable pub resolve_node : Env → ℕ → Resolver → Resolver
unfolding actual resolve_called resolve_top resolve_choice star_loop repeat_loop apply_named
    find_named put_var with_string
resolve_node env f self (literal t) formal cooked = pure (some t)
resolve_node env f self (symbol mode t ps) formal cooked =
    let index = param_indexof formal t in
    let called = resolve_called env f self (rule_find env.rules t) ps formal cooked mode in
    if eqb_ℤ index (negsuc 0) then called else actual index cooked
resolve_node env f self (mapping t n) formal cooked = do
  x ← self n formal cooked
  lift (apply_named env t x)
resolve_node env f self (deref mode n) formal cooked = do
  name ← self n formal cooked
  r ← find_named env.rules name
  resolve_called env f self r nil formal cooked mode
resolve_node env f self (var_conddef t n) formal cooked = do
  let define = self n formal cooked >>= λ val. put_var t val >> strdup val
  s ← get
  with_string (var_fetch s.vars t) define (λ val. pure (some val))
resolve_node env f self (var_def t n) formal cooked = do
  val ← self n formal cooked
  put_var t (some (or_undefined val))
  pure (some (or_undefined val))
resolve_node env f self (var_ref t) formal cooked = do
  s ← get
  with_string (var_fetch s.vars t) (quit 1) (λ val. pure (some val))
resolve_node env f self (code is) formal cooked = exec_stream env (resolve_top env f self) is
resolve_node env f self (silence n) formal cooked = self n formal cooked >> pure none
resolve_node env f self (choice at options) formal cooked =
    resolve_choice env f self at options formal cooked
resolve_node env f self (star n) formal cooked = star_loop env f (self n formal cooked) none
resolve_node env f self (plus n) formal cooked = do
  first ← self n formal cooked
  star_loop env f (self n formal cooked) first
resolve_node env f self (repeat_const i n) formal cooked =
    repeat_loop (pos_part i) (self n formal cooked) none
resolve_node env f self (repeat_var t n) formal cooked = do
  s ← get
  with_string (var_fetch s.vars t) (quit 1)
      (λ val. repeat_loop (pos_part (atoi val)) (self n formal cooked) none)

unfoldable pub resolve_atom : Env → ℕ → Resolver
resolve_atom env zero atom formal cooked = λ s. timeout
resolve_atom env (suc f) atom formal cooked =
    resolve_node env f (resolve_atom env f) atom formal cooked

unfoldable pub resolve_rule : Env → ℕ → RuleTree → M (Option Text)
resolve_rule env f rule = resolve_top env f (resolve_atom env f) rule
