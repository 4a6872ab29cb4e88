-- ===== src/Resolve/Termination.antt =====
-- src/resolve.c: how much fuel is enough.
pub mod Depth
pub mod Texts
pub mod Code
pub mod Params
use dada_engine.Prelude.{
  ℕ, zero, suc, ◌≡◌, ◌≢◌, inl, inr, false, Bool-cases, List, [], Option, none, timeout,
}
use dada_engine.Prelude.Int.{ℤ, negsuc, pos_part, eqb_ℤ}
use dada_engine.Text.{Text}
use dada_engine.Text.Decimal.{atoi}
use dada_engine.Variables.{var_fetch}
use dada_engine.Rtn.{
  ResMode, plain, Node, Nodes, Options, literal, symbol, var_conddef, var_def, var_ref, silence,
  repeat_const, repeat_var, nil, cons, end, option, node_map, param_indexof, Rule, RuleTree, null,
  node, rule_find,
}
use dada_engine.Engine.{Env, Engine}
use dada_engine.Resolve.{
  put_var, resolve_iterator, resolve_option, resolve_called, resolve_node, resolve_atom,
  resolve_rule, resolve_top,
}
use dada_engine.Resolve.Passing.{Cooked, Resolver, resolve_params}
use dada_engine.Resolve.Yields.{Among, here, there, NullOrAmong, select_option-NullOrAmong}
use dada_engine.Map.Subst.{MatchesInside}
use dada_engine.Resolve.Termination.Depth.{
  Shallow, ShallowNodes, ShallowOptions, ShallowRule, shallow_literal, shallow_symbol,
  shallow_mapping, shallow_conddef, shallow_def, shallow_ref, shallow_code, shallow_silence,
  shallow_const, shallow_var, shallow_nil, shallow_cons, shallow_option, shallow_rule,
  Among-Shallow,
}
use dada_engine.Resolve.Termination.Texts.{apply_named-Lasts}
use dada_engine.Resolve.Termination.Code.{stream-Lasts}
use dada_engine.Resolve.Termination.Params.{params-Lasts}
use dada_engine.Resolve.Lasts.{
  lift-Lasts, Lasts, lasts_ok, lasts_exited, lasts_fault, Lasts-ne-timeout, then_do-Lasts,
  bind-Lasts, then_do-Yields, select_option-Lasts, with_string-Lasts, repeat_loop-Lasts,
  strdup-Lasts, actual-Lasts,
}

module _ (env : Env) (plain_odds : env.old_probability ≡ false)
    (inside : (from : Text) → MatchesInside env.regex from) where
  -- `self` has fuel enough for nodes of depth `k`.
  abbrev Enough : ℕ → Resolver → Type 0
  Enough k self =
      (n : Node) (formal : List Text) (cooked : Cooked) (s : Engine)
      → Shallow env k n
      → Lasts (self n formal cooked s)

  atoms-Lasts :
      (k : ℕ) (self : Resolver) (ns : Nodes) (formal : List Text) (cooked : Cooked)
      (x : Option Text × Engine)
      → Enough k self
      → ShallowNodes env k ns
      → Lasts (node_map ns (resolve_iterator self formal cooked) x)
  unfolding node_map resolve_iterator
  atoms-Lasts k self nil formal cooked x h p = lasts_ok
  atoms-Lasts k self (cons n ns) formal cooked (x, s) h (shallow_cons p ps) =
      bind-Lasts (then_do-Lasts (h n formal cooked s p) λ y t. lasts_ok)
        λ y. atoms-Lasts k self ns formal cooked y h ps

  resolve_option-Lasts :
      (k : ℕ) (self : Resolver) (options o : Options) (formal : List Text) (cooked : Cooked)
      (s : Engine)
      → Enough k self
      → ShallowOptions env k options
      → NullOrAmong options o
      → Lasts (resolve_option self o formal cooked s)
  unfolding resolve_option
  resolve_option-Lasts k self options end formal cooked s h p n = lasts_fault
  resolve_option-Lasts k self options (option a atoms next) formal cooked s h p n =
      first (Among-Shallow n p)
    where
      first :
          ShallowOptions env k (option a atoms next)
          → Lasts (node_map atoms (resolve_iterator self formal cooked) (none, s))
      first (shallow_option q r) = atoms-Lasts k self atoms formal cooked (none, s) h q

  resolve_called-Lasts :
      (f k : ℕ) (self : Resolver) (rule : RuleTree) (ps : Nodes) (formal : List Text)
      (cooked : Cooked) (mode : ResMode) (s : Engine)
      → Enough k self
      → ShallowRule env k rule
      → ShallowNodes env k ps
      → Lasts (resolve_called env f self rule ps formal cooked mode s)
  unfolding resolve_called
  resolve_called-Lasts f k self null ps formal cooked mode s h p q = lasts_ok
  resolve_called-Lasts f k self (node r left right) ps formal cooked mode s h (shallow_rule p) q =
      then_do-Lasts (params-Lasts env self k h formal cooked ps s q) λ actuals t.
        then_do-Yields (select_option-Lasts env f r.options r.last_choice mode t plain_odds)
          (select_option-NullOrAmong env f r.options r.last_choice mode t)
          λ o u n. resolve_option-Lasts k self r.options o r.params actuals u h p n

  resolve_node-Lasts :
      (f k : ℕ) (self : Resolver) → Enough k self → Enough (suc k) (resolve_node env f self)
  unfolding resolve_node put_var resolve_top
  resolve_node-Lasts f k self h n formal cooked s shallow_literal = lasts_ok
  resolve_node-Lasts f k self h n formal cooked s (shallow_symbol {mode} {t} {ps} p q) =
      elim (Bool-cases (eqb_ℤ (param_indexof formal t) (negsuc 0))) [
        | inl e ↦
            rw e
              (resolve_called-Lasts f k self (rule_find env.rules t) ps formal cooked mode s h p q)
        | inr e ↦ rw e (actual-Lasts (param_indexof formal t) cooked s)
      ]
  resolve_node-Lasts f k self h n formal cooked s (shallow_mapping {t} {n = m} p) =
      then_do-Lasts (h m formal cooked s p) λ x u. lift-Lasts u (apply_named-Lasts env inside t x)
  resolve_node-Lasts f k self h n formal cooked s (shallow_code {is} p) =
      stream-Lasts env (resolve_top env f self) k
        (λ rule t q. resolve_called-Lasts f k self rule nil [] [] plain t h q shallow_nil) is s p
  resolve_node-Lasts f k self h n formal cooked s (shallow_conddef {t} {n = m} p) =
      with_string-Lasts (var_fetch s.vars t) s _ _
        (then_do-Lasts (h m formal cooked s p) λ x u. strdup-Lasts x _) λ v. lasts_ok
  resolve_node-Lasts f k self h n formal cooked s (shallow_def {t} {n = m} p) =
      then_do-Lasts (h m formal cooked s p) λ x u. lasts_ok
  resolve_node-Lasts f k self h n formal cooked s (shallow_ref {t}) =
      with_string-Lasts (var_fetch s.vars t) s _ _ lasts_exited λ v. lasts_ok
  resolve_node-Lasts f k self h n formal cooked s (shallow_silence {n = m} p) =
      then_do-Lasts (h m formal cooked s p) λ x u. lasts_ok
  resolve_node-Lasts f k self h n formal cooked s (shallow_const {i} {n = m} p) =
      repeat_loop-Lasts (pos_part i) _ none s λ u. h m formal cooked u p
  resolve_node-Lasts f k self h n formal cooked s (shallow_var {t} {n = m} p) =
      with_string-Lasts (var_fetch s.vars t) s _ _ lasts_exited
        λ v. repeat_loop-Lasts (pos_part (atoi v)) _ none s λ u. h m formal cooked u p

  resolve_atom-Lasts : (k : ℕ) → Enough k (resolve_atom env k)
  unfolding resolve_atom
  resolve_atom-Lasts zero n formal cooked s p = no_depth n p
    where
      no_depth : (m : Node) → Shallow env zero m → Lasts {A = Option Text × Engine} timeout
      no_depth m p = elim p [ ]
  resolve_atom-Lasts (suc k) n formal cooked s p =
      resolve_node-Lasts k k (resolve_atom env k) (resolve_atom-Lasts k) n formal cooked s p

  -- Let options be chosen by weight, let `regexec` give places inside of the text, and let the rule
  -- be resolved within `k` calls, as in a grammar of literals, symbols with parameters, mappings,
  -- variables, code, silenced and repeated nodes, whose rules do not come back to themselves. Then
  -- fuel `k` is enough: the rule is resolved, or the program exits or faults, but it does not run on.
  pub resolve_rule_terminates :
      (k : ℕ) (rule : RuleTree) (s : Engine)
      → ShallowRule env k rule
      → resolve_rule env k rule s ≢ timeout
  unfolding resolve_rule resolve_top
  resolve_rule_terminates k rule s p = Lasts-ne-timeout (
      resolve_called-Lasts k k (resolve_atom env k) rule nil [] [] plain s (resolve_atom-Lasts k) p
        shallow_nil)
