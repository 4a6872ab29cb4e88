-- ===== src/Resolve/Valid.antt =====
-- src/resolve.c and the invariant of the engine's state.
pub mod Params
use dada_engine.Prelude.{ℕ, zero, suc, ◌%◌, List, [], ◌∷◌, Option, none, some, ok, ltb, ◌≡◌}
use dada_engine.Prelude.Int.{ℤ, negsuc, eqb_ℤ, ltb_ℤ, pos_part}
use dada_engine.Text.{Text}
use dada_engine.Text.Decimal.{atoi}
use dada_engine.Strfunc.{dstrcat}
use dada_engine.Ptrlist.{list_length, list_nth}
use dada_engine.Variables.{var_fetch, var_put}
use dada_engine.Variables.Order.{var_insert_str-IsOrdered}
use dada_engine.Rtn.{
  ResMode, plain, Node, Nodes, Options, literal, symbol, mapping, deref, var_conddef, var_def,
  var_ref, code, silence, choice, star, plus, repeat_const, repeat_var, nil, cons, end, option,
  node_map, option_length, option_nth, param_indexof, RuleTree, null, node, rule_find,
}
use dada_engine.Engine.{Env, Engine, M, pure}
use dada_engine.Resolve.{
  resolve_iterator, resolve_option, resolve_called, resolve_top, star_loop, repeat_loop,
  apply_named, find_named, put_var, with_string, or_undefined, resolve_choice, resolve_node,
  resolve_atom, resolve_rule,
}
use dada_engine.Resolve.Passing.{
  Cooked, Resolver, strdup, first_cell, actual, data_of, formal_index, callee_formal, resolve_param,
  one, resolve_params, resolve_subparams,
}
use dada_engine.Resolve.Yields.{
  Yields, gave, quits, crashes, starves, Yields-bind, Yields-ends, Yields-ok,
}
use dada_engine.Machine.Valid.{
  IsValid, Keeps, Keeps-bind, Keeps-pure, Keeps-lift, Keeps-if, Keeps-rand, Keeps-stream,
}
use dada_engine.Select.Valid.{Keeps-redraw, Keeps-select_option}
use dada_engine.Resolve.Valid.Params.{Keeps-strdup, Keeps-actual, Keeper, Keeps-params}

Keeps-find_named : (rules : RuleTree) (t : Option Text) → Keeps (find_named rules t)
unfolding find_named
Keeps-find_named rules (some t) = Keeps-pure _
Keeps-find_named null none = Keeps-pure _
Keeps-find_named (node r left right) none = λ s v. crashes

Keeps-put_var : (name : Text) (val : Option Text) → Keeps (put_var name val)
unfolding put_var var_put
Keeps-put_var name val s v = gave (record {
  fits = v.fits;
  ordered = var_insert_str-IsOrdered s.vars name val v.ordered;
  positive = v.positive;
})

Keeps-with_string :
    (t : Option Text) (otherwise : M (Option Text)) (use_it : Text → M (Option Text))
    → Keeps otherwise
    → ((x : Text) → Keeps (use_it x))
    → Keeps (with_string t otherwise use_it)
unfolding with_string
Keeps-with_string none otherwise use_it k l = k
Keeps-with_string (some t) otherwise use_it k l = l t

Keeps-atoms :
    (self : Resolver) (ns : Nodes) (formal : List Text) (cooked : Cooked) (before : Option Text)
    (s : Engine)
    → Keeper self
    → IsValid s
    → Yields (λ _ t. IsValid t) (node_map ns (resolve_iterator self formal cooked) (before, s))
unfolding node_map resolve_iterator
Keeps-atoms self nil formal cooked before s k v = gave v
Keeps-atoms self (cons n ns) formal cooked before s k v =
    Yields-ends _ (Yields-bind (k n formal cooked s v) λ y t w. gave w)
      λ x t w. Keeps-atoms self ns formal cooked x t k w

Keeps-option :
    (self : Resolver) (o : Options) (formal : List Text) (cooked : Cooked)
    → Keeper self
    → Keeps (resolve_option self o formal cooked)
unfolding resolve_option
Keeps-option self end formal cooked k s v = crashes
Keeps-option self (option o atoms next) formal cooked k s v =
    Keeps-atoms self atoms formal cooked none s k v

module _ (env : Env) where
  Keeps-called :
      (f : ℕ) (self : Resolver) (rule : RuleTree) (param : Nodes) (formal : List Text)
      (cooked : Cooked) (mode : ResMode)
      → Keeper self
      → Keeps (resolve_called env f self rule param formal cooked mode)
  unfolding resolve_called
  Keeps-called f self null param formal cooked mode k = Keeps-pure none
  Keeps-called f self (node r left right) param formal cooked mode k =
      Keeps-bind (Keeps-params self env formal cooked param k) λ actuals.
        Keeps-bind (Keeps-select_option env f r.options r.last_choice mode)
          λ o. Keeps-option self o r.params actuals k

  Keeps-star :
      (f : ℕ) (body : M (Option Text)) (before : Option Text)
      → Keeps body
      → Keeps (star_loop env f body before)
  unfolding star_loop
  Keeps-star zero body before k = λ s v. starves
  Keeps-star (suc f) body before k = Keeps-bind (Keeps-rand env) λ r.
      Keeps-if (ltb 1 (r % 5)) (Keeps-bind k λ t. Keeps-star f body (dstrcat before t) k)
        (Keeps-pure before)

  Keeps-repeat :
      (n : ℕ) (body : M (Option Text)) (before : Option Text)
      → Keeps body
      → Keeps (repeat_loop n body before)
  unfolding repeat_loop
  Keeps-repeat zero body before k = Keeps-pure before
  Keeps-repeat (suc n) body before k = Keeps-bind k λ t. Keeps-repeat n body (dstrcat before t) k

  Keeps-choice :
      (f : ℕ) (self : Resolver) (at : ℕ) (options : Options) (formal : List Text) (cooked : Cooked)
      → Keeper self
      → Keeps (resolve_choice env f self at options formal cooked)
  unfolding resolve_choice
  Keeps-choice f self at options formal cooked k s v =
      Yields-bind (Keeps-redraw env f (option_length options) (s.last_choice at) s v) λ c t w.
        Keeps-option self (option_nth options c) formal cooked k _
          (record { fits = w.fits; ordered = w.ordered; positive = w.positive })

  Keeps-node : (f : ℕ) (self : Resolver) → Keeper self → Keeper (resolve_node env f self)
  unfolding resolve_node resolve_top
  Keeps-node f self k (literal t) formal cooked = Keeps-pure _
  Keeps-node f self k (symbol mode t ps) formal cooked =
      Keeps-if (eqb_ℤ (param_indexof formal t) (negsuc 0))
        (Keeps-called f self (rule_find env.rules t) ps formal cooked mode k)
        (Keeps-actual (param_indexof formal t) cooked)
  Keeps-node f self k (mapping t n) formal cooked =
      Keeps-bind (k n formal cooked) λ x. Keeps-lift (apply_named env t x)
  Keeps-node f self k (deref mode n) formal cooked = Keeps-bind (k n formal cooked) λ name.
      Keeps-bind (Keeps-find_named env.rules name)
        λ r. Keeps-called f self r nil formal cooked mode k
  Keeps-node f self k (var_conddef t n) formal cooked = λ s v.
      Keeps-with_string (var_fetch s.vars t) _ _
        (Keeps-bind (k n formal cooked)
          λ val. Keeps-bind (Keeps-put_var t val) λ u. Keeps-strdup val)
        (λ val. Keeps-pure (some val)) s v
  Keeps-node f self k (var_def t n) formal cooked = Keeps-bind (k n formal cooked) λ val.
      Keeps-bind (Keeps-put_var t (some (or_undefined val)))
        λ u. Keeps-pure (some (or_undefined val))
  Keeps-node f self k (var_ref t) formal cooked = λ s v.
      Keeps-with_string (var_fetch s.vars t) _ _ (λ s v. quits) (λ val. Keeps-pure (some val)) s v
  Keeps-node f self k (code is) formal cooked =
      Keeps-stream env (resolve_top env f self) (λ rule. Keeps-called f self rule nil [] [] plain k)
        is
  Keeps-node f self k (silence n) formal cooked =
      Keeps-bind (k n formal cooked) λ t. Keeps-pure none
  Keeps-node f self k (choice at options) formal cooked =
      Keeps-choice f self at options formal cooked k
  Keeps-node f self k (star n) formal cooked = Keeps-star f _ none (k n formal cooked)
  Keeps-node f self k (plus n) formal cooked =
      Keeps-bind (k n formal cooked) λ first. Keeps-star f _ first (k n formal cooked)
  Keeps-node f self k (repeat_const i n) formal cooked =
      Keeps-repeat (pos_part i) _ none (k n formal cooked)
  Keeps-node f self k (repeat_var t n) formal cooked = λ s v.
      Keeps-with_string (var_fetch s.vars t) _ _ (λ s v. quits)
        (λ val. Keeps-repeat (pos_part (atoi val)) _ none (k n formal cooked)) s v

  Keeps-resolve_atom : (f : ℕ) → Keeper (resolve_atom env f)
  unfolding resolve_atom
  Keeps-resolve_atom zero n formal cooked = λ s v. starves
  Keeps-resolve_atom (suc f) n formal cooked =
      Keeps-node f (resolve_atom env f) (Keeps-resolve_atom f) n formal cooked

  -- Let the stack not have run over its 1024 cells, let the variables form a search tree, and let
  -- every option have a positive weight. If a rule of any grammar is resolved, all of this holds of
  -- the state after it too.
  pub resolve_rule-IsValid :
      (f : ℕ) (rule : RuleTree) (s s' : Engine) (x : Option Text)
      → IsValid s
      → resolve_rule env f rule s ≡ ok (x, s')
      → IsValid s'
  unfolding resolve_rule resolve_top
  resolve_rule-IsValid f rule s s' x v e =
      Yields-ok
        (Keeps-called f (resolve_atom env f) rule nil [] [] plain (Keeps-resolve_atom f) s v) e
