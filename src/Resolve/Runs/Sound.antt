-- ===== src/Resolve/Runs/Sound.antt =====
-- src/resolve.c: `resolve_atom` held against the runs of the grammar.
use mathlib.Core.Path.{subst}
use dada_engine.Prelude.{
  ℕ, zero, suc, ◌≡◌, refl, sym, inl, inr, Option-cases, List, [], Option, none, some, ok,
}
use dada_engine.Prelude.Int.{pos_part}
use dada_engine.Text.{Text}
use dada_engine.Text.Decimal.{atoi}
use dada_engine.Variables.{var_fetch}
use dada_engine.Rtn.{
  plain, Node, literal, symbol, mapping, deref, var_conddef, var_def, var_ref, code, silence,
  choice, star, plus, repeat_const, repeat_var, nil, RuleTree,
}
use dada_engine.Engine.{Env, Engine, then_do}
use dada_engine.Machine.World.{World, world}
use dada_engine.Resolve.{
  resolve_top, apply_named, put_var, with_string, resolve_node, resolve_atom, resolve_rule,
}
use dada_engine.Resolve.Passing.{Cooked, Resolver, strdup}
use dada_engine.Resolve.Yields.{
  Yields, Yields-lift, gave, quits, crashes, starves, Yields-bind, Yields-ok, Yields-weaken,
}
use dada_engine.Resolve.Runs.{
  Runs, says, maps, keeps_value, gives_value, sets_value, reads_value, hides, stars, repeats,
  repeats_value, computes, Called, Repeats,
}
use dada_engine.Resolve.Runs.Params.{IsFaithful}
use dada_engine.Resolve.Runs.Code.{stream_sound}
use dada_engine.Resolve.Runs.Calls.{
  repeat_sound, star_sound, choice_sound, plus_sound, symbol_sound, deref_sound, rule_call_sound,
}

module _ (env : Env) (self : Resolver) (faithful : IsFaithful env self) where
  defined_sound :
      (t : Text) (n : Node) (x : Option Text) (fs : List Text) (cs : Cooked) (v : World)
      (s : Engine)
      → var_fetch v.vars t ≡ none
      → Runs env n fs cs v x (world s)
      → Yields
          (λ y u. Runs env (var_conddef t n) fs cs v y (world u))
          (then_do (put_var t x s) λ _. strdup x)
  unfolding put_var
  defined_sound t n none fs cs v s e m = crashes
  defined_sound t n (some y) fs cs v s e m = gave (gives_value e m)

  conddef_sound :
      (f : ℕ) (t : Text) (n : Node) (fs : List Text) (cs : Cooked) (s : Engine)
      → Yields
          (λ x u. Runs env (var_conddef t n) fs cs (world s) x (world u))
          (resolve_node env f self (var_conddef t n) fs cs s)
  unfolding resolve_node with_string
  conddef_sound f t n fs cs s = elim (Option-cases (var_fetch s.vars t)) [
    | inl e ↦
        rw e (Yields-bind (faithful n fs cs s) λ x u m. defined_sound t n x fs cs (world s) u e m)
    | inr (y, e) ↦ rw e (gave (keeps_value e))
  ]

  ref_sound :
      (f : ℕ) (t : Text) (fs : List Text) (cs : Cooked) (s : Engine)
      → Yields
          (λ x u. Runs env (var_ref t) fs cs (world s) x (world u))
          (resolve_node env f self (var_ref t) fs cs s)
  unfolding resolve_node with_string
  ref_sound f t fs cs s = elim (Option-cases (var_fetch s.vars t)) [
    | inl e ↦ rw e quits
    | inr (y, e) ↦ rw e (gave (reads_value e))
  ]

  repeat_var_sound :
      (f : ℕ) (t : Text) (n : Node) (fs : List Text) (cs : Cooked) (s : Engine)
      → Yields
          (λ x u. Runs env (repeat_var t n) fs cs (world s) x (world u))
          (resolve_node env f self (repeat_var t n) fs cs s)
  unfolding resolve_node with_string
  repeat_var_sound f t n fs cs s = elim (Option-cases (var_fetch s.vars t)) [
    | inl e ↦ rw e quits
    | inr (y, e) ↦ rw e (
        Yields-weaken
          (λ x u (w, r, d).
            repeats_value e (
              subst (λ z. Repeats env n (pos_part (atoi y)) fs cs (world s) z (world u)) (sym d) r))
          (repeat_sound env self faithful n (pos_part (atoi y)) fs cs none s))
  ]

  node-IsFaithful : (f : ℕ) → IsFaithful env (resolve_node env f self)
  unfolding resolve_node put_var resolve_top
  node-IsFaithful f (literal t) fs cs s = gave says
  node-IsFaithful f (symbol mode t ps) fs cs s = symbol_sound env self faithful f mode t ps fs cs s
  node-IsFaithful f (mapping t n) fs cs s = Yields-bind (faithful n fs cs s) λ x u m.
      Yields-weaken
        (λ y w (e, same).
          subst (λ z. Runs env (mapping t n) fs cs (world s) y (world z)) (sym same) (maps m e))
        (Yields-lift (apply_named env t x) u)
  node-IsFaithful f (deref mode n) fs cs s =
      Yields-bind (faithful n fs cs s)
        λ x u m. deref_sound env self faithful f n x fs cs mode (world s) u m env.rules refl
  node-IsFaithful f (var_conddef t n) fs cs s = conddef_sound f t n fs cs s
  node-IsFaithful f (var_def t n) fs cs s =
      Yields-bind (faithful n fs cs s) λ x u m. gave (sets_value m)
  node-IsFaithful f (var_ref t) fs cs s = ref_sound f t fs cs s
  node-IsFaithful f (code is) fs cs s =
      Yields-weaken (λ x u. computes)
        (stream_sound env (resolve_top env f self)
          (λ rule t. rule_call_sound env self faithful f rule nil [] [] plain t) is s)
  node-IsFaithful f (silence n) fs cs s = Yields-bind (faithful n fs cs s) λ x u m. gave (hides m)
  node-IsFaithful f (choice at options) fs cs s =
      choice_sound env self faithful f at options fs cs s
  node-IsFaithful f (star n) fs cs s =
      Yields-weaken
        (λ x u (k, (w, r, e)).
          stars k (subst (λ z. Repeats env n k fs cs (world s) z (world u)) (sym e) r))
        (star_sound env self faithful f n fs cs none s)
  node-IsFaithful f (plus n) fs cs s = plus_sound env self faithful f n fs cs s
  node-IsFaithful f (repeat_const i n) fs cs s =
      Yields-weaken
        (λ x u (w, r, e).
          repeats (subst (λ z. Repeats env n (pos_part i) fs cs (world s) z (world u)) (sym e) r))
        (repeat_sound env self faithful n (pos_part i) fs cs none s)
  node-IsFaithful f (repeat_var t n) fs cs s = repeat_var_sound f t n fs cs s

module _ (env : Env) where
  atom-IsFaithful : (f : ℕ) → IsFaithful env (resolve_atom env f)
  unfolding resolve_atom
  atom-IsFaithful zero n fs cs s = starves
  atom-IsFaithful (suc f) n fs cs s =
      node-IsFaithful env (resolve_atom env f) (atom-IsFaithful f) f n fs cs s

  pub resolve_rule-Called :
      (f : ℕ) (rule : RuleTree) (s s' : Engine) (x : Option Text)
      → resolve_rule env f rule s ≡ ok (x, s')
      → Called env rule nil [] [] (world s) x (world s')
  unfolding resolve_rule resolve_top
  resolve_rule-Called f rule s s' x e =
      Yields-ok
        (rule_call_sound env (resolve_atom env f) (atom-IsFaithful f) f rule nil [] [] plain s) e
