-- ===== src/Resolve/Termination/Params.antt =====
-- src/resolve.c: the fuel of the parameters of a call.
use dada_engine.Prelude.{ℕ, List, [], ◌∷◌, Option, none, some, inl, inr, Bool-cases}
use dada_engine.Prelude.Int.{negsuc, eqb_ℤ}
use dada_engine.Text.{Text}
use dada_engine.Prelude.Int.{ℤ}
use dada_engine.Rtn.{
  ResMode, Node, Nodes, literal, symbol, mapping, deref, var_conddef, var_def, var_ref, code,
  silence, choice, star, plus, repeat_const, repeat_var, nil, cons, RuleTree, null, node, rule_find,
}
use dada_engine.Engine.{Env, Engine, M, pure}
use dada_engine.Resolve.Passing.{
  Cooked, Resolver, data_of, formal_index, callee_formal, resolve_param, resolve_params,
  resolve_subparams, one,
}
use dada_engine.Resolve.Lasts.{Lasts, lasts_ok, lasts_fault, then_do-Lasts, actual-Lasts}
use dada_engine.Resolve.Termination.Depth.{
  Shallow, ShallowNodes, shallow_symbol, shallow_mapping, shallow_conddef, shallow_def,
  shallow_silence, shallow_const, shallow_var, shallow_cons, Shallow-suc, ShallowNodes-suc,
}

formal_index-Lasts : (fs : List Text) (d : Option Text) (s : Engine) → Lasts (formal_index fs d s)
unfolding formal_index
formal_index-Lasts fs (some t) s = lasts_ok
formal_index-Lasts [] none s = lasts_ok
formal_index-Lasts (f ∷ fs) none s = lasts_fault

callee_formal-Lasts :
    (rules : RuleTree) (d : Option Text) (s : Engine) → Lasts (callee_formal rules d s)
unfolding callee_formal
callee_formal-Lasts null none s = lasts_ok
callee_formal-Lasts (node r left right) none s = lasts_fault
callee_formal-Lasts rules (some t) s = found (rule_find rules t)
  where
    found :
        (rule : RuleTree)
        → Lasts (
            (elim rule as (λ _. M (List Text)) [
              | null ↦ pure []
              | node r left right ↦ pure r.params
            ])
              s)
    found null = lasts_ok
    found (node r left right) = lasts_ok

-- The parts of a shallow node are as shallow.
symbol_parts :
    {env : Env} {k : ℕ} {m : ResMode} {t : Text} {ps : Nodes}
    → Shallow env k (symbol m t ps)
    → ShallowNodes env k ps
symbol_parts (shallow_symbol r ps) = ShallowNodes-suc ps

mapping_part :
    {env : Env} {k : ℕ} {t : Text} {n : Node} → Shallow env k (mapping t n) → Shallow env k n
mapping_part (shallow_mapping p) = Shallow-suc p

conddef_part :
    {env : Env} {k : ℕ} {t : Text} {n : Node} → Shallow env k (var_conddef t n) → Shallow env k n
conddef_part (shallow_conddef p) = Shallow-suc p

def_part : {env : Env} {k : ℕ} {t : Text} {n : Node} → Shallow env k (var_def t n) → Shallow env k n
def_part (shallow_def p) = Shallow-suc p

silence_part : {env : Env} {k : ℕ} {n : Node} → Shallow env k (silence n) → Shallow env k n
silence_part (shallow_silence p) = Shallow-suc p

const_part :
    {env : Env} {k : ℕ} {i : ℤ} {n : Node} → Shallow env k (repeat_const i n) → Shallow env k n
const_part (shallow_const p) = Shallow-suc p

var_part :
    {env : Env} {k : ℕ} {t : Text} {n : Node} → Shallow env k (repeat_var t n) → Shallow env k n
var_part (shallow_var p) = Shallow-suc p

no_deref : {env : Env} {k : ℕ} {m : ResMode} {n : Node} → Shallow env k (deref m n) → ⊥
no_deref p = elim p [ ]

no_star : {env : Env} {k : ℕ} {n : Node} → Shallow env k (star n) → ⊥
no_star p = elim p [ ]

no_plus : {env : Env} {k : ℕ} {n : Node} → Shallow env k (plus n) → ⊥
no_plus p = elim p [ ]

module _ (env : Env) (self : Resolver) (k : ℕ)
    (ends : (n : Node) (fs : List Text) (cs : Cooked) (s : Engine)
      → Shallow env k n
      → Lasts (self n fs cs s))
    (fs : List Text) (cs : Cooked) where
  param-Lasts :
      (n : Node) (inner : M Cooked) (s : Engine)
      → Shallow env k n
      → ((t : Engine) → Lasts (inner t))
      → Lasts (resolve_param self env fs cs n inner s)
  unfolding resolve_param
  param-Lasts n inner s p h = then_do-Lasts (formal_index-Lasts fs (data_of env n) s) λ i t.
      elim (Bool-cases (eqb_ℤ i (negsuc 0))) [
        | inl e ↦ rw e (
            then_do-Lasts (callee_formal-Lasts env.rules (data_of env n) t)
              λ gs u. then_do-Lasts (h u) λ ds v. ends n gs ds v p)
        | inr e ↦ rw e (actual-Lasts i cs t)
      ]

  one-Lasts :
      (n : Node) (inner : M Cooked) (s : Engine)
      → Shallow env k n
      → ((t : Engine) → Lasts (inner t))
      → Lasts (one (resolve_param self env fs cs n inner) s)
  one-Lasts n inner s p h = then_do-Lasts (param-Lasts n inner s p h) λ x t. lasts_ok

  mutual
    unfolding resolve_params

    pub params-Lasts :
        (ns : Nodes) (s : Engine)
        → ShallowNodes env k ns
        → Lasts (resolve_params self env fs cs ns s)
    params-Lasts nil s p = lasts_ok
    params-Lasts (cons n ns) s (shallow_cons p ps) =
        then_do-Lasts (param-Lasts n _ s p λ t. subparams-Lasts n t p)
          λ x t. then_do-Lasts (params-Lasts ns t ps) λ rest u. lasts_ok

    subparams-Lasts :
        (n : Node) (s : Engine) → Shallow env k n → Lasts (resolve_subparams self env fs cs n s)
    subparams-Lasts (symbol m t ps) s p = params-Lasts ps s (symbol_parts p)
    subparams-Lasts (mapping t n) s p =
        one-Lasts n _ s (mapping_part p) λ u. subparams-Lasts n u (mapping_part p)
    subparams-Lasts (var_conddef t n) s p =
        one-Lasts n _ s (conddef_part p) λ u. subparams-Lasts n u (conddef_part p)
    subparams-Lasts (var_def t n) s p =
        one-Lasts n _ s (def_part p) λ u. subparams-Lasts n u (def_part p)
    subparams-Lasts (silence n) s p =
        one-Lasts n _ s (silence_part p) λ u. subparams-Lasts n u (silence_part p)
    subparams-Lasts (repeat_const i n) s p =
        one-Lasts n _ s (const_part p) λ u. subparams-Lasts n u (const_part p)
    subparams-Lasts (repeat_var t n) s p =
        one-Lasts n _ s (var_part p) λ u. subparams-Lasts n u (var_part p)
    subparams-Lasts (deref m n) s p = absurd (no_deref p)
    subparams-Lasts (star n) s p = absurd (no_star p)
    subparams-Lasts (plus n) s p = absurd (no_plus p)
    subparams-Lasts (literal t) s p = lasts_ok
    subparams-Lasts (var_ref t) s p = lasts_ok
    subparams-Lasts (code is) s p = lasts_ok
    subparams-Lasts (choice at os) s p = lasts_ok
