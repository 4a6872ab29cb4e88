-- ===== src/Resolve/Runs/Params.antt =====
-- src/resolve.c: how parameters are looked up and passed.
use mathlib.Core.Path.{subst}
use dada_engine.Prelude.{
  ℕ, zero, suc, ◌+◌, ◌<◌, ◌≡◌, refl, sym, ◌∙◌, ◌⊎◌, inl, inr, Bool-cases, Option-cases, List, [],
  ◌∷◌, Option, none, some, ok, fault, length, drop, ltb, if◌then◌else◌, arith,
}
use dada_engine.Prelude.Int.{pos, negsuc, eqb_ℤ}
use dada_engine.Text.{Text, str_eq}
use dada_engine.Ptrlist.Laws.{
  list_indexof-first_place, first_place, list_length-length, list_nth-drop,
}
use dada_engine.Rtn.{
  Node, Nodes, literal, symbol, mapping, deref, var_conddef, var_def, var_ref, code, silence,
  choice, star, plus, repeat_const, repeat_var, nil, cons, param_indexof, RuleTree, null, node,
  rule_find,
}
use dada_engine.Engine.{Env, Engine, M, then_do, ◌>>=◌, pure}
use dada_engine.Resolve.Passing.{
  Cooked, Resolver, first_cell, actual, data_of, formal_index, callee_formal, resolve_param,
  resolve_params, resolve_subparams,
}
use dada_engine.Machine.World.{world}
use dada_engine.Resolve.Yields.{Yields, gave, crashes, Yields-bind, Yields-weaken}
use dada_engine.Resolve.Runs.{Runs, Actuals, no_more, one_more, Passes, hands_on, passes}
use dada_engine.Resolve.Runs.Formals.{
  Supplies, given, off, params_of, params_in, FormalsOf, IsNoFormal,
}

Supplies-suc :
    (c : Option Text) (cs : Cooked) (i : ℕ) (x : Option Text)
    → Supplies cs i x
    → Supplies (c ∷ cs) (suc i) x
Supplies-suc c cs i x (given e) = given e
Supplies-suc c cs i x (off h) = off (omega (arith, h))

first_cell-Supplies :
    (cs : Cooked) (i : ℕ) (s : Engine)
    → i < length cs
    → Yields (λ x t. Supplies cs i x × (world t ≡ (world s))) (first_cell (drop i cs) s)
first_cell-Supplies [] i s h = absurd (omega arith)
first_cell-Supplies (none ∷ cs) zero s h = crashes
first_cell-Supplies (some t ∷ cs) zero s h = gave (given refl, refl)
first_cell-Supplies (c ∷ cs) (suc i) s h =
    Yields-weaken (λ x t (k, e). (Supplies-suc c cs i x k, e))
      (first_cell-Supplies cs i s (omega arith))

-- The value of a parameter that has a place among the formal ones.
pub actual-Supplies :
    (cs : Cooked) (i : ℕ) (s : Engine)
    → Yields (λ x t. Supplies cs i x × (world t ≡ (world s))) (actual (pos i) cs s)
unfolding actual
actual-Supplies cs i s = elim (Bool-cases (ltb (i + 0) (length cs + 0))) [
  | inl e ↦
      rw (list_length-length cs, e, list_nth-drop cs i) (first_cell-Supplies cs i s (ground arith))
  | inr e ↦ rw (list_length-length cs, e) (gave (off (ground arith), refl))
]

pub param_indexof-cases :
    (fs : List Text) (t : Text)
    → (param_indexof fs t ≡ negsuc 0) ⊎ ((i : ℕ) × (param_indexof fs t ≡ pos i))
unfolding param_indexof
param_indexof-cases fs t =
    let place = list_indexof-first_place fs (λ d. str_eq d t) in
    elim (Option-cases (first_place fs (λ d. str_eq d t))) [
      | inl e ↦ inl (place ∙ rw e refl)
      | inr (i, e) ↦ inr (i, place ∙ rw e refl)
    ]

formal_index-none :
    (fs : List Text) (s : Engine)
    → ((fs ≡ []) × (formal_index fs none s ≡ ok (negsuc 0, s))) ⊎ (formal_index fs none s ≡ fault)
unfolding formal_index
formal_index-none [] s = inl (refl, refl)
formal_index-none (f ∷ fs) s = inr refl

callee_formal-FormalsOf :
    (rules : RuleTree) (d : Option Text) (s : Engine)
    → Yields (λ gs t. FormalsOf rules d gs × (world t ≡ (world s))) (callee_formal rules d s)
unfolding callee_formal
callee_formal-FormalsOf null none s = gave ((refl, refl), refl)
callee_formal-FormalsOf (node r left right) none s = crashes
callee_formal-FormalsOf rules (some t) s = found (rule_find rules t)
  where
    found :
        (rule : RuleTree)
        → Yields
            (λ gs u. (gs ≡ params_in rule) × (world u ≡ (world s)))
            ((elim rule as (λ _. M (List Text)) [
              | null ↦ pure []
              | node r left right ↦ pure r.params
            ])
              s)
    found null = gave (refl, refl)
    found (node r left right) = gave (refl, refl)

module _ (env : Env) where
  -- What `self` does is a run of the node.
  abbrev pub IsFaithful : Resolver → Type 0
  IsFaithful self =
      (n : Node) (fs : List Text) (cs : Cooked) (s : Engine)
      → Yields (λ x t. Runs env n fs cs (world s) x (world t)) (self n fs cs s)

  module _ (self : Resolver) (faithful : IsFaithful self) (fs : List Text) (cs : Cooked) where
    -- An action that passes the node's own parameters.
    abbrev PassesInner : Node → M Cooked → Type 0
    PassesInner n inner =
        (s : Engine)
        → Yields (λ ds t. Actuals env (params_of n) fs cs (world s) ds (world t)) (inner s)

    called_param :
        (n : Node) (inner : M Cooked) (d : Option Text) (s : Engine)
        → PassesInner n inner
        → data_of env n ≡ d
        → IsNoFormal fs d
        → Yields
            (λ x t. Passes env n fs cs (world s) x (world t))
            (then_do (callee_formal env.rules d s) λ gs. inner >>= λ ds. self n gs ds)
    called_param n inner d s h e free =
        Yields-bind (callee_formal-FormalsOf env.rules d s) λ gs t (formals, same).
          Yields-bind (h t) λ ds u actuals.
            Yields-weaken
              (λ x w run.
                passes (subst (IsNoFormal fs) (sym e) free)
                  (subst (λ d. FormalsOf env.rules d gs) (sym e) formals)
                  (subst (λ v. Actuals env (params_of n) fs cs v ds (world u)) same actuals) run)
              (faithful n gs ds u)

    param_sound :
        (n : Node) (inner : M Cooked) (d : Option Text) (s : Engine)
        → PassesInner n inner
        → data_of env n ≡ d
        → Yields
            (λ x t. Passes env n fs cs (world s) x (world t))
            (then_do (formal_index fs d s) λ index.
              if eqb_ℤ index (negsuc 0)
              then (callee_formal env.rules d >>= λ gs. inner >>= λ ds. self n gs ds)
              else actual index cs)
    unfolding formal_index
    param_sound n inner (some t) s h e = elim (param_indexof-cases fs t) [
      | inl k ↦ rw k (called_param n inner (some t) s h e k)
      | inr (i, k) ↦ rw k (
          Yields-weaken
            (λ x u (supplied, same).
              subst (Passes env n fs cs (world s) x) (sym same) (hands_on e k supplied))
            (actual-Supplies cs i s))
    ]
    param_sound n inner none s h e = elim (formal_index-none fs s) [
      | inl (free, k) ↦ rw k (called_param n inner none s h e free)
      | inr k ↦ rw k crashes
    ]

    one_sound :
        (n : Node) (inner : M Cooked) (s : Engine)
        → PassesInner n inner
        → Yields
            (λ ds t. Actuals env (cons n nil) fs cs (world s) ds (world t))
            (then_do (resolve_param self env fs cs n inner s) λ t. pure (t ∷ []))
    unfolding resolve_param
    one_sound n inner s h =
        Yields-bind (param_sound n inner (data_of env n) s h refl)
          λ x t first. gave (one_more first no_more)

    mutual
      unfolding resolve_params resolve_param

      pub params_sound :
          (ns : Nodes) (s : Engine)
          → Yields
              (λ ds t. Actuals env ns fs cs (world s) ds (world t))
              (resolve_params self env fs cs ns s)
      params_sound nil s = gave no_more
      params_sound (cons n ns) s =
          Yields-bind
            (param_sound n (resolve_subparams self env fs cs n) (data_of env n) s
              (λ t. subparams_sound n t) refl)
            λ x t first. Yields-bind (params_sound ns t) λ rest u more. gave (one_more first more)

      subparams_sound :
          (n : Node) (s : Engine)
          → Yields
              (λ ds t. Actuals env (params_of n) fs cs (world s) ds (world t))
              (resolve_subparams self env fs cs n s)
      subparams_sound (symbol m t ps) s = params_sound ps s
      subparams_sound (mapping t n) s = one_sound n _ s λ u. subparams_sound n u
      subparams_sound (deref m n) s = one_sound n _ s λ u. subparams_sound n u
      subparams_sound (var_conddef t n) s = one_sound n _ s λ u. subparams_sound n u
      subparams_sound (var_def t n) s = one_sound n _ s λ u. subparams_sound n u
      subparams_sound (silence n) s = one_sound n _ s λ u. subparams_sound n u
      subparams_sound (star n) s = one_sound n _ s λ u. subparams_sound n u
      subparams_sound (plus n) s = one_sound n _ s λ u. subparams_sound n u
      subparams_sound (repeat_const i n) s = one_sound n _ s λ u. subparams_sound n u
      subparams_sound (repeat_var t n) s = one_sound n _ s λ u. subparams_sound n u
      subparams_sound (literal t) s = gave no_more
      subparams_sound (var_ref t) s = gave no_more
      subparams_sound (code is) s = gave no_more
      subparams_sound (choice at options) s = gave no_more
