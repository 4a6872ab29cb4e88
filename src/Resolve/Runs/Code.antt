-- ===== src/Resolve/Runs/Code.antt =====
-- src/resolve.c, the case `code`, and `exec_stream` of src/machine.c, held against the runs of code.
use mathlib.Core.Path.{subst}
use dada_engine.Prelude.{◌≡◌, ◌≢◌, refl, sym, ◌⊎◌, inl, inr, List, [], ◌∷◌, Option, none, some}
use dada_engine.Text.{Text}
use dada_engine.Variables.{str}
use dada_engine.Instr.{
  Instr, set, pushv, invoke, push, add, sub, mul, div, emit, modulo, random, lesser, greater,
}
use dada_engine.Rtn.{nil, RuleTree, null, node, rule_find}
use dada_engine.Engine.{Env, Engine, M, pure}
use dada_engine.Machine.{invoked, exec_instr, exec_stream}
use dada_engine.Machine.World.{World, world, Steps}
use dada_engine.Machine.Steps.{push_cell-Pushes, exec_instr-Steps}
use dada_engine.Resolve.Yields.{Yields, gave, Yields-bind, Yields-weaken}
use dada_engine.Resolve.Runs.{Called, missing, Codes, stops, returns, steps, invokes}

invoke-cases : (i : Instr) → ((name : Text) × (i ≡ invoke name)) ⊎ ((name : Text) → i ≢ invoke name)
invoke-cases (invoke name) = inl (name, refl)
invoke-cases (set name) = inr λ n e. cc
invoke-cases (pushv name) = inr λ n e. cc
invoke-cases (push c) = inr λ n e. cc
invoke-cases add = inr λ n e. cc
invoke-cases sub = inr λ n e. cc
invoke-cases mul = inr λ n e. cc
invoke-cases div = inr λ n e. cc
invoke-cases emit = inr λ n e. cc
invoke-cases modulo = inr λ n e. cc
invoke-cases random = inr λ n e. cc
invoke-cases lesser = inr λ n e. cc
invoke-cases greater = inr λ n e. cc

module _ (env : Env) (run : RuleTree → M (Option Text))
    (sound : (rule : RuleTree) (s : Engine)
      → Yields (λ x t. Called env rule nil [] [] (world s) x (world t)) (run rule s)) where
  -- The instruction, before any run of the instructions behind it.
  abbrev Leads : Instr → Engine → Option Text → Engine → Type 0
  Leads i s none t =
      (is : List Instr) (x : Option Text) (u : World)
      → Codes env is (world t) x u
      → Codes env (i ∷ is) (world s) x u
  Leads i s (some x) t = (is : List Instr) → Codes env (i ∷ is) (world s) (some x) (world t)

  invoked_sound :
      (name : Text) (rule : RuleTree) (s : Engine)
      → rule_find env.rules name ≡ rule
      → Yields (Leads (invoke name) s) (invoked run rule s)
  unfolding invoked
  invoked_sound name null s e = Yields-bind (push_cell-Pushes (str none) s) λ _ t pushed.
      gave λ is x u rest.
        invokes (subst (λ r. Called env r nil [] [] (world s) none (world s)) (sym e) missing)
          pushed rest
  invoked_sound name (node r left right) s e =
      Yields-bind (sound (node r left right) s) λ y t called.
        Yields-bind (push_cell-Pushes (str y) t) λ _ w pushed. gave λ is x u rest.
          invokes (subst (λ q. Called env q nil [] [] (world s) y (world t)) (sym e) called) pushed
            rest

  instr_sound : (i : Instr) (s : Engine) → Yields (Leads i s) (exec_instr env run i s)
  unfolding exec_instr
  instr_sound i s = elim (invoke-cases i) [
    | inl (name, e) ↦
        subst (λ j. Yields (Leads j s) (exec_instr env run j s)) (sym e)
          (invoked_sound name (rule_find env.rules name) s refl)
    | inr other ↦ Yields-weaken leads (exec_instr-Steps env run i s other)
  ]
    where
      leads : (x : Option Text) (t : Engine) → Steps i (world s) x (world t) → Leads i s x t
      leads none t step = λ is y u rest. steps step rest
      leads (some x) t step = λ is. returns step

  -- What a stream of instructions returns is a run of it.
  pub stream_sound :
      (is : List Instr) (s : Engine)
      → Yields (λ x t. Codes env is (world s) x (world t)) (exec_stream env run is s)
  unfolding exec_stream
  stream_sound [] s = gave stops
  stream_sound (i ∷ is) s = Yields-bind (instr_sound i s) (next (stream_sound is))
    where
      next :
          ((t : Engine)
            → Yields (λ x u. Codes env is (world t) x (world u)) (exec_stream env run is t))
          → (x : Option Text) (t : Engine) → Leads i s x t
          → Yields
              (λ y u. Codes env (i ∷ is) (world s) y (world u))
              ((elim x as (λ _. M (Option Text)) [
                | some z ↦ pure (some z)
                | none ↦ exec_stream env run is
              ])
                t)
      next rest none t leads = Yields-weaken (λ y u. leads is y (world u)) (rest t)
      next rest (some z) t leads = gave (leads is)
