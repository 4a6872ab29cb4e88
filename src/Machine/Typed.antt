-- ===== src/Machine/Typed.antt =====
-- src/machine.c on the code of an expression: types, and the height of the stack.
use mathlib.Core.Path.{subst}
use dada_engine.Prelude.{
  ℕ, ◌≡◌, ◌⊎◌, refl, ap, ◌∙◌, inl, inr, sym, List, ◌∷◌, Option, none, some, Outcome, fault,
}
use dada_engine.Prelude.Int.{◌+ℤ◌, ◌*ℤ◌, quot, rem}
use dada_engine.Text.{Text}
use dada_engine.Variables.{TypeT, int_t, string_t, Value, int, str, Vars, var_lookup}
use dada_engine.Instr.{Instr, icat, e_simple, e_push_int, e_push_str, e_pushv}
use dada_engine.Rtn.{RuleTree}
use dada_engine.Engine.{Env, Engine, M, then_do, ◌>>◌, pure, crash, checked}
use dada_engine.Machine.{
  push_cell, push_result, divide, random_between, add_cells, min_ℤ, max_ℤ, exec_stream,
}
use dada_engine.Machine.Cells.{
  type_of, Pushed, no_cell, cell, Pushed-cell, Pushed-number, Counted-checked, Counted-divide,
  Counted-random, some_type, typed,
}
use dada_engine.Machine.Expr.{
  BinOp, plus, minus, times, over, percent, between, lower, higher, Expr, integer, literal, ident,
  called, binary, opcode, compile,
}
use dada_engine.Machine.Compiled.{split}

-- All operations are on numbers, but `+` also joins texts.
abbrev op_result : BinOp → TypeT → TypeT → Option TypeT
op_result op int_t int_t = some int_t
op_result plus int_t string_t = some string_t
op_result plus string_t int_t = some string_t
op_result plus string_t string_t = some string_t
op_result op t u = none

abbrev op_type : BinOp → Option TypeT → Option TypeT → Option TypeT
op_type op none u = none
op_type op (some t) none = none
op_type op (some t) (some u) = op_result op t u

abbrev variable_type : Option Value → Option TypeT
variable_type none = none
variable_type (some v) = some (type_of v)

-- The type of an expression that invokes no rule and has no undefined variable.
abbrev pub infer : Vars → Expr → Option TypeT
infer vars (integer i) = some int_t
infer vars (literal t) = some string_t
infer vars (ident name) = variable_type (var_lookup vars name)
infer vars (called name) = none
infer vars (binary op l r) = op_type op (infer vars l) (infer vars r)

-- An operation on two cells of the types that it wants.
module _ (env : Env) (run : RuleTree → M (Option Text)) where
  -- A fault, or what the rest of the stream does with one more cell of the type.
  abbrev pub Reaches : TypeT → List Instr → Engine → Outcome (Option Text × Engine) → Type 0
  Reaches t rest s o =
      (o ≡ fault)
      ⊎ ((v : Value) × (k : ℕ) × (type_of v ≡ t)
          × (o ≡ exec_stream env run rest (record s { stack = v ∷ s.stack; randoms = k })))

  -- What an operation does with the two cells that it popped.
  abbrev op_action : BinOp → Value → Value → M (Unit {0})
  op_action plus = add_cells
  op_action minus = push_result λ a b. checked (a +ℤ b)
  op_action times = push_result λ a b. checked (a *ℤ b)
  op_action over = push_result (divide quot)
  op_action percent = push_result (divide rem)
  op_action between = push_result (random_between env)
  op_action lower = push_result λ a b. pure (min_ℤ a b)
  op_action higher = push_result λ a b. pure (max_ℤ a b)

  op-Pushed :
      (op : BinOp) (a b : Value) (t : TypeT) (s : Engine)
      → op_result op (type_of a) (type_of b) ≡ some t
      → Pushed t s (op_action op a b s)
  unfolding push_result add_cells
  op-Pushed plus (int x) (int y) t s h =
      typed h (Pushed-number (Counted-checked (x +ℤ y) s s.randoms))
  op-Pushed plus (int x) (str y) t s h = Pushed-cell _ t s s.randoms (some_type h)
  op-Pushed plus (str x) (int y) t s h = Pushed-cell _ t s s.randoms (some_type h)
  op-Pushed plus (str x) (str y) t s h = Pushed-cell _ t s s.randoms (some_type h)
  op-Pushed minus (int x) (int y) t s h =
      typed h (Pushed-number (Counted-checked (x +ℤ y) s s.randoms))
  op-Pushed times (int x) (int y) t s h =
      typed h (Pushed-number (Counted-checked (x *ℤ y) s s.randoms))
  op-Pushed over (int x) (int y) t s h =
      typed h (Pushed-number (Counted-divide quot x y s s.randoms))
  op-Pushed percent (int x) (int y) t s h =
      typed h (Pushed-number (Counted-divide rem x y s s.randoms))
  op-Pushed between (int x) (int y) t s h = typed h (Pushed-number (Counted-random env x y s))
  op-Pushed lower (int x) (int y) t s h =
      typed h (Pushed-cell (int (min_ℤ x y)) int_t s s.randoms refl)
  op-Pushed higher (int x) (int y) t s h =
      typed h (Pushed-cell (int (max_ℤ x y)) int_t s s.randoms refl)
  op-Pushed op a b t s h = cc

  -- The rest of the stream, after an operation's action.
  abbrev go_on : List Instr → Outcome (Unit {0} × Engine) → Outcome (Option Text × Engine)
  go_on rest o = then_do (then_do {B = Option Text} o λ _. pure none) λ r.
      elim r as (λ _. M (Option Text)) [ some x ↦ pure (some x) | none ↦ exec_stream env run rest ]

  goes_on :
      (t : TypeT) (rest : List Instr) (s : Engine) {o : Outcome (Unit {0} × Engine)}
      → Pushed t s o
      → Reaches t rest s (go_on rest o)
  goes_on t rest s no_cell = inl refl
  goes_on t rest s (cell {v} {k} e) = inr (v, k, e, refl)

  op_goes :
      (op : BinOp) (a b : Value) (t : TypeT) (rest : List Instr) (s : Engine)
      → op_result op (type_of a) (type_of b) ≡ some t
      → Reaches t rest s
          (exec_stream env run (opcode op ∷ rest) (record s { stack = b ∷ a ∷ s.stack }))
  unfolding exec_stream opcode
  op_goes plus a b t rest s h = goes_on t rest s (op-Pushed plus a b t s h)
  op_goes minus a b t rest s h = goes_on t rest s (op-Pushed minus a b t s h)
  op_goes times a b t rest s h = goes_on t rest s (op-Pushed times a b t s h)
  op_goes over a b t rest s h = goes_on t rest s (op-Pushed over a b t s h)
  op_goes percent a b t rest s h = goes_on t rest s (op-Pushed percent a b t s h)
  op_goes between a b t rest s h = goes_on t rest s (op-Pushed between a b t s h)
  op_goes lower a b t rest s h = goes_on t rest s (op-Pushed lower a b t s h)
  op_goes higher a b t rest s h = goes_on t rest s (op-Pushed higher a b t s h)

  infer-both :
      (op : BinOp) (o p : Option TypeT) (t : TypeT)
      → op_type op o p ≡ some t
      → (x : TypeT) × (y : TypeT) × (o ≡ some x) × (p ≡ some y)
  infer-both op (some x) (some y) t h = (x, y, refl, refl)
  infer-both op none p t h = cc
  infer-both op (some x) none t h = cc

  looked_up :
      (o : Option Value) (t : TypeT) (rest : List Instr) (s : Engine)
      → variable_type o ≡ some t
      → Reaches t rest s (
          then_do
            ((elim o as (λ _. M (Option Text)) [ none ↦ crash | some v ↦ push_cell v >> pure none ])
              s)
            λ r. elim r as (λ _. M (Option Text)) [
              | some x ↦ pure (some x)
              | none ↦ exec_stream env run rest
            ])
  looked_up none t rest s h = cc
  looked_up (some v) t rest s h = goes_on t rest s (Pushed-cell v t s s.randoms (some_type h))

  -- What follows a first cell.
  Reaches-next :
      (x t : TypeT) (mid rest : List Instr) (s s' : Engine) {o : Outcome (Option Text × Engine)}
      → Reaches x mid s' o
      → ((v : Value) (k : ℕ)
          → type_of v ≡ x
          → Reaches t rest s
              (exec_stream env run mid (record s' { stack = v ∷ s'.stack; randoms = k })))
      → Reaches t rest s o
  Reaches-next x t mid rest s s' (inl e) h = inl e
  Reaches-next x t mid rest s s' (inr (v, k, e, same)) h =
      subst (Reaches t rest s) (sym same) (h v k e)

  -- Let an expression invoke no rule, have no undefined variable, and apply each operation but `+` to
  -- numbers only, so that it has a type. Then its code never takes a cell that is not its own: the
  -- stream ends in a fault, or goes on with what follows the code on the same stack with one more
  -- cell, which has that type; besides, only random numbers were drawn.
  pub compile-Typed :
      (e : Expr) (t : TypeT) (rest : List Instr) (s : Engine)
      → infer s.vars e ≡ some t
      → Reaches t rest s (exec_stream env run (icat (compile e) rest) s)
  unfolding compile icat exec_stream e_push_int e_push_str e_pushv e_simple
  compile-Typed (integer i) t rest s h =
      goes_on t rest s (Pushed-cell (int i) t s s.randoms (some_type h))
  compile-Typed (literal x) t rest s h =
      goes_on t rest s (Pushed-cell (str (some x)) t s s.randoms (some_type h))
  compile-Typed (ident name) t rest s h = looked_up (var_lookup s.vars name) t rest s h
  compile-Typed (called name) t rest s h = cc
  compile-Typed (binary op l r) t rest s h =
      let (x, y, hl, hr) = infer-both op (infer s.vars l) (infer s.vars r) t h in
      let right = icat (compile r) (opcode op ∷ rest) in
      subst (Reaches t rest s) (sym (split env run op l r rest s)) (
        Reaches-next x t right rest s s (compile-Typed l x right s hl) λ v k ev.
          let s' = record s { stack = v ∷ s.stack; randoms = k } in
          Reaches-next y t (opcode op ∷ rest) rest s s' (compile-Typed r y (opcode op ∷ rest) s' hr)
            λ w m ew. op_goes op v w t rest (record s { randoms = m }) (rw (ev, ew) (result hl hr)))
    where
      result :
          {x y : TypeT}
          → infer s.vars l ≡ some x
          → infer s.vars r ≡ some y
          → op_result op x y ≡ some t
      result {x} {y} hl hr =
          ap (λ o. op_type op o (some y)) (sym hl) ∙ (ap (op_type op (infer s.vars l)) (sym hr) ∙ h)
