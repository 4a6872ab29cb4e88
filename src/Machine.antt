-- ===== src/Machine.antt =====
-- src/machine.c: the interpreter of the embedded code. `stack[sp]` is a list with its top first;
-- a pop from an empty stack and a push on a full one are faults, and so is signed overflow.
-- A string that a cell and a variable share is one value here: nothing is said of who frees it.
pub mod Expr
pub mod Compiled
pub mod Program
pub mod Valid
pub mod Cells
pub mod Typed
pub mod World
pub mod Steps
use dada_engine.Prelude.{
  ℕ, Bool, not, ◌&&◌, List, [], ◌∷◌, Option, none, some, ok, fault, length, ltb, if◌then◌else◌,
}
use dada_engine.Prelude.Int.{ℤ, pos, ◌+ℤ◌, ◌-ℤ◌, ◌*ℤ◌, quot, rem, fits_int, ltb_ℤ, eqb_ℤ}
use dada_engine.Text.{Text}
use dada_engine.Strfunc.{concat}
use dada_engine.Variables.{Value, int, str, var_lookup, var_put, var_put_int, text_of_value}
use dada_engine.Instr.{
  Instr, set, pushv, invoke, push, add, sub, mul, div, emit, modulo, random, lesser, greater,
}
use dada_engine.Rtn.{RuleTree, null, node, rule_find}
use dada_engine.Engine.{Env, M, ◌>>=◌, ◌>>◌, pure, crash, get, put, checked, next_random}

abbrev pub stack_size : ℕ
stack_size = 1024

unfoldable pub push_cell : Value → M (Unit {0})
push_cell c s =
    if ltb (length s.stack) stack_size then ok (tt, record s { stack = c ∷ s.stack }) else fault

unfoldable pub temp_pop : M Value
temp_pop s = elim s.stack [ [] ↦ fault | c ∷ rest ↦ ok (c, record s { stack = rest }) ]

-- The arithmetic operations work on two numbers, and drop two cells of any other types.
unfoldable pub push_result : (ℤ → ℤ → M ℤ) → Value → Value → M (Unit {0})
unfolding push_cell
push_result f (int a) (int b) = f a b >>= λ r. push_cell (int r)
push_result f _ _ = pure tt

-- A division, and a remainder too, is defined if the quotient is: of INT_MIN by -1 neither is.
abbrev pub divides : ℤ → ℤ → Bool
divides a b = not (eqb_ℤ b (pos 0)) && fits_int (quot a b)

unfoldable pub divide : (ℤ → ℤ → ℤ) → ℤ → ℤ → M ℤ
divide f a b = if divides a b then checked (f a b) else crash

-- `(random()%(b-a+1))+a`
unfoldable pub random_between : Env → ℤ → ℤ → M ℤ
unfolding divide
random_between env a b = do
  r ← next_random env
  d ← checked (b -ℤ a)
  n ← checked (d +ℤ pos 1)
  m ← divide rem (pos r) n
  checked (m +ℤ a)

abbrev pub min_ℤ : ℤ → ℤ → ℤ
min_ℤ a b = if ltb_ℤ a b then a else b

abbrev pub max_ℤ : ℤ → ℤ → ℤ
max_ℤ a b = if ltb_ℤ b a then a else b

-- `ADD`: the sum of two numbers, or else the concatenation. The source frees both strings then, also
-- one that a variable holds, which is left dangling; the model keeps the variable as it is.
unfoldable pub add_cells : Value → Value → M (Unit {0})
unfolding push_cell concat
add_cells (int a) (int b) = checked (a +ℤ b) >>= λ r. push_cell (int r)
add_cells c d = push_cell (str (concat (text_of_value c) (text_of_value d)))

-- Pops the top, then the cell under it, and hands them over in the order in which they were pushed.
unfoldable pub pop_two : (Value → Value → M (Unit {0})) → M (Option Text)
unfolding temp_pop
pop_two f = do top ← temp_pop; under ← temp_pop; f under top; pure none

-- `INVOKE`, once the rule is looked up.
unfoldable pub invoked : (RuleTree → M (Option Text)) → RuleTree → M (Option Text)
unfolding push_cell
invoked run null = push_cell (str none) >> pure none
invoked run (node r left right) = do t ← run (node r left right); push_cell (str t); pure none

-- `exec_instr`; `run` resolves a rule. `SUB` adds, as the source does.
module _ (env : Env) (run : RuleTree → M (Option Text)) where
  unfoldable pub exec_instr : Instr → M (Option Text)
  unfolding temp_pop push_cell pop_two push_result divide random_between add_cells invoked
  exec_instr (set name) = do
    c ← temp_pop
    s ← get
    put (record s {
      vars = elim c [ str t ↦ var_put s.vars name t | int i ↦ var_put_int s.vars name i ];
    })
    pure none
  exec_instr emit = temp_pop >>= λ c. pure (text_of_value c)
  exec_instr (pushv name) = do
    s ← get
    elim (var_lookup s.vars name) [ none ↦ crash | some v ↦ push_cell v >> pure none ]
  exec_instr (invoke name) = invoked run (rule_find env.rules name)
  exec_instr (push (int i)) = push_cell (int i) >> pure none
  exec_instr (push (str none)) = crash
  exec_instr (push (str (some t))) = push_cell (str (some t)) >> pure none
  exec_instr add = pop_two add_cells
  exec_instr sub = pop_two (push_result λ a b. checked (a +ℤ b))
  exec_instr mul = pop_two (push_result λ a b. checked (a *ℤ b))
  exec_instr div = pop_two (push_result (divide quot))
  exec_instr modulo = pop_two (push_result (divide rem))
  exec_instr random = pop_two (push_result (random_between env))
  exec_instr lesser = pop_two (push_result λ a b. pure (min_ℤ a b))
  exec_instr greater = pop_two (push_result λ a b. pure (max_ℤ a b))

  -- Stops at the first instruction that returns a string.
  unfoldable pub exec_stream : List Instr → M (Option Text)
  unfolding exec_instr
  exec_stream [] = pure none
  exec_stream (i ∷ next) = do
    r ← exec_instr i
    elim r [ some t ↦ pure (some t) | none ↦ exec_stream next ]
