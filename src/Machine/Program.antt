-- ===== src/Machine/Program.antt =====
-- src/machine.c on the code of a sequence of assignments and outputs.
use dada_engine.Prelude.{ℕ, List, [], ◌∷◌, Option, none, some}
use Prim.Native.Nat.{max}
use dada_engine.Text.{Text}
use dada_engine.Variables.{Value, int, str, Vars, var_put, var_put_int, text_of_value}
use dada_engine.Instr.{Instr, icat, set, emit}
use dada_engine.Engine.{Engine}
use dada_engine.Machine.Expr.{compile, Imperative, assign, output}
use dada_engine.Machine.Compiled.{eval, depth}

abbrev stored : Vars → Text → Value → Vars
stored vars name (int i) = var_put_int vars name i
stored vars name (str t) = var_put vars name t

-- What the imperatives do to the variables, and the text of the first output that has one.
-- `none` if an expression on the way has no value.
abbrev pub meaning : Vars → List Imperative → Option (Vars × Option Text)
meaning vars [] = some (vars, none)
meaning vars (assign name e ∷ rest) = elim (eval vars e) [
  | none ↦ none
  | some v ↦ meaning (stored vars name v) rest
]
meaning vars (output e ∷ rest) =
    let after = meaning vars rest in
    elim (eval vars e) [
      | none ↦ none
      | some v ↦ elim (text_of_value v) [ none ↦ after | some t ↦ some (vars, some t) ]
    ]

-- The cells that the code needs.
abbrev pub cells : List Imperative → ℕ
cells [] = 0
cells (assign name e ∷ rest) = max (depth e) (cells rest)
cells (output e ∷ rest) = max (depth e) (cells rest)

-- The same code, put together from the right.
abbrev code : List Imperative → List Instr
code [] = []
code (assign name e ∷ rest) = icat (compile e) (set name ∷ code rest)
code (output e ∷ rest) = icat (compile e) (emit ∷ code rest)
