-- ===== src/Machine/Expr.antt =====
-- src/parser.y, `expr`, `imperative` and `imperatives`: the code that the parser's actions build for
-- an expression, for an assignment or an output, and for several of these.
use dada_engine.Prelude.{List, [], ◌∷◌}
use dada_engine.Prelude.Int.{ℤ}
use dada_engine.Text.{Text}
use dada_engine.Instr.{
  Instr, add, sub, mul, div, modulo, lesser, greater, emit, icat, e_simple, e_set, e_pushv,
  e_push_int, e_push_str, e_invoke, random,
}

pub data BinOp : Type 0 where
  plus minus times over percent between lower higher : BinOp

pub data Expr : Type 0 where
  integer : ℤ → Expr
  literal : Text → Expr
  ident called : Text → Expr
  binary : BinOp → Expr → Expr → Expr

unfoldable pub opcode : BinOp → Instr
opcode plus = add
opcode minus = sub
opcode times = mul
opcode over = div
opcode percent = modulo
opcode between = random
opcode lower = lesser
opcode higher = greater

unfoldable pub compile : Expr → List Instr
compile (integer i) = e_push_int i
compile (literal t) = e_push_str t
compile (ident name) = e_pushv name
compile (called name) = e_invoke name
compile (binary op l r) = icat (compile l) (icat (compile r) (e_simple (opcode op)))

-- `name = expr` and `= expr`.
pub data Imperative : Type 0 where
  assign : Text → Expr → Imperative
  output : Expr → Imperative

unfoldable pub compile_assign : Text → Expr → List Instr
compile_assign name e = icat (compile e) (e_set name)

unfoldable pub compile_output : Expr → List Instr
compile_output e = icat (compile e) (e_simple emit)

unfoldable pub compile_imperative : Imperative → List Instr
unfolding compile_assign compile_output
compile_imperative (assign name e) = compile_assign name e
compile_imperative (output e) = compile_output e

-- `code` holds what was parsed before the `;`.
unfoldable pub compile_imperatives : List Instr → List Imperative → List Instr
unfolding compile_imperative
compile_imperatives code [] = code
compile_imperatives code (i ∷ is) = compile_imperatives (icat code (compile_imperative i)) is
