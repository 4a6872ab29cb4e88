-- ===== src/Dump/Code.antt =====
-- `dump_code` of src/machine.c on the code that the parser builds for an expression.
use mathlib.Core.Path.{subst}
use dada_engine.Prelude.{
  ◌≡◌, refl, Bool, true, false, ◌&&◌, ◌||◌, not, List, [], ◌∷◌, ◌++◌, none, some, Outcome, ok,
  fault, arith,
}
use dada_engine.Prelude.Ends.{◌>>=◌}
use dada_engine.Text.{Text}
use dada_engine.Variables.{int, str}
use dada_engine.Instr.{
  Instr, push, modulo, random, lesser, greater, set, pushv, invoke, add, sub, mul, div, emit, icat,
  e_simple, e_push_int, e_push_str, e_pushv, e_invoke,
}
use dada_engine.Machine.Expr.{
  BinOp, plus, percent, between, lower, higher, Expr, integer, literal, ident, called, binary,
  compile, opcode,
}
use dada_engine.Dump.{dump_instr, dump_code}

-- The instruction has a name in the table and an operand that can be printed.
abbrev printable : Instr → Bool
printable modulo = false
printable random = false
printable lesser = false
printable greater = false
printable (push (str none)) = false
printable i = true

abbrev all_printable : List Instr → Bool
all_printable [] = true
all_printable (i ∷ is) = printable i && all_printable is

abbrev Prints : Bool → Outcome Text → Type 0
Prints true o = (t : Text) × (o ≡ ok t)
Prints false o = o ≡ fault

dump_instr-Prints : (i : Instr) → Prints (printable i) (dump_instr i)
unfolding dump_instr
dump_instr-Prints modulo = refl
dump_instr-Prints random = refl
dump_instr-Prints lesser = refl
dump_instr-Prints greater = refl
dump_instr-Prints (push (int i)) = (_, refl)
dump_instr-Prints (push (str none)) = refl
dump_instr-Prints (push (str (some t))) = (_, refl)
dump_instr-Prints (set name) = (_, refl)
dump_instr-Prints (pushv name) = (_, refl)
dump_instr-Prints (invoke name) = (_, refl)
dump_instr-Prints add = (_, refl)
dump_instr-Prints sub = (_, refl)
dump_instr-Prints mul = (_, refl)
dump_instr-Prints div = (_, refl)
dump_instr-Prints emit = (_, refl)

both-Prints :
    (a b : Bool) (o p : Outcome Text)
    → Prints a o
    → Prints b p
    → Prints (a && b) (o >>= λ x. p >>= λ y. ok (x ++ y))
both-Prints true true o p (x, e) (y, f) = (x ++ y, rw (e, f) refl)
both-Prints true false o p (x, e) f = rw (e, f) refl
both-Prints false b o p e h = rw e refl

dump_code-Prints : (is : List Instr) → Prints (all_printable is) (dump_code is)
unfolding dump_code
dump_code-Prints [] = ([], refl)
dump_code-Prints (i ∷ is) =
    both-Prints (printable i) (all_printable is) (dump_instr i) (dump_code is) (dump_instr-Prints i)
      (dump_code-Prints is)

all_printable-icat :
    (a b : List Instr) → all_printable (icat a b) ≡ (all_printable a && all_printable b)
unfolding icat
all_printable-icat [] b = refl
all_printable-icat (i ∷ a) b = ground (arith, all_printable-icat a b)

-- The operations that were added to the machine after its table of names was written.
abbrev pub is_late : BinOp → Bool
is_late percent = true
is_late between = true
is_late lower = true
is_late higher = true
is_late op = false

abbrev pub has_late : Expr → Bool
has_late (binary op l r) = is_late op || (has_late l || has_late r)
has_late e = false

op_printable : (op : BinOp) → all_printable (e_simple (opcode op)) ≡ not (is_late op)
unfolding e_simple opcode
op_printable plus = refl
op_printable op = refl

compile-printable : (e : Expr) → all_printable (compile e) ≡ not (has_late e)
unfolding compile e_push_int e_push_str e_pushv e_invoke
compile-printable (integer i) = refl
compile-printable (literal t) = refl
compile-printable (ident name) = refl
compile-printable (called name) = refl
compile-printable (binary op l r) = ground (
  arith,
  all_printable-icat (compile l) (icat (compile r) (e_simple (opcode op))),
  all_printable-icat (compile r) (e_simple (opcode op)),
  op_printable op,
  compile-printable l,
  compile-printable r,
)

-- The dump of an expression's code reads past the end of the table of names if the expression has
-- one of the operations %, V, G or a range of random numbers in it, and is a text if it has none.
pub dump_code-compile :
    (e : Expr)
    → (has_late e ≡ true → dump_code (compile e) ≡ fault)
      × (has_late e ≡ false → (t : Text) × (dump_code (compile e) ≡ ok t))
dump_code-compile e = dumped (has_late e) (compile-printable e)
  where
    dumped :
        (late : Bool)
        → all_printable (compile e) ≡ not late
        → (late ≡ true → dump_code (compile e) ≡ fault)
          × (late ≡ false → (t : Text) × (dump_code (compile e) ≡ ok t))
    dumped true h = (
      λ k. subst (λ b. Prints b (dump_code (compile e))) h (dump_code-Prints (compile e)),
      λ k. absurd (cc k),
    )
    dumped false h = (
      λ k. absurd (cc k),
      λ k. subst (λ b. Prints b (dump_code (compile e))) h (dump_code-Prints (compile e)),
    )
