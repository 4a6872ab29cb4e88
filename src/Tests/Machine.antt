-- ===== src/Tests/Machine.antt =====
-- The stack machine: the expression `"a" + 2 * 3`.
use dada_engine.Prelude.{[], ◌∷◌, Option, none, some, ◌≡◌, refl, ok, fault, arith}
use dada_engine.Prelude.Int.{pos, negsuc, quot, ◌+ℤ◌, ◌*ℤ◌}
use dada_engine.Text.{Text, codes, strcmp}
use dada_engine.Text.Decimal.{print_int}
use dada_engine.Strfunc.{concat}
use dada_engine.Variables.{int_t, int, str, var, var_lookup}
use dada_engine.Variables
use dada_engine.Instr.{e_simple, icat, emit, push, modulo}
use dada_engine.Rtn.{RuleTree}
use dada_engine.Engine.{M}
use dada_engine.Machine.{exec_stream}
use dada_engine.Machine.Expr.{
  ident, Expr, integer, literal, binary, plus, minus, times, between, compile,
}
use dada_engine.Machine.Compiled.{eval, compile_correct, minus_adds}
use dada_engine.Machine.Typed.{Reaches, compile-Typed}
use dada_engine.Tests.Samples.{env, fresh}

abbrev no_rule : RuleTree → M (Option Text)
no_rule rule s = ok (none, s)

abbrev product : Expr
product = binary times (integer (pos 2)) (integer (pos 3))

abbrev sum : Expr
sum = binary plus (literal (codes "a")) product

compile_correct_example :
    exec_stream env no_rule (icat (compile sum) (e_simple emit)) fresh
    ≡ exec_stream env no_rule
        (e_simple emit)
        (record fresh { stack = str (some (codes "a6")) ∷ [] })
unfolding ◌*ℤ◌ concat print_int
compile_correct_example =
    compile_correct env no_rule sum (e_simple emit) fresh (str (some (codes "a6"))) refl
      (omega arith)

-- The least `int` has no remainder by -1.
least_by_minus_one :
    exec_stream env no_rule
      (push (int (negsuc 0)) ∷ modulo ∷ [])
      (record fresh { stack = int (negsuc 2147483647) ∷ [] })
    ≡ fault
unfolding exec_stream quot
least_by_minus_one = refl

-- `+` would free the variable's string.
shared_string :
    eval
      (var (codes "x") (str (some (codes "b"))) Variables.null Variables.null)
      (binary plus (ident (codes "x")) (literal (codes "a")))
    ≡ none
unfolding var_lookup strcmp
shared_string = refl

minus_adds_example :
    exec_stream env no_rule
      (icat (compile (binary minus (integer (pos 7)) (integer (pos 2)))) (e_simple emit))
      fresh
    ≡ exec_stream env no_rule (e_simple emit) (record fresh { stack = int (pos 9) ∷ [] })
unfolding ◌+ℤ◌
minus_adds_example =
    minus_adds env no_rule (integer (pos 7)) (integer (pos 2)) (e_simple emit) fresh (pos 7) (pos 2)
      refl refl refl (omega arith)

abbrev dice : Expr
dice = binary between (integer (pos 1)) (integer (pos 6))

compile-Typed_example :
    Reaches env no_rule int_t
      (e_simple emit)
      fresh
      (exec_stream env no_rule (icat (compile dice) (e_simple emit)) fresh)
compile-Typed_example = compile-Typed env no_rule dice int_t (e_simple emit) fresh refl
