-- ===== src/Tests/Dump.antt =====
-- The dump of an expression and of the sample grammar.
use dada_engine.Prelude.{◌≡◌, refl, true, false, ok, fault, [], ◌∷◌, ◌++◌}
use dada_engine.Prelude.Int.{pos}
use dada_engine.Text.{Text, codes}
use dada_engine.Machine.Expr.{Expr, integer, binary, plus, percent, compile}
use dada_engine.Text.Decimal.{print_int}
use dada_engine.Rtn.{rule_inorder_traverse, option_length}
use dada_engine.Dump.{dump_code, dump_rules}
use dada_engine.Dump.Code.{has_late, dump_code-compile}
use dada_engine.Tests.Samples.{grammar}

-- 7 % 2 + 1
abbrev remainder : Expr
remainder = binary plus (binary percent (integer (pos 7)) (integer (pos 2))) (integer (pos 1))

dump_code-compile_example :
    (has_late remainder ≡ true → dump_code (compile remainder) ≡ fault)
    × (has_late remainder ≡ false → (t : Text) × (dump_code (compile remainder) ≡ ok t))
dump_code-compile_example = dump_code-compile remainder

sample_dumped :
    dump_rules grammar
    ≡ ok (
        codes "greeting : (1 options)"
        ++ 10 ∷ 9 ∷ 9 ∷ codes "\"hi \", {name}, "
        ++ 10 ∷ codes "name : (2 options)"
        ++ 10 ∷ 9 ∷ 9 ∷ codes "\"x\", "
        ++ 10 ∷ 9 ∷ 9 ∷ codes "\"y\", "
        ++ 10 ∷ [])
unfolding dump_rules rule_inorder_traverse print_int option_length
sample_dumped = refl
