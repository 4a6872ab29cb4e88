-- ===== src/Tests/Wrap.antt =====
-- Word wrapping.
use dada_engine.Prelude.{◌≡◌, refl, some, true, ok}
use dada_engine.Prelude.Int.{pos, ◌-ℤ◌}
use dada_engine.Text.{Text, codes}
use dada_engine.Wrap.{print_wrapped}
use dada_engine.Wrap.Width.{lines_fit}
use dada_engine.Wrap.Words.{words}
use dada_engine.Wrap.Correct.{print_wrapped_lem}

wraps : print_wrapped (some (codes "ab c de")) (pos 5) ≡ ok (codes "ab c \nde ")
unfolding print_wrapped ◌-ℤ◌
wraps = refl

print_wrapped_lem_example :
    (out : Text) × (print_wrapped (some (codes "ab c de")) (pos 5) ≡ ok out)
    × (words out ≡ words (codes "ab c de"))
    × (lines_fit 5 0 0 out ≡ true)
print_wrapped_lem_example = print_wrapped_lem 5 (codes "ab c de")
