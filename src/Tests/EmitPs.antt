-- ===== src/Tests/EmitPs.antt =====
-- The sample grammar as a PostScript program.
use dada_engine.Prelude.{◌≡◌, refl, [], some}
use dada_engine.Text.{codes}
use dada_engine.EmitPs.{emit_ps}
use dada_engine.EmitPs.Brackets.{open_after}
use dada_engine.EmitPs.Balanced.{CleanRules, CleanNode, emit_ps-open_after}
use dada_engine.Tests.Samples.{grammar}

grammar_clean : CleanRules grammar
unfolding CleanNode
grammar_clean = (refl, ((refl, (refl, tt)), tt), tt, (refl, ((refl, tt), ((refl, tt), tt)), tt, tt))

emit_ps-open_after_example : open_after [] (emit_ps grammar (codes "greeting")) ≡ some []
emit_ps-open_after_example = emit_ps-open_after grammar (codes "greeting") grammar_clean refl
