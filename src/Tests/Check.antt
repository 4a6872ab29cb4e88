-- ===== src/Tests/Check.antt =====
-- The check of the sample grammar, which passes.
use dada_engine.Prelude.{◌≡◌, refl, ok}
use dada_engine.Text.{strcmp}
use dada_engine.Rtn.{rule_find, rule_inorder_traverse, param_indexof, node_map}
use dada_engine.Check.{check_rtn}
use dada_engine.Tests.Samples.{env}

passes : check_rtn env ≡ ok tt
unfolding check_rtn strcmp rule_find rule_inorder_traverse param_indexof node_map
passes = refl
