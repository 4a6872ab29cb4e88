-- ===== src/Rtn/Rules.antt =====
-- src/rtn.c: the tree of rules.
use dada_engine.Prelude.{◌≡◌, Option, none, some, arith, if◌then◌else◌}
use dada_engine.Text.{Text, str_eq}
use dada_engine.Text.Order.{eq_of_strcmp}
use dada_engine.Rtn.{Rule, RuleTree, null, node, rule_insert, rule_find}

-- The rule at the root.
abbrev pub rule_of : RuleTree → Option Rule
rule_of null = none
rule_of (node r left right) = some r

-- The first rule that was entered under a name.
abbrev pub first_rule : Option Rule → Option Rule → Option Rule
first_rule (some r) s = some r
first_rule none s = s

-- After a rule is inserted, a look-up finds what it found before, if it found a rule; otherwise it
-- finds the new rule under that rule's name, and nothing under any other. So of two rules with one
-- name the first inserted is the one that is used.
pub rule_find-rule_insert :
    (tree : RuleTree) (r : Rule) (name : Text)
    → rule_of (rule_find (rule_insert tree (node r null null)) name)
      ≡ first_rule (rule_of (rule_find tree name)) (if str_eq name r.symbol then some r else none)
unfolding rule_find rule_insert
rule_find-rule_insert null r name = ground arith
rule_find-rule_insert (node s a b) r name = ground (
  arith,
  rule_find-rule_insert a r name,
  rule_find-rule_insert b r name,
  eq_of_strcmp name r.symbol,
)
