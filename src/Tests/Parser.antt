-- ===== src/Tests/Parser.antt =====
-- A grammar file with two ordinary rules, one of them defined twice, a mapping and a transformation.
use dada_engine.Prelude.{ℕ, ◌≡◌, ◌≤◌, refl, List, [], ◌∷◌, ok, false, arith}
use dada_engine.Prelude.Int.{pos}
use dada_engine.Text.{Text, codes, strcmp}
use dada_engine.Rtn.{
  ResMode, unique, literal, cons, option, end, Rule, RuleTree, null, node, nil, rule_find,
  option_length, option_nth,
}
use dada_engine.Rtn.Rules.{rule_of}
use dada_engine.Map.{map_lookup}
use dada_engine.Transform.{trans_lookup}
use dada_engine.Machine.World.{World}
use dada_engine.Select.{select_option}
use dada_engine.Pb.Main.{Parsed}
use dada_engine.Parser.Syntax.{
  quoted, named, mapped, bracketed, unique_of, single, followed, only, either, Definition, ordinary,
  resource, both_ways, at_place, Item, rule_item, mapping_item, xform_item,
}
use dada_engine.Parser.{start_reading, start_state, read_items, read_file}
use dada_engine.Parser.Addresses.{uses_rules}
use dada_engine.Parser.Lookup.{rule_find-first, IsBuilt, first_definition}
use dada_engine.Parser.Tables.{tables-last, last_mapping, last_xform}
use dada_engine.Parser.First.{uses_rules-read_items, first_choice, first_weights}
use dada_engine.Tests.Samples.{no_bytes, no_regex}

abbrev greeting : Definition
greeting =
    ordinary (codes "greeting")
      (only (followed (single (quoted (codes "hi "))) (named (codes "name"))))

abbrev name : Definition
name =
    resource (codes "name")
      (either (single (quoted (codes "x"))) (only (single (quoted (codes "y")))))

-- resource name: "x" | "y" ; greeting: "hi " name ; m: "a" <-> "b" ; %trans t: "k": 2 del ;
-- name: [ "z" ] > m ;
abbrev file : List Item
file =
    rule_item name
    ∷ rule_item greeting
    ∷ mapping_item (codes "m") (both_ways (codes "a") (codes "b")) []
    ∷ xform_item (codes "t")
        (record { key = codes "k"; addr = at_place (pos 2); command = codes "del"; args = [] }) []
    ∷ rule_item (
        ordinary (codes "name") (
          only (
            single
              (mapped (unique_of (bracketed (only (single (quoted (codes "z")))))) (codes "m")))))
    ∷ []

abbrev junk : ℕ → ResMode
junk k = unique

uses_rules-read_items_example : uses_rules 3 (read_items junk start_reading file).rules ≤ 1
uses_rules-read_items_example = uses_rules-read_items junk file 3

rule_find-first_example :
    IsBuilt junk
      (rule_of (rule_find (read_items junk start_reading file).rules (codes "name")))
      (first_definition file (codes "name"))
rule_find-first_example = rule_find-first junk file (codes "name")

tables-last_example :
    (map_lookup (read_items junk start_reading file).mappings (codes "m")
      ≡ last_mapping file (codes "m"))
    × (trans_lookup (read_items junk start_reading file).transformations (codes "m")
        ≡ last_xform file (codes "m"))
tables-last_example = tables-last junk file (codes "m")

abbrev fives : ℕ → ℕ
fives n = 5

abbrev parsed : Parsed
parsed = read_file junk fives fives false no_regex no_bytes file

abbrev left_of : RuleTree → RuleTree
left_of null = null
left_of (node r left right) = left

abbrev name_rule : Rule
name_rule = record {
  symbol = codes "name";
  options =
      option 0 (cons (literal (codes "x")) nil) (option 1 (cons (literal (codes "y")) nil) end);
  params = [];
  last_choice = 2;
}

name_found :
    rule_find parsed.env.rules (codes "name") ≡ node name_rule (left_of parsed.env.rules) null
unfolding rule_find strcmp read_file
name_found = refl

first_choice_example :
    select_option parsed.env 9 name_rule.options 2 unique parsed.state
    ≡ ok (
      option 1 (cons (literal (codes "y")) nil) end,
      record start_state { randweight = first_weights junk name_rule.options 1; randoms = 1 },
    )
unfolding option_length option_nth
first_choice_example =
    first_choice junk fives fives no_regex no_bytes file (codes "name") name_rule
      (left_of parsed.env.rules) null 9 unique name_found (omega arith)
