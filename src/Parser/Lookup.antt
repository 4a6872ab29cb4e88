-- ===== src/Parser/Lookup.antt =====
-- src/parser.y: the rules of the grammar that is read from a file, and its initial rule.
use dada_engine.Prelude.{
  ℕ, ◌≡◌, refl, sym, ◌∙◌, List, [], ◌∷◌, Option, none, some, inl, inr, Bool-cases, if◌then◌else◌,
}
use dada_engine.Text.{Text, str_eq}
use dada_engine.Rtn.{ResMode, Rule, RuleTree, null, node, rule_new, rule_insert, rule_find}
use dada_engine.Rtn.Rules.{rule_of, first_rule, rule_find-rule_insert}
use dada_engine.Parser.Syntax.{
  Definition, ordinary, resource, parametrised, defined_name, Item, rule_item, mapping_item,
  xform_item,
}
use dada_engine.Parser.{Reading, start_reading, build_rule, first_initial, read_item, read_items}

-- The first definition of a name in the file.
abbrev pub first_definition : List Item → Text → Option Definition
first_definition [] name = none
first_definition (rule_item d ∷ is) name =
    let rest = first_definition is name in if str_eq name (defined_name d) then some d else rest
first_definition (mapping_item n e es ∷ is) name = first_definition is name
first_definition (xform_item n e es ∷ is) name = first_definition is name

-- The first definition in the file with neither parameters nor `resource` before it.
abbrev pub first_ordinary : List Item → Option Definition
first_ordinary [] = none
first_ordinary (rule_item (ordinary name os) ∷ is) = some (ordinary name os)
first_ordinary (rule_item (resource name os) ∷ is) = first_ordinary is
first_ordinary (rule_item (parametrised name p ps os) ∷ is) = first_ordinary is
first_ordinary (mapping_item n e es ∷ is) = first_ordinary is
first_ordinary (xform_item n e es ∷ is) = first_ordinary is

module _ (stale : ℕ → ResMode) where
  -- The rule, if there is one, is what the actions build from the definition.
  abbrev pub IsBuilt : Option Rule → Option Definition → Type 0
  IsBuilt o none = o ≡ none
  IsBuilt o (some d) = (k : ℕ) × (o ≡ rule_of (build_rule stale d k).0)

  find_inserted :
      (tree : RuleTree) (d : Definition) (k : ℕ) (name : Text)
      → rule_of (rule_find (rule_insert tree (build_rule stale d k).0) name)
        ≡ first_rule
            (rule_of (rule_find tree name))
            (if str_eq name (defined_name d) then rule_of (build_rule stale d k).0 else none)
  unfolding build_rule rule_new
  find_inserted tree (ordinary n os) k name = rule_find-rule_insert tree _ name
  find_inserted tree (resource n os) k name = rule_find-rule_insert tree _ name
  find_inserted tree (parametrised n p ps os) k name = rule_find-rule_insert tree _ name

  pub built_rule :
      (d : Definition) (k : ℕ) → (r : Rule) × (rule_of (build_rule stale d k).0 ≡ some r)
  unfolding build_rule rule_new
  built_rule (ordinary n os) k = (_, refl)
  built_rule (resource n os) k = (_, refl)
  built_rule (parametrised n p ps os) k = (_, refl)

  -- A rule that is found stays.
  found_before :
      (items : List Item) (st : Reading) (name : Text) (r : Rule)
      → rule_of (rule_find st.rules name) ≡ some r
      → rule_of (rule_find (read_items stale st items).rules name) ≡ some r
  unfolding read_items read_item
  found_before [] st name r h = h
  found_before (rule_item d ∷ is) st name r h =
      found_before is _ name r (find_inserted st.rules d st.counter name ∙ rw h refl)
  found_before (mapping_item n e es ∷ is) st name r h = found_before is _ name r h
  found_before (xform_item n e es ∷ is) st name r h = found_before is _ name r h

  found_after :
      (items : List Item) (st : Reading) (name : Text)
      → rule_of (rule_find st.rules name) ≡ none
      → IsBuilt
          (rule_of (rule_find (read_items stale st items).rules name))
          (first_definition items name)
  unfolding read_items read_item
  found_after [] st name h = h
  found_after (rule_item d ∷ is) st name h = elim (Bool-cases (str_eq name (defined_name d))) [
    | inl same ↦
        let (r, e) = built_rule d st.counter in
        rw same (
          st.counter,
          found_before is _ name r (find_inserted st.rules d st.counter name ∙ rw (h, same) e)
              ∙ sym e,
        )
    | inr other ↦
        rw other
          (found_after is _ name (find_inserted st.rules d st.counter name ∙ rw (h, other) refl))
  ]
  found_after (mapping_item n e es ∷ is) st name h = found_after is _ name h
  found_after (xform_item n e es ∷ is) st name h = found_after is _ name h

  -- Of the rules that a file defines under a name, a look-up finds the one that the actions build
  -- from the first definition; under any other name it finds none.
  pub rule_find-first :
      (items : List Item) (name : Text)
      → IsBuilt
          (rule_of (rule_find (read_items stale start_reading items).rules name))
          (first_definition items name)
  unfolding rule_find
  rule_find-first items name = found_after items start_reading name refl

  -- The definition, if there is one, is what the pointer was built from.
  abbrev pub IsBuiltTree : RuleTree → Option Definition → Type 0
  IsBuiltTree tree none = tree ≡ null
  IsBuiltTree tree (some d) = (k : ℕ) × (tree ≡ (build_rule stale d k).0)

  initial_kept :
      (items : List Item) (st : Reading) (r : Rule) (left right : RuleTree)
      → st.initial_rule ≡ node r left right
      → (read_items stale st items).initial_rule ≡ node r left right
  unfolding read_items read_item first_initial
  initial_kept [] st r left right h = h
  initial_kept (rule_item d ∷ is) st r left right h = initial_kept is _ r left right (rw h refl)
  initial_kept (mapping_item n e es ∷ is) st r left right h = initial_kept is _ r left right h
  initial_kept (xform_item n e es ∷ is) st r left right h = initial_kept is _ r left right h

  initial_after :
      (items : List Item) (st : Reading)
      → st.initial_rule ≡ null
      → IsBuiltTree (read_items stale st items).initial_rule (first_ordinary items)
  unfolding read_items read_item first_initial build_rule rule_new
  initial_after [] st h = h
  initial_after (rule_item (ordinary name os) ∷ is) st h =
      (st.counter, initial_kept is _ _ null null (rw h refl))
  initial_after (rule_item (resource name os) ∷ is) st h = initial_after is _ (rw h refl)
  initial_after (rule_item (parametrised name p ps os) ∷ is) st h = initial_after is _ (rw h refl)
  initial_after (mapping_item n e es ∷ is) st h = initial_after is _ h
  initial_after (xform_item n e es ∷ is) st h = initial_after is _ h

  -- The rule that a run starts with is built from the first definition in the file that has neither
  -- parameters nor the word `resource`.
  pub initial_rule-first :
      (items : List Item)
      → IsBuiltTree (read_items stale start_reading items).initial_rule (first_ordinary items)
  initial_rule-first items = initial_after items start_reading refl
