-- ===== src/Parser/Checked.antt =====
-- src/parser.y and src/check.c: the check of a file, told by its definitions.
use dada_engine.Prelude.{ℕ, ◌≡◌, List, [], ◌∷◌, Bool, ◌&&◌, not}
use dada_engine.Text.{Text, str_eq}
use dada_engine.Ptrlist.Laws.{first_place}
use dada_engine.Rtn.{ResMode, Rule}
use dada_engine.Engine.{Env}
use dada_engine.Check.{is_none, no_rule, no_mapping}
use dada_engine.Parser.Syntax.{
  Alternatives, Definition, ordinary, resource, parametrised, Item, rule_item, mapping_item,
  xform_item,
}
use dada_engine.Parser.{build_options}
use dada_engine.Parser.Lookup.{first_definition}
use dada_engine.Parser.Tables.{last_mapping, last_xform}
use dada_engine.Parser.Closed.{AlternativesClosed}

abbrev pub formals : Definition → List Text
formals (ordinary name os) = []
formals (resource name os) = []
formals (parametrised name p ps os) = p ∷ ps

abbrev pub alternatives : Definition → Alternatives
alternatives (ordinary name os) = os
alternatives (resource name os) = os
alternatives (parametrised name p ps os) = os

-- The name is that of a parameter.
abbrev pub takes : Definition → Text → Bool
takes d t = not (is_none (first_place (formals d) (λ p. str_eq p t)))

-- No definition of the file has this name; no mapping and no transformation has it.
abbrev pub undefined : List Item → Text → Bool
undefined items t = is_none (first_definition items t)

abbrev pub untabled : List Item → Text → Bool
untabled items t = is_none (last_mapping items t) && is_none (last_xform items t)

-- What the check asks of each definition.
abbrev pub DefinitionClosed : List Item → Definition → Type 0
DefinitionClosed file d =
    AlternativesClosed (takes d) (undefined file) (untabled file) (alternatives d)

abbrev pub AllClosed : List Item → List Item → Type 0
AllClosed file [] = Unit
AllClosed file (rule_item d ∷ is) = DefinitionClosed file d × AllClosed file is
AllClosed file (mapping_item n e es ∷ is) = AllClosed file is
AllClosed file (xform_item n e es ∷ is) = AllClosed file is

module _ (stale : ℕ → ResMode) where
  module _ (env : Env) (file : List Item) (no_rules : (t : Text) → no_rule env t ≡ undefined file t)
      (no_tables : (t : Text) → no_mapping env t ≡ untabled file t) where
    abbrev built : Text → List Text → Alternatives → ℕ → Rule
    built name ps os k = record {
      symbol = name;
      options = (build_options stale os k).0;
      params = ps;
      last_choice = (build_options stale os k).1;
    }
