-- ===== src/Parser/Syntax.antt =====
-- src/parser.y: the parse trees of a grammar file, one data type for each nonterminal. A nonterminal
-- that only strings others along is the list of them, in the order in which they stand in the file.
use dada_engine.Prelude.{List}
use dada_engine.Prelude.Int.{ℤ}
use dada_engine.Text.{Text}
use dada_engine.Machine.Expr.{Imperative}

mutual
  -- `atom` and `atom2`
  pub data Atom : Type 0 where
    quoted : Text → Atom
    named : Text → Atom
    named_with : Text → Atoms → Atom
    mapped : Atom → Text → Atom
    dereferenced : Atom → Atom
    defaulted : Text → Atom → Atom
    assigned : Text → Atom → Atom
    fetched : Text → Atom
    embedded : List Imperative → Atom
    silenced : Atom → Atom
    starred : Atom → Atom
    plussed : Atom → Atom
    bracketed : Alternatives → Atom
    repeated : Atom → ℤ → Atom
    repeated_by : Atom → Text → Atom
    unique_of : Atom → Atom
    enum_of : Atom → Atom
    pick_of : ℤ → Atom → Atom

  -- `atoms`: left recursive, and never empty.
  pub data Atoms : Type 0 where
    single : Atom → Atoms
    followed : Atoms → Atom → Atoms

  -- `options`: right recursive. An `option` is its atoms.
  pub data Alternatives : Type 0 where
    only : Atoms → Alternatives
    either : Atoms → Alternatives → Alternatives

-- `rule`: an ordinary one, one with `T_RESOURCE` before it, and one with a first and other
-- parameters.
pub data Definition : Type 0 where
  ordinary : Text → Alternatives → Definition
  resource : Text → Alternatives → Definition
  parametrised : Text → Text → List Text → Alternatives → Definition

-- `mapopt` and `mapaction`: what `M` maps to a text or sends through a substitution, and what `R`
-- maps there and back.
pub data MapEntry : Type 0 where
  one_way : Text → Text → MapEntry
  substituted : Text → Text → Text → MapEntry
  both_ways : Text → Text → MapEntry

-- `transaddr`
pub data Address : Type 0 where
  everywhere : Address
  at_place : ℤ → Address
  from_to : ℤ → ℤ → Address

-- `transopt` with its `transcmd`
pub record TransEntry : Type 0 where
  pub key : Text
  pub addr : Address
  pub command : Text
  pub args : List Text

-- What stands in a file: `mapopts` and `transopts` are a first and the others.
pub data Item : Type 0 where
  rule_item : Definition → Item
  mapping_item : Text → MapEntry → List MapEntry → Item
  xform_item : Text → TransEntry → List TransEntry → Item

-- The name that a rule is defined under.
abbrev pub defined_name : Definition → Text
defined_name (ordinary name os) = name
defined_name (resource name os) = name
defined_name (parametrised name p ps os) = name
