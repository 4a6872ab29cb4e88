-- ===== src/Parser/First.antt =====
-- src/parser.y and src/resolve.c: the addresses of a whole grammar, and the first choice of an option.
use native.Mathlib.Nat.{mod-lt}
use mathlib.Core.Path.{subst}
use dada_engine.Prelude.{
  ℕ, suc, ◌+◌, ◌-◌, ◌*◌, ◌/◌, ◌%◌, ◌≤◌, ◌<◌, ◌≡◌, refl, sym, arith, List, [], ◌∷◌, Option, none,
  some, ok, false, inl, inr, Bool-cases, if◌then◌else◌, ◌==◌, ltb,
}
use dada_engine.Text.{Text}
use dada_engine.Rtn.{
  Node, ResMode, Options, end, option, option_length, option_nth, option_append, option_cons, Rule,
  RuleTree, node, rule_new, rule_find, initial_weight,
}
use dada_engine.Rtn.Rules.{rule_of}
use dada_engine.Map.{Regex}
use dada_engine.Engine.{Env}
use dada_engine.Select.{int_limit, walk, select_new, select_option}
use dada_engine.Select.Walk.{total}
use dada_engine.Select.Weights.{has, Distinct, CanGrow, head_address, select_new-walked}
use dada_engine.Parser.Syntax.{
  Alternatives, only, either, Definition, ordinary, resource, parametrised, Item, rule_item,
  mapping_item, xform_item,
}
use dada_engine.Parser.{
  Reading, start_reading, start_state, build_options, build_rule, read_item, read_items, read_file,
}
use dada_engine.Parser.Addresses.{
  uses_options, uses_rules, Fresh, Fresh-then, options-Fresh, rule-Fresh, uses-rule_insert,
}
use dada_engine.Parser.Lookup.{IsBuilt, first_definition, rule_find-first}

module _ (stale : ℕ → ResMode) where
  reading-Fresh :
      (items : List Item) (st : Reading)
      → Fresh 0 st.counter (λ x. uses_rules x st.rules)
      → Fresh 0
          (read_items stale st items).counter
          (λ x. uses_rules x (read_items stale st items).rules)
  unfolding read_items read_item
  reading-Fresh [] st h = h
  reading-Fresh (rule_item d ∷ is) st h = reading-Fresh is _ (
      Fresh-then 0 st.counter _ h (rule-Fresh stale d st.counter)
        λ x. uses-rule_insert x st.rules (build_rule stale d st.counter).0)
  reading-Fresh (mapping_item n e es ∷ is) st h = reading-Fresh is _ h
  reading-Fresh (xform_item n e es ∷ is) st h = reading-Fresh is _ h

  -- No address belongs to two of the options, inline choices and rules of the grammar that is read
  -- from a file, those inside of others included.
  pub uses_rules-read_items :
      (items : List Item) (x : ℕ) → uses_rules x (read_items stale start_reading items).rules ≤ 1
  uses_rules-read_items items x =
      let fresh = reading-Fresh items start_reading (omega arith, λ y. ground arith) in
      ground (arith, fresh.1 x)

has-uses_options : (os : Options) (x : ℕ) → (if has os x then 1 else 0) ≤ uses_options x os
has-uses_options end x = omega arith
has-uses_options (option o atoms next) x = ground (arith, has-uses_options next x)

uses_options-Distinct : (os : Options) → ((x : ℕ) → uses_options x os ≤ 1) → Distinct os
uses_options-Distinct end h = tt
uses_options-Distinct (option o atoms next) h = (
  ground (arith, h o, has-uses_options next o),
  uses_options-Distinct next λ x. ground (arith, h x),
)

-- Options that all have the weight of a new one.
walk-even :
    (options : Options) (ch : ℕ)
    → ch < 4 * option_length options
    → walk (λ o. initial_weight) options ch ≡ ok (option_nth options ((ch - 1) / 4))
unfolding walk option_nth option_length
walk-even end ch h = absurd (omega arith)
walk-even (option o atoms next) ch h = elim (Bool-cases (ltb 4 ch)) [
  | inl past ↦
      let place : (ch - 1) / 4 ≡ suc ((ch - 4 - 1) / 4) = ground arith in
      rw (past, place) (walk-even next (ch - 4) (ground arith))
  | inr here ↦ let place : (ch - 1) / 4 ≡ 0 = ground arith in rw (here, place) refl
]

total-even : (options : Options) → total (λ o. initial_weight) options ≡ 4 * option_length options
unfolding option_length
total-even end = refl
total-even (option o atoms next) = omega (arith, total-even next)

CanGrow-even : (options : Options) → CanGrow (λ o. initial_weight) options
CanGrow-even end = tt
CanGrow-even (option o atoms next) = (omega arith, CanGrow-even next)

length-option_append :
    (a b : Options) → option_length (option_append a b) ≡ option_length a + option_length b
unfolding option_length option_append
length-option_append end b = omega arith
length-option_append (option o atoms a) b = omega (arith, length-option_append a b)

module _ (stale : ℕ → ResMode) where
  built_some : (os : Alternatives) (k : ℕ) → 0 < option_length (build_options stale os k).0
  unfolding build_options option_cons option_append option_length
  built_some (only ns) k = omega arith
  built_some (either ns os) k = omega arith

  -- A chain of options as a rule has them.
  abbrev IsChain : Options → Type 0
  IsChain os = (0 < option_length os) × Distinct os

  built-IsChain : (os : Alternatives) (k : ℕ) → IsChain (build_options stale os k).0
  built-IsChain os k =
      let fresh = options-Fresh stale os k in
      (
        built_some os k,
        uses_options-Distinct (build_options stale os k).0 λ x. ground (arith, fresh.1 x),
      )

  abbrev Chained : Option Rule → Type 0
  Chained none = Unit
  Chained (some r) = IsChain r.options

  rule_chain : (d : Definition) (k : ℕ) → Chained (rule_of (build_rule stale d k).0)
  unfolding build_rule rule_new
  rule_chain (ordinary name os) k = built-IsChain os k
  rule_chain (resource name os) k = built-IsChain os k
  rule_chain (parametrised name p ps os) k = built-IsChain os k

  found_chain : (o : Option Rule) (def : Option Definition) → IsBuilt stale o def → Chained o
  found_chain o none e = subst Chained (sym e) tt
  found_chain o (some d) (k, e) = subst Chained (sym e) (rule_chain d k)

  -- The weights after the first choice among options, where all weighed the same.
  abbrev pub first_weights : Options → ℕ → ℕ → ℕ
  first_weights options chosen x =
      if x == chosen then 3 else (if has options x then 7 else initial_weight)

  first_new :
      (env : Env) (options : Options)
      → IsChain options
      → 4 * option_length options < int_limit
      → select_new env options start_state ≡ (
          let i = (env.random 0 % (4 * option_length options) - 1) / 4 in
          ok (
            option_nth options i,
            record start_state {
              randweight = first_weights options (head_address (option_nth options i));
              randoms = 1;
            },
          ))
  first_new env options (some_option, apart) small =
      let even = total-even options in
      let below : env.random 0 % (4 * option_length options) < 4 * option_length options =
        mod-lt (env.random 0) (omega (arith, some_option)) in
      select_new-walked env options start_state
        ((env.random 0 % (4 * option_length options) - 1) / 4) (ground (arith, below, some_option))
        (rw even (walk-even options (env.random 0 % (4 * option_length options)) below))
        (rw even (omega (arith, some_option))) apart (CanGrow-even options) (rw even small)

  -- Let a rule of a grammar that was read from a file be found, let it have n options, where 4n is
  -- below the limit of an int, and let options be chosen by weight. Then the first choice of the run,
  -- if it is among these options, takes option ((r mod 4n) - 1) / 4 where r is the first random
  -- number (0 - 1 being 0 here), so the first option has five chances in 4n, the last three and any
  -- other four, if there are two or more. It leaves the chosen option the weight 3, the rule's other
  -- options 7 and all others 4.
  pub first_choice :
      (random rand : ℕ → ℕ) (regex : Regex) (raw : Node → Text) (items : List Item) (name : Text)
      (r : Rule) (left right : RuleTree) (f : ℕ) (mode : ResMode)
      → rule_find (read_file stale random rand false regex raw items).env.rules name
        ≡ node r left right
      → 4 * option_length r.options < int_limit
      → select_option
          (read_file stale random rand false regex raw items).env
          f
          r.options
          r.last_choice
          mode
          (read_file stale random rand false regex raw items).state
        ≡ (let i = (random 0 % (4 * option_length r.options) - 1) / 4 in
            ok (
              option_nth r.options i,
              record start_state {
                randweight = first_weights r.options (head_address (option_nth r.options i));
                randoms = 1;
              },
            ))
  unfolding select_option read_file
  first_choice random rand regex raw items name r left right f mode found small =
      let chained =
        found_chain _ (first_definition items name) (rule_find-first stale items name) in
      first_new (read_file stale random rand false regex raw items).env r.options
        (subst (λ t. Chained (rule_of t)) found chained) small
