-- ===== src/Parser.antt =====
-- src/parser.y: the semantic actions, from the parse tree of a grammar file to the grammar that
-- `use_rtn` is called with. yacc does the actions of the parts of a nonterminal before its own,
-- from left to right. Each address, of an option's weight or of a last choice, and each node whose
-- mode is read takes a number from a counter, since `malloc` gives every one its own place.
pub mod Syntax
pub mod Addresses
pub mod Lookup
pub mod Tables
pub mod First
pub mod Output
pub mod Closed
pub mod Checked
use dada_engine.Prelude.{ℕ, ◌+◌, Bool, List, [], ◌∷◌, Option, none, some}
use dada_engine.Prelude.Int.{ℤ, negsuc}
use dada_engine.Text.{Text}
use dada_engine.Variables
use dada_engine.Machine.Expr.{compile_imperatives}
use dada_engine.Ptrlist.{list_append, list_cons}
use dada_engine.Rtn.{
  ResMode, unique, enumerate, pick, Node, Nodes, Options, literal, symbol, mapping, deref,
  var_conddef, var_def, var_ref, code, silence, choice, star, plus, repeat_const, repeat_var, nil,
  cons, end, initial_weight, node_append, option_cons, option_append, RuleTree, null, node,
  rule_new, rule_insert,
}
use dada_engine.Map.{
  Regex, MapOpt, Mapping, new_replace_action, new_subst_action, mapopt_concat, mapopt_cons,
  map_cons,
}
use dada_engine.Transform.{
  TransCmd, TransOpt, Transformation, new_transcmd, new_transopt, new_transformation,
}
use dada_engine.Engine.{Env, Engine}
use dada_engine.Pb.Main.{Parsed}
use dada_engine.Parser.Syntax.{
  Atom, Atoms, Alternatives, quoted, named, named_with, mapped, dereferenced, defaulted, assigned,
  fetched, embedded, silenced, starred, plussed, bracketed, repeated, repeated_by, unique_of,
  enum_of, pick_of, single, followed, only, either, Definition, ordinary, resource, parametrised,
  MapEntry, one_way, substituted, both_ways, Address, everywhere, at_place, from_to, TransEntry,
  Item, rule_item, mapping_item, xform_item,
}

-- `n->mode = …`; the mode of any other node is never read.
unfoldable pub set_mode : ResMode → Node → Node
set_mode mode (symbol m t ps) = symbol mode t ps
set_mode mode (deref m n) = deref mode n
set_mode mode n = n

-- The parameters that were read, and those to come.
unfoldable pub build_params : List Text → List Text → List Text
unfolding list_append list_cons
build_params formal [] = formal
build_params formal (p ∷ ps) = build_params (list_append formal (list_cons p [])) ps

-- `node_cons` leaves the mode as `malloc` gave it: `stale` is what stood there.
module _ (stale : ℕ → ResMode) where
  unfoldable mutual
    unfolding set_mode compile_imperatives node_append option_cons option_append

    pub build_atom : Atom → ℕ → Node × ℕ
    build_atom (quoted t) k = (literal t, k)
    build_atom (named t) k = (symbol (stale k) t nil, k + 1)
    build_atom (named_with t ps) k =
        let (ns, k') = build_atoms ps k in (symbol (stale k') t ns, k' + 1)
    build_atom (mapped a t) k = let (n, k') = build_atom a k in (mapping t n, k')
    build_atom (dereferenced a) k = let (n, k') = build_atom a k in (deref (stale k') n, k' + 1)
    build_atom (defaulted t a) k = let (n, k') = build_atom a k in (var_conddef t n, k')
    build_atom (assigned t a) k = let (n, k') = build_atom a k in (var_def t n, k')
    build_atom (fetched t) k = (var_ref t, k)
    build_atom (embedded is) k = (code (compile_imperatives [] is), k)
    build_atom (silenced a) k = let (n, k') = build_atom a k in (silence n, k')
    build_atom (starred a) k = let (n, k') = build_atom a k in (star n, k')
    build_atom (plussed a) k = let (n, k') = build_atom a k in (plus n, k')
    build_atom (bracketed os) k = let (o, k') = build_options os k in (choice k' o, k' + 1)
    build_atom (repeated a i) k = let (n, k') = build_atom a k in (repeat_const i n, k')
    build_atom (repeated_by a t) k = let (n, k') = build_atom a k in (repeat_var t n, k')
    build_atom (unique_of a) k = let (n, k') = build_atom a k in (set_mode unique n, k')
    build_atom (enum_of a) k = let (n, k') = build_atom a k in (set_mode enumerate n, k')
    build_atom (pick_of i a) k = let (n, k') = build_atom a k in (set_mode pick n, k')

    pub build_atoms : Atoms → ℕ → Nodes × ℕ
    build_atoms (single a) k = let (n, k') = build_atom a k in (cons n nil, k')
    build_atoms (followed before a) k =
        let (ns, k') = build_atoms before k in
        let (n, k'') = build_atom a k' in (node_append ns (cons n nil), k'')

    pub build_options : Alternatives → ℕ → Options × ℕ
    build_options (only atoms) k =
        let (ns, k') = build_atoms atoms k in (option_cons k' ns end, k' + 1)
    build_options (either atoms os) k =
        let (ns, k') = build_atoms atoms k in
        let (rest, k'') = build_options os (k' + 1) in
        (option_append (option_cons k' ns end) rest, k'')

  unfoldable pub build_rule : Definition → ℕ → RuleTree × ℕ
  unfolding build_options build_params rule_new list_cons
  build_rule (ordinary name os) k =
      let (o, k') = build_options os k in (rule_new name o [] k', k' + 1)
  build_rule (resource name os) k =
      let (o, k') = build_options os k in (rule_new name o [] k', k' + 1)
  build_rule (parametrised name p ps os) k =
      let (o, k') = build_options os k in
      (rule_new name o (build_params (list_cons p []) ps) k', k' + 1)

unfoldable pub build_mapopt : MapEntry → List MapOpt
unfolding mapopt_cons new_replace_action new_subst_action
build_mapopt (one_way key out) = mapopt_cons key (new_replace_action out) []
build_mapopt (substituted key from to) = mapopt_cons key (new_subst_action from to) []
build_mapopt (both_ways key out) =
    mapopt_cons key (new_replace_action out) (mapopt_cons out (new_replace_action key) [])

unfoldable pub build_mapopts : List MapOpt → List MapEntry → List MapOpt
unfolding mapopt_concat build_mapopt
build_mapopts opts [] = opts
build_mapopts opts (e ∷ es) = build_mapopts (mapopt_concat opts (build_mapopt e)) es

unfoldable pub build_address : Address → Option (ℤ × ℤ)
build_address everywhere = none
build_address (at_place i) = some (i, i)
build_address (from_to i j) = some (i, j)

unfoldable pub build_transopt : TransEntry → TransOpt
unfolding new_transopt new_transcmd build_address
build_transopt e = new_transopt e.key (new_transcmd (build_address e.addr) e.command e.args ∷ [])

unfoldable pub build_transopts : TransEntry → List TransEntry → List TransOpt
unfolding build_transopt list_cons
build_transopts e [] = list_cons (build_transopt e) []
build_transopts e (e' ∷ es) = list_cons (build_transopt e) (build_transopts e' es)

-- What the actions keep: the counter, the global variables `initial_rule`, `mappings` and
-- `transformations`, and the value of `rules`. The branches of `*initial_rule` are those that it
-- had when it was made; nothing reads them through this pointer.
pub record Reading : Type 0 where
  pub counter : ℕ
  pub initial_rule : RuleTree
  pub rules : RuleTree
  pub mappings : List Mapping
  pub transformations : List Transformation

abbrev pub start_reading : Reading
start_reading = record {
  counter = 0;
  initial_rule = null;
  rules = null;
  mappings = [];
  transformations = [];
}

-- `if(initial_rule==NULL) initial_rule = r;`, which only the action of an ordinary rule does.
unfoldable pub first_initial : RuleTree → Definition → RuleTree → RuleTree
first_initial null (ordinary name os) r = r
first_initial initial d r = initial

module _ (stale : ℕ → ResMode) where
  unfoldable pub read_item : Reading → Item → Reading
  unfolding build_rule first_initial rule_insert map_cons build_mapopts build_mapopt build_transopts
      new_transformation list_cons
  read_item st (rule_item d) =
      let (r, k) = build_rule stale d st.counter in
      record st {
        counter = k;
        initial_rule = first_initial st.initial_rule d r;
        rules = rule_insert st.rules r;
      }
  read_item st (mapping_item name e es) = record st {
    mappings = map_cons name (build_mapopts (build_mapopt e) es) st.mappings;
  }
  read_item st (xform_item name e es) = record st {
    transformations = list_cons (new_transformation name (build_transopts e es)) st.transformations;
  }

  -- `rules`, which is left recursive.
  unfoldable pub read_items : Reading → List Item → Reading
  unfolding read_item
  read_items st [] = st
  read_items st (i ∷ is) = read_items (read_item st i) is

-- The state before anything is resolved: new options weigh the same, and no choice was made.
abbrev pub start_state : Engine
start_state = record {
  vars = Variables.null;
  stack = [];
  randweight = λ o. initial_weight;
  last_choice = λ o. negsuc 0;
  randoms = 0;
  rands = 0;
}

-- `input`: what `use_rtn` is called with. The random numbers, the regular expressions and the switch
-- -p are no business of the parser.
unfoldable pub read_file :
    (ℕ → ResMode) → (ℕ → ℕ) → (ℕ → ℕ) → Bool → Regex → (Node → Text) → List Item → Parsed
unfolding read_items
read_file stale random rand old regex raw items =
    let st = read_items stale start_reading items in
    record {
      env = record {
        random = random;
        rand = rand;
        rules = st.rules;
        mappings = st.mappings;
        transformations = st.transformations;
        old_probability = old;
        regex = regex;
        raw = raw;
      };
      initial_rule = st.initial_rule;
      state = start_state;
    }
