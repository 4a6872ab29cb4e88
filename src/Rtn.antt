-- ===== src/Rtn.antt =====
-- src/rtn.h and src/rtn.c: the recursive transition network, that is, the grammar.
-- A node is a tagged union: each node type is a constructor with the fields that it uses. A node's
-- `next` chain is `Nodes`; a pointer to an option is the chain of options from there on, and NULL
-- is `end`. The engine changes `randweight` of an option and `last_choice` of an inline choice or a
-- rule while it runs: the grammar holds the address of each such field, and the store of the engine
-- its contents.
pub mod Rules
use dada_engine.Prelude.{
  ℕ, zero, suc, ◌+◌, List, Bool, true, false, Outcome, ok, exited, fault, timeout, Ordering,
  if◌then◌else◌,
}
use dada_engine.Prelude.Ends.{◌>>=◌}
use dada_engine.Prelude.Int.{ℤ, pos, ◌+ℤ◌, ◌-ℤ◌, eqb_ℤ}
use dada_engine.Text.{Text, strcmp, str_eq}
use dada_engine.Ptrlist.{list_indexof}
use dada_engine.Instr.{Instr}

pub data ResMode : Type 0 where
  plain unique enumerate pick : ResMode

mutual
  pub data Node : Type 0 where
    literal : Text → Node
    symbol : ResMode → Text → Nodes → Node
    mapping : Text → Node → Node
    deref : ResMode → Node → Node
    var_conddef var_def : Text → Node → Node
    var_ref : Text → Node
    code : List Instr → Node
    silence : Node → Node
    choice : ℕ → Options → Node
    star plus : Node → Node
    repeat_const : ℤ → Node → Node
    repeat_var : Text → Node → Node

  pub data Nodes : Type 0 where
    nil : Nodes
    cons : Node → Nodes → Nodes

  pub data Options : Type 0 where
    end : Options
    option : ℕ → Nodes → Options → Options

unfoldable pub node_append : Nodes → Nodes → Nodes
node_append nil b = b
node_append (cons n a) b = cons n (node_append a b)

-- The iterator changes a state of the caller's, and may fail.
unfoldable pub node_map {ℓ} : {S : Type ℓ} → Nodes → (Node → S → Outcome S) → S → Outcome S
node_map nil iter s = ok s
node_map (cons n next) iter s = iter n s >>= node_map next iter

-- The weight that a new option starts with is the store's at its address: `initial_weight`.
unfoldable pub option_cons : ℕ → Nodes → Options → Options
option_cons address car cdr = option address car cdr

abbrev pub initial_weight : ℕ
initial_weight = 4

unfoldable pub option_append : Options → Options → Options
option_append end b = b
option_append (option x n a) b = option x n (option_append a b)

unfoldable pub option_map {ℓ} : {S : Type ℓ} → Options → (ℕ → S → Outcome S) → S → Outcome S
option_map end iter s = ok s
option_map (option x n next) iter s = iter x s >>= option_map next iter

unfoldable pub option_length : Options → ℕ
option_length end = 0
option_length (option x n next) = option_length next + 1

unfoldable pub option_nth : Options → ℕ → Options
option_nth end index = end
option_nth (option x n next) zero = option x n next
option_nth (option x n next) (suc index) = option_nth next index

unfoldable pub param_indexof : List Text → Text → ℤ
unfolding list_indexof
param_indexof list nm = list_indexof list (λ data'. str_eq data' nm)

-- A rule without its branches; `last_choice` is an address.
pub record Rule : Type 0 where
  pub symbol : Text
  pub options : Options
  pub params : List Text
  pub last_choice : ℕ

-- `pRule`
pub data RuleTree : Type 0 where
  null : RuleTree
  node : Rule → RuleTree → RuleTree → RuleTree

unfoldable pub rule_new : Text → Options → List Text → ℕ → RuleTree
rule_new name options params last =
    node (record { symbol = name; options = options; params = params; last_choice = last }) null
      null

unfoldable pub rule_insert : RuleTree → RuleTree → RuleTree
rule_insert null newrule = newrule
rule_insert (node r left right) null = node r left right
rule_insert (node r left right) (node s a b) = elim (strcmp s.symbol r.symbol) [
  | Ordering.gt ↦ node r left (rule_insert right (node s a b))
  | _ ↦ node r (rule_insert left (node s a b)) right
]

unfoldable pub rule_find : RuleTree → Text → RuleTree
rule_find null name = null
rule_find (node r left right) name = elim (strcmp name r.symbol) [
  | Ordering.eq ↦ node r left right
  | Ordering.lt ↦ rule_find left name
  | Ordering.gt ↦ rule_find right name
]

unfoldable pub rule_inorder_traverse {ℓ} : {S : Type ℓ} → RuleTree → (Rule → S → S) → S → S
rule_inorder_traverse null iter s = s
rule_inorder_traverse (node r left right) iter s =
    rule_inorder_traverse right iter (iter r (rule_inorder_traverse left iter s))
