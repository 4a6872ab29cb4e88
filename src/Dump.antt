-- ===== src/Dump.antt =====
-- src/dump.c and `dump_code` of src/machine.c: the grammar printed for debugging. What is printed is
-- the result; a read past the end of a table and a NULL that is followed are faults.
pub mod Code
use dada_engine.Prelude.{
  ℕ, List, [], ◌∷◌, ◌++◌, Option, none, some, Outcome, ok, fault, get_elem?, length, ltb,
  if◌then◌else◌,
}
use dada_engine.Prelude.Ends.{◌>>=◌}
use dada_engine.Prelude.Int.{pos}
use dada_engine.Text.{Text, codes}
use dada_engine.Text.Decimal.{print_int}
use dada_engine.Variables.{Value, int, str}
use dada_engine.Instr.{
  Instr, set, pushv, invoke, push, add, sub, mul, div, emit, modulo, random, lesser, greater,
}
use dada_engine.Rtn.{
  Node, Nodes, Options, literal, symbol, mapping, deref, var_conddef, var_def, code, nil, cons, end,
  option, option_length, Rule, RuleTree, rule_inorder_traverse,
}
use dada_engine.Map.{MapAction, MapOpt, Mapping, replace, subst}
use dada_engine.Transform.{TransCmd, TransOpt, Transformation}

-- The number of an opcode in `enum opcode`.
abbrev pub opcode : Instr → ℕ
opcode (set name) = 0
opcode (pushv name) = 1
opcode (push v) = 2
opcode add = 3
opcode sub = 4
opcode mul = 5
opcode div = 6
opcode emit = 7
opcode (invoke name) = 8
opcode modulo = 9
opcode random = 10
opcode lesser = 11
opcode greater = 12

abbrev pub opname : List Text
opname =
    codes "SET"
    ∷ codes "PUSHV"
    ∷ codes "PUSH"
    ∷ codes "ADD"
    ∷ codes "SUB"
    ∷ codes "MUL"
    ∷ codes "DIV"
    ∷ codes "EMIT"
    ∷ codes "INVOKE"
    ∷ []

-- `"%s"` between quotes.
abbrev pub quoted : Text → Text
quoted t = b'"' ∷ (t ++ b'"' ∷ [])

-- The operand and the end of the line. Most instructions have none: type `mu`.
unfoldable pub dump_operand : Instr → Outcome Text
dump_operand (set name) = ok (quoted name ++ 10 ∷ [])
dump_operand (pushv name) = ok (quoted name ++ 10 ∷ [])
dump_operand (invoke name) = ok (quoted name ++ 10 ∷ [])
dump_operand (push (int i)) = ok (print_int i ++ 10 ∷ [])
dump_operand (push (str none)) = fault
dump_operand (push (str (some t))) = ok (quoted t ++ 10 ∷ [])
dump_operand i = ok (10 ∷ [])

unfoldable pub dump_instr : Instr → Outcome Text
unfolding dump_operand
dump_instr i = elim (get_elem? opname (opcode i)) [
  | none ↦ fault
  | some name ↦ dump_operand i >>= λ operand. ok (name ++ (b' ' ∷ operand))
]

unfoldable pub dump_code : List Instr → Outcome Text
unfolding dump_instr
dump_code [] = ok []
dump_code (i ∷ next) = dump_instr i >>= λ line. dump_code next >>= λ rest. ok (line ++ rest)

-- A node of another type prints nothing.
unfoldable mutual
  unfolding dump_code

  pub dump_node : Node → Outcome Text
  dump_node (literal t) = ok (quoted t)
  dump_node (symbol mode t nil) = ok (b'{' ∷ (t ++ b'}' ∷ []))
  dump_node (symbol mode t (cons param next)) =
      dump_atoms (cons param next) >>= λ ps. ok (b'{' ∷ (t ++ (b'(' ∷ (ps ++ codes ")}"))))
  dump_node (mapping t n) = dump_node n >>= λ x. ok (x ++ (codes " > " ++ t))
  dump_node (deref mode n) = dump_node n >>= λ x. ok (codes "DEREF(" ++ (x ++ b')' ∷ []))
  dump_node (var_conddef t n) = dump_node n >>= λ x. ok (t ++ (codes " << " ++ x))
  dump_node (var_def t n) = dump_node n >>= λ x. ok (t ++ (codes " = " ++ x))
  dump_node (code is) = dump_code is >>= λ x. ok (codes "code:" ++ x)
  dump_node _ = ok []

  -- `node_map` of `node_iterator`
  pub dump_atoms : Nodes → Outcome Text
  dump_atoms nil = ok []
  dump_atoms (cons n next) =
      dump_node n >>= λ x. dump_atoms next >>= λ rest. ok (x ++ (codes ", " ++ rest))

-- `option_map` of `option_iter`
unfoldable pub dump_options : Options → Outcome Text
unfolding dump_node
dump_options end = ok []
dump_options (option o atoms next) =
    dump_atoms atoms >>= λ x. dump_options next >>= λ rest. ok (9 ∷ 9 ∷ (x ++ (10 ∷ rest)))

unfoldable pub dump_params : List Text → Text
dump_params [] = []
dump_params (p ∷ next) = p ++ (b' ' ∷ dump_params next)

abbrev param_list : List Text → Text
param_list [] = []
param_list (p ∷ next) = codes " ( " ++ (dump_params (p ∷ next) ++ b')' ∷ [])

unfoldable pub rule_iter : Rule → Outcome Text
unfolding dump_options dump_params
rule_iter r = dump_options r.options >>= λ options. ok (
    r.symbol
    ++ (param_list r.params
        ++ (codes " : ("
            ++ (print_int (pos (option_length r.options))
                ++ (codes " options)" ++ (10 ∷ options))))))

unfoldable pub dump_rules : RuleTree → Outcome Text
unfolding rule_iter
dump_rules rules =
    rule_inorder_traverse rules
      (λ r printed. printed >>= λ before. rule_iter r >>= λ x. ok (before ++ x)) (ok [])

unfoldable pub dump_mapopt : MapOpt → Text
dump_mapopt opt =
    codes "    "
    ++ (quoted opt.key
        ++ (b' ' ∷ elim opt.action [
          | replace out ↦ codes "-> " ++ (quoted out ++ 10 ∷ [])
          | subst key out ↦ codes ">> " ++ (quoted key ++ (b'/' ∷ (quoted out ++ 10 ∷ [])))
        ]))

unfoldable pub dump_mapopts : List MapOpt → Text
unfolding dump_mapopt
dump_mapopts [] = []
dump_mapopts (o ∷ next) = dump_mapopt o ++ dump_mapopts next

unfoldable pub dump_mapping : Mapping → Text
unfolding dump_mapopts
dump_mapping m = m.name ++ (codes " : " ++ (10 ∷ dump_mapopts m.options))

unfoldable pub dump_mappings : List Mapping → Text
unfolding dump_mapping
dump_mappings [] = []
dump_mappings (m ∷ next) = dump_mapping m ++ dump_mappings next

unfoldable pub print_params : List Text → Text
print_params [] = []
print_params (p ∷ next) = b'/' ∷ (p ++ print_params next)

-- Of an option's commands only the first is printed, without its addresses. A name that fills the
-- three places of `cmdname` has no NUL after it, since the fourth is never written.
unfoldable pub dump_transcmd : List TransCmd → Outcome Text
unfolding print_params
dump_transcmd [] = fault
dump_transcmd (cmd ∷ next) =
    let printed = ok (cmd.cmdname ++ print_params cmd.params) in
    if ltb (length cmd.cmdname) 3 then printed else fault

unfoldable pub dump_transopts : List TransOpt → Outcome Text
unfolding dump_transcmd
dump_transopts [] = ok []
dump_transopts (opt ∷ next) = dump_transcmd opt.cmds >>= λ x. dump_transopts next >>= λ rest.
    ok (b' ' ∷ (quoted opt.key ++ (codes " -> " ++ (x ++ (10 ∷ rest)))))

unfoldable pub dump_transformations : List Transformation → Outcome Text
unfolding dump_transopts
dump_transformations [] = ok []
dump_transformations (x ∷ next) = dump_transopts x.options >>= λ options.
    dump_transformations next >>= λ rest.
    ok (codes "transformation: " ++ (quoted x.name ++ (10 ∷ (options ++ rest))))
