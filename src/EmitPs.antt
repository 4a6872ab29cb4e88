-- ===== src/EmitPs.antt =====
-- src/emit_ps.c: a grammar written as a PostScript program. What is written to the file is the
-- result. The mappings and transformations that `emit_ps` is given are not looked at.
pub mod Brackets
pub mod Balanced
use dada_engine.Prelude.{List, [], ◌∷◌, ◌++◌}
use dada_engine.Text.{Text, codes}
use dada_engine.Text.Decimal.{print_int}
use dada_engine.Rtn.{
  Node, Nodes, Options, literal, symbol, mapping, deref, var_conddef, var_def, var_ref, code,
  silence, choice, star, plus, repeat_const, repeat_var, nil, cons, end, option, Rule, RuleTree,
  rule_inorder_traverse,
}

-- A piece of text and what was printed after it.
abbrev line : Text → Text → Text
line t rest = t ++ (10 ∷ rest)

unfoldable mutual
  pub ps_node : Node → Text
  ps_node (literal t) = b'(' ∷ (t ++ b')' ∷ [])
  ps_node (symbol mode t ps) = b'{' ∷ (t ++ b'}' ∷ [])
  ps_node (mapping t n) = ps_node n ++ (b' ' ∷ (t ++ codes "-map"))
  ps_node (deref mode n) = ps_node n ++ codes " cvx exec"
  ps_node (var_conddef t n) = b'/' ∷ (t ++ (b' ' ∷ (ps_node n ++ codes " exec conddef")))
  ps_node (var_def t n) = b'/' ∷ (t ++ (b' ' ∷ (ps_node n ++ codes " exec def")))
  ps_node (var_ref t) = t
  ps_node (code is) = []
  ps_node (silence n) = ps_node n ++ codes " pop"
  ps_node (choice at options) = line (codes "[") (ps_options options ++ line (codes "] choose") [])
  ps_node (star n) = ps_node n ++ codes " star"
  ps_node (plus n) = ps_node n ++ codes " plus"
  ps_node (repeat_const i n) = ps_node n ++ (b' ' ∷ (print_int i ++ codes " rep"))
  ps_node (repeat_var t n) = []

  -- `node_map` of `ps_node_iterator`
  pub ps_nodes : Nodes → Text
  ps_nodes nil = []
  ps_nodes (cons n next) = ps_node n ++ ps_nodes next

  -- `option_map` of `ps_option_iterator`
  pub ps_options : Options → Text
  ps_options end = []
  ps_options (option o atoms next) =
      line (codes "[")
        (ps_nodes atoms ++ (line (codes "] {exec outputstring} forall") [] ++ ps_options next))

unfoldable pub ps_rule : Rule → Text
unfolding ps_node
ps_rule r =
    b'/'
    ∷ (r.symbol ++ line (codes "{[") (ps_options r.options ++ line (codes "]choose}bind def") []))

abbrev pub prologue : Text
prologue =
    line (codes "%% modify these as desired")
      (line (codes "/outputstring { % emit a string on the stack") (line (codes "} def") (10 ∷ [])))

unfoldable pub emit_ps : RuleTree → Text → Text
unfolding ps_rule
emit_ps rules start_sym =
    prologue
    ++ (rule_inorder_traverse rules (λ r printed. printed ++ ps_rule r) [] ++ line start_sym [])
