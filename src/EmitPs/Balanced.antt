-- ===== src/EmitPs/Balanced.antt =====
-- src/emit_ps.c: the brackets of the program that is written.
use mathlib.Core.List.{append_assoc}
use mathlib.Core.Path.{subst}
use dada_engine.Prelude.{◌≡◌, refl, ◌∙◌, some, [], ◌∷◌, ◌++◌}
use dada_engine.Text.{Text, codes}
use dada_engine.Text.Decimal.{print_int}
use dada_engine.Rtn.{
  Node, Nodes, Options, literal, symbol, mapping, deref, var_conddef, var_def, var_ref, code,
  silence, choice, star, plus, repeat_const, repeat_var, nil, cons, end, option, Rule, RuleTree,
  null, node, rule_inorder_traverse,
}
use dada_engine.EmitPs.Brackets.{
  open_after, NoSpecials, Balanced, Balanced-append, Balanced-cons, Balanced-enclosed,
  clean-Balanced, clean-print_int, Balanced-suffix, Balanced-named,
}
use dada_engine.EmitPs.{ps_node, ps_nodes, ps_options, ps_rule, emit_ps}

-- No literal and no name in the node has a bracket or another special character in it.
unfoldable mutual
  pub CleanNode : Node → Type 0
  CleanNode (literal t) = NoSpecials t
  CleanNode (symbol mode t ps) = NoSpecials t
  CleanNode (mapping t n) = NoSpecials t × CleanNode n
  CleanNode (deref mode n) = CleanNode n
  CleanNode (var_conddef t n) = NoSpecials t × CleanNode n
  CleanNode (var_def t n) = NoSpecials t × CleanNode n
  CleanNode (var_ref t) = NoSpecials t
  CleanNode (code is) = Unit
  CleanNode (silence n) = CleanNode n
  CleanNode (choice at options) = CleanOptions options
  CleanNode (star n) = CleanNode n
  CleanNode (plus n) = CleanNode n
  CleanNode (repeat_const i n) = CleanNode n
  CleanNode (repeat_var t n) = Unit

  pub CleanNodes : Nodes → Type 0
  CleanNodes nil = Unit
  CleanNodes (cons n next) = CleanNode n × CleanNodes next

  pub CleanOptions : Options → Type 0
  CleanOptions end = Unit
  CleanOptions (option o atoms next) = CleanNodes atoms × CleanOptions next

abbrev pub CleanRules : RuleTree → Type 0
CleanRules null = Unit
CleanRules (node r left right) =
    NoSpecials r.symbol × CleanOptions r.options × CleanRules left × CleanRules right

mutual
  unfolding ps_node CleanNode

  ps_node-Balanced : (n : Node) → CleanNode n → Balanced (ps_node n)
  ps_node-Balanced (literal t) h =
      Balanced-enclosed b'(' t [] refl (clean-Balanced t h) λ stack rest. refl
  ps_node-Balanced (symbol mode t ps) h =
      Balanced-enclosed b'{' t [] refl (clean-Balanced t h) λ stack rest. refl
  ps_node-Balanced (mapping t n) h =
      Balanced-append (ps_node n) (b' ' ∷ (t ++ codes "-map")) (ps_node-Balanced n h.1) (
        Balanced-cons b' ' (t ++ codes "-map") refl refl
          (Balanced-suffix t (codes "-map") (clean-Balanced t h.0) refl))
  ps_node-Balanced (deref mode n) h =
      Balanced-suffix (ps_node n) (codes " cvx exec") (ps_node-Balanced n h) refl
  ps_node-Balanced (var_conddef t n) h =
      Balanced-named t (ps_node n ++ codes " exec conddef") h.0
        (Balanced-suffix (ps_node n) (codes " exec conddef") (ps_node-Balanced n h.1) refl)
  ps_node-Balanced (var_def t n) h =
      Balanced-named t (ps_node n ++ codes " exec def") h.0
        (Balanced-suffix (ps_node n) (codes " exec def") (ps_node-Balanced n h.1) refl)
  ps_node-Balanced (var_ref t) h = clean-Balanced t h
  ps_node-Balanced (code is) h = λ stack rest. refl
  ps_node-Balanced (silence n) h =
      Balanced-suffix (ps_node n) (codes " pop") (ps_node-Balanced n h) refl
  ps_node-Balanced (choice at options) h =
      Balanced-enclosed b'[' (10 ∷ ps_options options) (codes " choose" ++ 10 ∷ []) refl
        (Balanced-cons 10 (ps_options options) refl refl (ps_options-Balanced options h))
        (clean-Balanced (codes " choose" ++ 10 ∷ []) refl)
  ps_node-Balanced (star n) h =
      Balanced-suffix (ps_node n) (codes " star") (ps_node-Balanced n h) refl
  ps_node-Balanced (plus n) h =
      Balanced-suffix (ps_node n) (codes " plus") (ps_node-Balanced n h) refl
  ps_node-Balanced (repeat_const i n) h =
      Balanced-append (ps_node n) (b' ' ∷ (print_int i ++ codes " rep")) (ps_node-Balanced n h) (
        Balanced-cons b' ' (print_int i ++ codes " rep") refl refl (
          Balanced-suffix (print_int i) (codes " rep")
            (clean-Balanced (print_int i) (clean-print_int i)) refl))
  ps_node-Balanced (repeat_var t n) h = λ stack rest. refl

  ps_nodes-Balanced : (ns : Nodes) → CleanNodes ns → Balanced (ps_nodes ns)
  ps_nodes-Balanced nil h = λ stack rest. refl
  ps_nodes-Balanced (cons n next) h =
      Balanced-append (ps_node n) (ps_nodes next) (ps_node-Balanced n h.0)
        (ps_nodes-Balanced next h.1)

  ps_options-Balanced : (options : Options) → CleanOptions options → Balanced (ps_options options)
  ps_options-Balanced end h = λ stack rest. refl
  ps_options-Balanced (option o atoms next) h =
      Balanced-enclosed b'[' (10 ∷ ps_nodes atoms)
        (codes " {exec outputstring} forall" ++ (10 ∷ ps_options next)) refl
        (Balanced-cons 10 (ps_nodes atoms) refl refl (ps_nodes-Balanced atoms h.0))
        (Balanced-cons b' ' (codes "{exec outputstring} forall" ++ (10 ∷ ps_options next)) refl refl
          (Balanced-enclosed b'{' (codes "exec outputstring")
            (codes " forall" ++ (10 ∷ ps_options next)) refl
            (clean-Balanced (codes "exec outputstring") refl)
            (Balanced-append (codes " forall" ++ 10 ∷ []) (ps_options next)
              (clean-Balanced (codes " forall" ++ 10 ∷ []) refl) (ps_options-Balanced next h.1))))

-- What follows a rule's name.
abbrev body : Options → Text
body options = codes "{[" ++ (10 ∷ (ps_options options ++ (codes "]choose}bind def" ++ 10 ∷ [])))

body-Balanced : (options : Options) → CleanOptions options → Balanced (body options)
body-Balanced options h =
    let choices = b'[' ∷ ((10 ∷ ps_options options) ++ codes "]choose") in
    let after = codes "}bind def" ++ 10 ∷ [] in
    subst (λ t. Balanced (b'{' ∷ b'[' ∷ 10 ∷ t))
      (append_assoc (ps_options options) (codes "]choose") after)
      (Balanced-enclosed b'{' choices (codes "bind def" ++ 10 ∷ []) refl
        (Balanced-enclosed b'[' (10 ∷ ps_options options) (codes "choose") refl
          (Balanced-cons 10 (ps_options options) refl refl (ps_options-Balanced options h))
          (clean-Balanced (codes "choose") refl))
        (clean-Balanced (codes "bind def" ++ 10 ∷ []) refl))

ps_rule-Balanced : (r : Rule) → NoSpecials r.symbol → CleanOptions r.options → Balanced (ps_rule r)
unfolding ps_rule
ps_rule-Balanced r h k = Balanced-cons b'/' (r.symbol ++ body r.options) refl refl (
    Balanced-append r.symbol (body r.options) (clean-Balanced r.symbol h)
      (body-Balanced r.options k))

ps_rules-Balanced :
    (rules : RuleTree) (before : Text)
    → CleanRules rules
    → Balanced before
    → Balanced (rule_inorder_traverse rules (λ r printed. printed ++ ps_rule r) before)
unfolding rule_inorder_traverse
ps_rules-Balanced null before h b = b
ps_rules-Balanced (node r left right) before h b = ps_rules-Balanced right _ h.3 (
    Balanced-append _ (ps_rule r) (ps_rules-Balanced left before h.2 b)
      (ps_rule-Balanced r h.0 h.1))

-- If no literal and no name of the grammar has a bracket, a backslash, `%`, `<` or `>` in it, then
-- every bracket of the PostScript program is closed by its partner, in the right order.
pub emit_ps-open_after :
    (rules : RuleTree) (start_sym : Text)
    → CleanRules rules
    → NoSpecials start_sym
    → open_after [] (emit_ps rules start_sym) ≡ some []
unfolding emit_ps open_after
emit_ps-open_after rules start_sym h k =
    ps_rules-Balanced rules [] h (λ stack rest. refl) [] (start_sym ++ 10 ∷ [])
    ∙ clean-Balanced start_sym k [] (10 ∷ [])
