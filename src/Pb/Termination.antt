-- ===== src/Pb/Termination.antt =====
-- src/pb.c: how much fuel is enough for the whole program.
use mathlib.Core.Path.{subst}
use dada_engine.Prelude.{
  ℕ, zero, suc, ◌≡◌, ◌≢◌, sym, inl, inr, false, List, [], ◌∷◌, ◌++◌, Option, none, some, Outcome,
  ok, fault, timeout, length, ltb, get_elem?, if◌then◌else◌, ◌==◌,
}
use dada_engine.Prelude.Int.{pos}
use dada_engine.Text.{Text}
use dada_engine.Variables.{int, str}
use dada_engine.Instr.{Instr, push}
use dada_engine.Rtn.{
  Node, Nodes, Options, literal, symbol, mapping, deref, var_conddef, var_def, code, nil, cons, end,
  option, RuleTree, null, node, rule_inorder_traverse,
}
use dada_engine.Transform.{TransCmd, TransOpt, Transformation}
use dada_engine.Engine.{Env, Engine}
use dada_engine.Check.{check_rtn}
use dada_engine.Prelude.Ends.{◌>>=◌}
use dada_engine.Pb.Output.{start_rule-initial}
use dada_engine.Check.Defined.{check_rtn_lem}
use dada_engine.Resolve.{resolve_rule}
use dada_engine.Wrap.{print_wrapped}
use dada_engine.Wrap.Correct.{print_wrapped_lem}
use dada_engine.Resolve.Lasts.{
  Lasts, lasts_ok, lasts_exited, lasts_fault, bind-Lasts, if-Lasts, Lasts-ne-timeout,
  ne-timeout-Lasts,
}
use dada_engine.Map.Subst.{MatchesInside}
use dada_engine.Resolve.Termination.Depth.{ShallowRule}
use dada_engine.Resolve.Termination.{resolve_rule_terminates}
use dada_engine.Dump.{
  dump_operand, dump_instr, dump_code, dump_node, dump_atoms, dump_options, rule_iter, dump_rules,
  dump_transcmd, dump_transopts, dump_transformations, opname, opcode,
}
use dada_engine.Pb.{Settings, rtn_dump, start_rule, print_result, use_grammar, use_rtn}

dump_operand-Lasts : (i : Instr) → Lasts (dump_operand i)
unfolding dump_operand
dump_operand-Lasts (push (int i)) = lasts_ok
dump_operand-Lasts (push (str none)) = lasts_fault
dump_operand-Lasts (push (str (some t))) = lasts_ok
dump_operand-Lasts i = lasts_ok

found-Lasts :
    (o : Option Text) (f : Text → Outcome Text)
    → ((t : Text) → Lasts (f t))
    → Lasts (elim o [ none ↦ fault | some t ↦ f t ])
found-Lasts none f h = lasts_fault
found-Lasts (some t) f h = h t

dump_code-Lasts : (is : List Instr) → Lasts (dump_code is)
unfolding dump_code dump_instr
dump_code-Lasts [] = lasts_ok
dump_code-Lasts (i ∷ is) =
    bind-Lasts
      (found-Lasts (get_elem? opname (opcode i)) _
        λ name. bind-Lasts (dump_operand-Lasts i) λ x. lasts_ok)
      λ x. bind-Lasts (dump_code-Lasts is) λ rest. lasts_ok

mutual
  unfolding dump_node

  dump_node-Lasts : (n : Node) → Lasts (dump_node n)
  dump_node-Lasts (literal t) = lasts_ok
  dump_node-Lasts (symbol mode t nil) = lasts_ok
  dump_node-Lasts (symbol mode t (cons n ns)) =
      bind-Lasts (dump_atoms-Lasts (cons n ns)) λ x. lasts_ok
  dump_node-Lasts (mapping t n) = bind-Lasts (dump_node-Lasts n) λ x. lasts_ok
  dump_node-Lasts (deref mode n) = bind-Lasts (dump_node-Lasts n) λ x. lasts_ok
  dump_node-Lasts (var_conddef t n) = bind-Lasts (dump_node-Lasts n) λ x. lasts_ok
  dump_node-Lasts (var_def t n) = bind-Lasts (dump_node-Lasts n) λ x. lasts_ok
  dump_node-Lasts (code is) = bind-Lasts (dump_code-Lasts is) λ x. lasts_ok
  dump_node-Lasts n = lasts_ok

  dump_atoms-Lasts : (ns : Nodes) → Lasts (dump_atoms ns)
  dump_atoms-Lasts nil = lasts_ok
  dump_atoms-Lasts (cons n next) =
      bind-Lasts (dump_node-Lasts n) λ x. bind-Lasts (dump_atoms-Lasts next) λ rest. lasts_ok

dump_options-Lasts : (o : Options) → Lasts (dump_options o)
unfolding dump_options
dump_options-Lasts end = lasts_ok
dump_options-Lasts (option o atoms next) =
    bind-Lasts (dump_atoms-Lasts atoms) λ x. bind-Lasts (dump_options-Lasts next) λ rest. lasts_ok

rules-Lasts :
    (rules : RuleTree) (before : Outcome Text)
    → Lasts before
    → Lasts (
        rule_inorder_traverse rules
          (λ r printed. printed >>= λ b. rule_iter r >>= λ x. ok (b ++ x))
          before)
unfolding rule_inorder_traverse rule_iter
rules-Lasts null before h = h
rules-Lasts (node r left right) before h = rules-Lasts right _ (
    bind-Lasts (rules-Lasts left before h)
      λ b. bind-Lasts (bind-Lasts (dump_options-Lasts r.options) λ x. lasts_ok) λ x. lasts_ok)

dump_transcmd-Lasts : (cmds : List TransCmd) → Lasts (dump_transcmd cmds)
unfolding dump_transcmd
dump_transcmd-Lasts [] = lasts_fault
dump_transcmd-Lasts (cmd ∷ next) = if-Lasts (ltb (length cmd.cmdname) 3) lasts_ok lasts_fault

dump_transopts-Lasts : (opts : List TransOpt) → Lasts (dump_transopts opts)
unfolding dump_transopts
dump_transopts-Lasts [] = lasts_ok
dump_transopts-Lasts (opt ∷ next) =
    bind-Lasts (dump_transcmd-Lasts opt.cmds)
      λ x. bind-Lasts (dump_transopts-Lasts next) λ rest. lasts_ok

dump_transformations-Lasts : (xs : List Transformation) → Lasts (dump_transformations xs)
unfolding dump_transformations
dump_transformations-Lasts [] = lasts_ok
dump_transformations-Lasts (x ∷ next) =
    bind-Lasts (dump_transopts-Lasts x.options)
      λ y. bind-Lasts (dump_transformations-Lasts next) λ rest. lasts_ok

rtn_dump-Lasts : (st : Settings) (env : Env) → Lasts (rtn_dump st env)
unfolding rtn_dump dump_rules
rtn_dump-Lasts st env =
    if-Lasts st.dump_rtn
      (bind-Lasts (rules-Lasts env.rules (ok []) lasts_ok)
        λ rules. bind-Lasts (dump_transformations-Lasts env.transformations) λ xforms. lasts_ok)
      lasts_ok

check_rtn-Lasts : (env : Env) → Lasts (check_rtn env)
check_rtn-Lasts env = elim (check_rtn_lem env) [
  | inl (e, all) ↦ subst Lasts (sym e) lasts_ok
  | inr (e, undefined) ↦ subst Lasts (sym e) lasts_exited
]

ok-Lasts :
    {A B : Type 0} {o : Outcome A} (a : A) (f : A → Outcome B)
    → o ≡ ok a
    → Lasts (f a)
    → Lasts (o >>= f)
ok-Lasts a f e h = subst (λ o. Lasts (o >>= f)) (sym e) h

print_result-Lasts : (cols : ℕ) (t : Option Text) → Lasts (print_result (pos cols) t)
unfolding print_result print_wrapped
print_result-Lasts zero none = lasts_fault
print_result-Lasts zero (some t) = lasts_ok
print_result-Lasts (suc cols) none = if-Lasts (suc cols == 0) lasts_fault lasts_fault
print_result-Lasts (suc cols) (some t) =
    let (out, e, h, fits) = print_wrapped_lem (suc cols) t in
    if-Lasts (suc cols == 0) lasts_ok (ok-Lasts out _ e lasts_ok)

-- Let options be chosen by weight, let `regexec` give places inside of the text, let no start symbol
-- be named on the command line, let the width not be negative, and let the initial rule be resolved
-- within `k` calls. Then the program, run with fuel `k`, comes to an end: it prints, exits or faults.
pub use_rtn_terminates :
    (st : Settings) (env : Env) (k cols : ℕ) (initial : RuleTree) (s : Engine)
    → env.old_probability ≡ false
    → ((from : Text) → MatchesInside env.regex from)
    → st.start_symbol ≡ none
    → st.wrapwidth ≡ pos cols
    → ShallowRule env k initial
    → use_rtn st env k initial s ≢ timeout
unfolding use_rtn use_grammar start_rule
use_rtn_terminates st env k cols initial s odds inside start width shallow =
    Lasts-ne-timeout (loaded env.rules)
  where
    result : Lasts (
        if st.inhibit
        then ok []
        else resolve_rule env k initial s >>= λ r. print_result st.wrapwidth r.0)
    result = if-Lasts st.inhibit lasts_ok (
        bind-Lasts (ne-timeout-Lasts (resolve_rule_terminates env odds inside k initial s shallow))
          λ r. subst (λ w. Lasts (print_result w r.0)) (sym width) (print_result-Lasts cols r.0))

    used : Lasts (use_grammar st env k initial s)
    used = bind-Lasts (rtn_dump-Lasts st env) λ d. bind-Lasts (check_rtn-Lasts env) λ u.
        ok-Lasts initial _ (start_rule-initial st env initial start)
          (bind-Lasts result λ out. lasts_ok)

    loaded :
        (rules : RuleTree)
        → Lasts {A = Text × Text}
            (elim rules [ null ↦ ok ([], []) | node r left right ↦ use_grammar st env k initial s ])
    loaded null = lasts_ok
    loaded (node r left right) = used
