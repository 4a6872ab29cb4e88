-- ===== src/Check/Defined.antt =====
-- src/check.c: which names are looked for.
use dada_engine.Prelude.{
  ℕ, zero, suc, ◌+◌, ◌≤◌, ◌≡◌, ◌⊎◌, refl, ap, ◌∙◌, inl, inr, Bool, true, false, Bool-cases, Outcome,
  ok, exited, arith,
}
use dada_engine.Prelude.Ends
use dada_engine.Rtn.{
  Node, Nodes, Options, symbol, mapping, nil, cons, end, option, node_map, Rule, RuleTree, null,
  node, rule_inorder_traverse,
}
use dada_engine.Engine.{Env}
use dada_engine.Check.{
  is_formal, no_rule, no_mapping, count, undef_iter2, undef_iter1, undef_iter0, check_for_undefined,
  check_rtn,
}

-- The count goes up from `e`, and stays there exactly if `P` holds.
abbrev Counts : Outcome ℕ → ℕ → Type 0 → Type 0
Counts o e P = (e' : ℕ) × (o ≡ ok e') × (e ≤ e') × (e' ≡ e → P) × (P → e' ≡ e)

Counts-bind :
    {P Q : Type 0} {o : Outcome ℕ} {e : ℕ} (f : ℕ → Outcome ℕ)
    → Counts o e P
    → ((d : ℕ) → Counts (f d) d Q)
    → Counts (Ends.◌>>=◌ o f) e (P × Q)
Counts-bind f (d, eq, le, to, from) k =
    let (d', eq', le', to', from') = k d in
    (
      d',
      ap (λ o. Ends.◌>>=◌ o f) eq ∙ eq',
      omega (arith, le, le'),
      λ h. (to (omega (arith, le, le', h)), to' (omega (arith, le, le', h))),
      λ h. from' h.1 ∙ from h.0,
    )

Counts-map :
    {P Q : Type 0} {o : Outcome ℕ} {e : ℕ} → (P → Q) → (Q → P) → Counts o e P → Counts o e Q
Counts-map f g (d, eq, le, to, from) = (d, eq, le, λ h. f (to h), λ h. from (g h))

module _ (env : Env) where
  -- A symbol is a parameter or the name of a rule, and then its first parameter is checked too.
  abbrev pub NameDefined : Rule → Node → Type 0
  NameDefined rule (symbol mode t nil) = (is_formal rule t ≡ true) ⊎ (no_rule env t ≡ false)
  NameDefined rule (symbol mode t (cons param next)) =
      (is_formal rule t ≡ true) ⊎ ((no_rule env t ≡ false) × NameDefined rule param)
  NameDefined rule (mapping t n) = (no_mapping env t ≡ false) × NameDefined rule n
  NameDefined rule _ = Unit

  abbrev pub NamesDefined : Rule → Nodes → Type 0
  NamesDefined rule nil = Unit
  NamesDefined rule (cons n next) = NameDefined rule n × NamesDefined rule next

  abbrev pub OptionsDefined : Rule → Options → Type 0
  OptionsDefined rule end = Unit
  OptionsDefined rule (option o atoms next) = NamesDefined rule atoms × OptionsDefined rule next

  abbrev pub RulesDefined : RuleTree → Type 0
  RulesDefined null = Unit
  RulesDefined (node r left right) =
      RulesDefined left × OptionsDefined r r.options × RulesDefined right

  undef_iter2-le : (rule : Rule) (n : Node) (e : ℕ) → e ≤ undef_iter2 env rule n e
  unfolding undef_iter2
  undef_iter2-le rule (symbol mode t nil) e = ground arith
  undef_iter2-le rule (symbol mode t (cons p ps)) e =
      ground (arith, undef_iter2-le rule p e, undef_iter2-le rule p (e + 1))
  undef_iter2-le rule (mapping t n) e =
      ground (arith, undef_iter2-le rule n e, undef_iter2-le rule n (e + 1))
  undef_iter2-le rule _ e = omega arith

  count-eq : (b : Bool) (e : ℕ) → count b e ≡ e → b ≡ false
  count-eq true e h = absurd (omega arith)
  count-eq false e h = refl

  counted :
      (b : Bool) (rule : Rule) (n : Node) (e : ℕ)
      → undef_iter2 env rule n (count b e) ≡ e
      → (b ≡ false) × (undef_iter2 env rule n e ≡ e)
  counted true rule n e h = absurd (omega (arith, undef_iter2-le rule n (e + 1)))
  counted false rule n e h = (refl, h)

  undef_iter2-zero :
      (rule : Rule) (n : Node) (e : ℕ) → undef_iter2 env rule n e ≡ e → NameDefined rule n
  unfolding undef_iter2
  undef_iter2-zero rule (symbol mode t nil) e h = elim (Bool-cases (is_formal rule t)) [
    | inl formal ↦ inl formal
    | inr other ↦ inr (count-eq (no_rule env t) e (ground arith))
  ]
  undef_iter2-zero rule (symbol mode t (cons p ps)) e h = elim (Bool-cases (is_formal rule t)) [
    | inl formal ↦ inl formal
    | inr other ↦
        let (found, same) = counted (no_rule env t) rule p e (ground arith) in
        inr (found, undef_iter2-zero rule p e same)
  ]
  undef_iter2-zero rule (mapping t n) e h =
      let (found, same) = counted (no_mapping env t) rule n e h in
      (found, undef_iter2-zero rule n e same)
  undef_iter2-zero rule _ e h = tt

  undef_iter2-same :
      (rule : Rule) (n : Node) (e : ℕ) → NameDefined rule n → undef_iter2 env rule n e ≡ e
  unfolding undef_iter2
  undef_iter2-same rule (symbol mode t nil) e (inl h) = ground arith
  undef_iter2-same rule (symbol mode t nil) e (inr h) = ground arith
  undef_iter2-same rule (symbol mode t (cons p ps)) e (inl h) = ground arith
  undef_iter2-same rule (symbol mode t (cons p ps)) e (inr (h, k)) =
      ground (arith, undef_iter2-same rule p e k)
  undef_iter2-same rule (mapping t n) e (h, k) = ground (arith, undef_iter2-same rule n e k)
  undef_iter2-same rule _ e h = refl

  nodes-Counts :
      (rule : Rule) (atoms : Nodes) (e : ℕ)
      → Counts (node_map atoms (λ n e. ok (undef_iter2 env rule n e)) e) e (NamesDefined rule atoms)
  unfolding node_map
  nodes-Counts rule nil e = (e, refl, omega arith, λ h. tt, λ h. refl)
  nodes-Counts rule (cons n next) e =
      Counts-bind (node_map next λ n e. ok (undef_iter2 env rule n e))
        (
          undef_iter2 env rule n e,
          refl,
          undef_iter2-le rule n e,
          undef_iter2-zero rule n e,
          undef_iter2-same rule n e,
        )
        (nodes-Counts rule next)

  options-Counts :
      (rule : Rule) (options : Options) (e : ℕ)
      → Counts (undef_iter1 env rule options e) e (OptionsDefined rule options)
  unfolding undef_iter1
  options-Counts rule end e = (e, refl, omega arith, λ h. tt, λ h. refl)
  options-Counts rule (option o atoms next) e =
      Counts-bind (undef_iter1 env rule next) (nodes-Counts rule atoms e) (options-Counts rule next)

  rules-Counts :
      (rules : RuleTree) {P : Type 0} (o : Outcome ℕ) (e : ℕ)
      → Counts o e P
      → Counts (rule_inorder_traverse rules (undef_iter0 env) o) e (P × RulesDefined rules)
  unfolding rule_inorder_traverse undef_iter0
  rules-Counts null o e c = Counts-map (λ p. (p, tt)) (λ p. p.0) c
  rules-Counts (node r left right) o e c =
      Counts-map (λ p. (p.0.0.0, (p.0.0.1, p.0.1, p.1))) (λ p. (((p.0, p.1.0), p.1.1), p.1.2))
        (rules-Counts right _ e (
          Counts-bind (undef_iter1 env r r.options) (rules-Counts left o e c)
            (options-Counts r r.options)))

  checked :
      (o : Outcome ℕ)
      → Counts o 0 (Unit {0} × RulesDefined env.rules)
      → ((o ≡ ok 0) × RulesDefined env.rules)
        ⊎ ((e : ℕ) × (o ≡ ok (suc e)) × ¬ RulesDefined env.rules)
  checked o (zero, eq, le, to, from) = inl (eq, (to refl).1)
  checked o (suc e, eq, le, to, from) = inr (e, eq, λ h. absurd (omega (arith, from (tt, h))))

  -- The check accepts a grammar exactly if each symbol that it looks at is a parameter of the rule or
  -- the name of a rule and each mapping it looks at is a mapping or a transformation; it exits with 1
  -- if not. It looks at the nodes of each option, at the first parameter of a symbol and at the node
  -- that a mapping is applied to, and so on from there, and at no other node.
  pub check_rtn_lem :
      ((check_rtn env ≡ ok tt) × RulesDefined env.rules)
      ⊎ ((check_rtn env ≡ exited 1) × ¬ RulesDefined env.rules)
  unfolding check_rtn check_for_undefined
  check_rtn_lem =
      elim (checked (rule_inorder_traverse env.rules (undef_iter0 env) (ok 0))
        (rules-Counts env.rules (ok 0) 0 (0, refl, omega arith, λ h. tt, λ h. refl))) [
          | inl (eq, all) ↦ inl (rw eq refl, all)
          | inr (e, eq, undefined) ↦ inr (rw eq (ground arith), undefined)
        ]
