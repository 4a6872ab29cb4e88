-- ===== src/Resolve/Sound.antt =====
-- src/resolve.c: `resolve_atom` held against the language of the grammar.
use mathlib.Core.List.{append-nil}
use mathlib.Core.Path.{subst}
use dada_engine.Prelude.{
  ℕ, zero, suc, ◌%◌, ◌≡◌, refl, sym, inl, inr, Bool-cases, List, [], Option, none, some, ok, ltb,
  arith,
}
use dada_engine.Prelude.Int.{pos_part}
use dada_engine.Text.{Text}
use dada_engine.Strfunc.{dstrcat}
use dada_engine.Ptrlist.{list_indexof}
use dada_engine.Rtn.{
  ResMode, plain, Node, Nodes, Options, deref, choice, plus, nil, cons, end, option, option_nth,
  option_length, node_map, param_indexof, RuleTree, null, node, rule_find,
}
use dada_engine.Engine.{Env, Engine, then_do}
use dada_engine.Select.{redraw}
use dada_engine.Resolve.{
  resolve_iterator, resolve_option, resolve_called, resolve_top, star_loop, repeat_loop,
  apply_named, find_named, resolve_choice, resolve_node, resolve_atom, resolve_rule,
}
use dada_engine.Resolve.Passing.{Cooked, Resolver, resolve_params}
use dada_engine.Resolve.Yields.{
  Yields, Yields-lift, Yields-ends, gave, crashes, starves, Yields-bind, Yields-any, Yields-ok,
  Yields-weaken, Among, here, there, NullOrAmong, option_nth-NullOrAmong, select_option-NullOrAmong,
}
use dada_engine.Resolve.Extends.{Extends, extend}
use dada_engine.Resolve.Language.{
  Produces, says, calls, maps, derefs, derefs_null, hides, chooses, stars, pluses, repeats, Called,
  missing, takes, Fills, fills, Sequence, done, next, Repeats, never, again, IsPlain, plain_literal,
  plain_symbol, plain_mapping, plain_deref, plain_silence, plain_choice, plain_star, plain_plus,
  plain_repeat, ArePlain, plain_cons, ArePlainOptions, plain_option, ArePlainRules,
}

rule_find-plain :
    (rules : RuleTree) (t : Text) → ArePlainRules rules → ArePlainRules (rule_find rules t)
unfolding rule_find
rule_find-plain null t h = tt
rule_find-plain (node r left right) t h =
    ground (arith, rule_find-plain left t, rule_find-plain right t)

Among-plain : {options o : Options} → Among options o → ArePlainOptions options → ArePlainOptions o
Among-plain here p = p
Among-plain (there a) (plain_option p q) = Among-plain a q

module _ (env : Env) where
  -- `self` keeps to the language.
  abbrev pub IsSound : Resolver → Type 0
  IsSound self =
      (n : Node) (cooked : Cooked) (s : Engine)
      → IsPlain n
      → Yields (λ x _. Produces env n x) (self n [] cooked s)

  atoms_sound :
      (self : Resolver) (ns : Nodes) (cooked : Cooked) (before : Option Text) (s : Engine)
      → IsSound self
      → ArePlain ns
      → Yields
          (λ x _. Extends (Sequence env ns) before x)
          (node_map ns (resolve_iterator self [] cooked) (before, s))
  unfolding node_map resolve_iterator
  atoms_sound self nil cooked before s h p = gave ([], done refl, sym (append-nil _))
  atoms_sound self (cons n ns) cooked before s h (plain_cons p ps) =
      Yields-ends _
        (Yields-bind {Q = λ x _. (y : Option Text) × Produces env n y × (x ≡ dstrcat before y)}
          (h n cooked s p) λ y t m. gave (y, m, refl))
        λ x t (y, m, e).
          Yields-weaken (λ z _. extend before y x z (λ u seq. next m seq refl) e)
            (atoms_sound self ns cooked x t h ps)

  option_sound :
      (self : Resolver) (o : Options) (formal : List Text) (cooked : Cooked) (s : Engine)
      → formal ≡ []
      → IsSound self
      → ArePlainOptions o
      → Yields (λ x _. Fills env o x) (resolve_option self o formal cooked s)
  unfolding resolve_option
  option_sound self end formal cooked s e h p = crashes
  option_sound self (option a atoms rest) formal cooked s e h (plain_option p q) =
      subst
        (λ fs.
          Yields (λ x _. Fills env (option a atoms rest) x)
            (node_map atoms (resolve_iterator self fs cooked) (none, s)))
        (sym e)
        (Yields-weaken (λ x _ (t, seq, f). fills (subst (Sequence env atoms) (sym f) seq))
          (atoms_sound self atoms cooked none s h p))

  chosen_sound :
      (self : Resolver) (options o : Options) (formal : List Text) (cooked : Cooked) (s : Engine)
      → formal ≡ []
      → IsSound self
      → ArePlainOptions options
      → NullOrAmong options o
      → Yields (λ x _. Among options o × Fills env o x) (resolve_option self o formal cooked s)
  unfolding resolve_option
  chosen_sound self options end formal cooked s e h p n = crashes
  chosen_sound self options (option a atoms rest) formal cooked s e h p n =
      Yields-weaken (λ x _ k. (n, k))
        (option_sound self (option a atoms rest) formal cooked s e h (Among-plain n p))

  resolve_called_sound :
      (f : ℕ) (self : Resolver) (rule : RuleTree) (cooked : Cooked) (mode : ResMode) (s : Engine)
      → IsSound self
      → ArePlainRules rule
      → Yields (λ x _. Called env rule x) (resolve_called env f self rule nil [] cooked mode s)
  unfolding resolve_called resolve_params
  resolve_called_sound f self null cooked mode s h p = gave missing
  resolve_called_sound f self (node r left right) cooked mode s h p =
      Yields-bind (select_option-NullOrAmong env f r.options r.last_choice mode s) λ o t n.
        Yields-weaken (λ x _ (among, k). takes among k)
          (chosen_sound self r.options o r.params [] t p.0 h p.1 n)

  repeat_sound :
      (self : Resolver) (n : Node) (k : ℕ) (cooked : Cooked) (before : Option Text) (s : Engine)
      → IsSound self
      → IsPlain n
      → Yields
          (λ x _. Extends (Repeats env n k) before x)
          (repeat_loop k (self n [] cooked) before s)
  unfolding repeat_loop
  repeat_sound self n zero cooked before s h p = gave ([], never refl, sym (append-nil _))
  repeat_sound self n (suc k) cooked before s h p = Yields-bind (h n cooked s p) λ y t m.
      Yields-weaken (λ z _. extend before y _ z (λ u r. again m r refl) refl)
        (repeat_sound self n k cooked (dstrcat before y) t h p)

  star_sound :
      (f : ℕ) (self : Resolver) (n : Node) (cooked : Cooked) (before : Option Text) (s : Engine)
      → IsSound self
      → IsPlain n
      → Yields
          (λ x _. (k : ℕ) × Extends (Repeats env n k) before x)
          (star_loop env f (self n [] cooked) before s)
  unfolding star_loop
  star_sound zero self n cooked before s h p = starves
  star_sound (suc f) self n cooked before s h p = elim (Bool-cases (ltb 1 (env.rand s.rands % 5))) [
    | inl more ↦ rw more (
        Yields-bind (h n cooked _ p) λ y t m.
          Yields-weaken (λ z _ (k, x). (suc k, extend before y _ z (λ u r. again m r refl) refl x))
            (star_sound f self n cooked (dstrcat before y) t h p))
    | inr stop ↦ rw stop (gave (0, ([], never refl, sym (append-nil _))))
  ]

  choice_sound :
      (f : ℕ) (self : Resolver) (at : ℕ) (options : Options) (cooked : Cooked) (s : Engine)
      → IsSound self
      → ArePlainOptions options
      → Yields
          (λ x _. Produces env (choice at options) x)
          (resolve_choice env f self at options [] cooked s)
  unfolding resolve_choice
  choice_sound f self at options cooked s h p =
      Yields-bind (Yields-any (redraw env f (option_length options) (s.last_choice at) s)) λ c t _.
        Yields-weaken (λ x _ (among, k). chooses among k)
          (chosen_sound self options (option_nth options c) [] cooked _ refl h p
            (option_nth-NullOrAmong options c))

  plus_sound :
      (f : ℕ) (self : Resolver) (n : Node) (cooked : Cooked) (s : Engine)
      → IsSound self
      → IsPlain n
      → Yields (λ x _. Produces env (plus n) x) (resolve_node env f self (plus n) [] cooked s)
  unfolding resolve_node
  plus_sound f self n cooked s h p = Yields-bind (h n cooked s p) λ y t m.
      Yields-weaken
        (λ x _ (k, (u, r, e)). pluses k (subst (Repeats env n (suc k)) (sym e) (again m r refl)))
        (star_sound f self n cooked y t h p)

  deref_sound :
      (f : ℕ) (self : Resolver) (n : Node) (t : Option Text) (cooked : Cooked) (mode : ResMode)
      (s : Engine)
      → IsSound self
      → ArePlainRules env.rules
      → Produces env n t
      → (rules : RuleTree) → env.rules ≡ rules
      → Yields
          (λ x _. Produces env (deref mode n) x)
          (then_do (find_named rules t s) λ r. resolve_called env f self r nil [] cooked mode)
  unfolding find_named
  deref_sound f self n (some t) cooked mode s h p k rules e =
      subst
        (λ rs.
          Yields (λ x _. Produces env (deref mode n) x)
            (resolve_called env f self (rule_find rs t) nil [] cooked mode s))
        e
        (Yields-weaken (λ x _ c. derefs k c)
          (resolve_called_sound f self (rule_find env.rules t) cooked mode s h
            (rule_find-plain env.rules t p)))
  deref_sound f self n none cooked mode s h p k null e =
      Yields-weaken (λ x _ c. missing_null x c)
        (resolve_called_sound f self null cooked mode s h tt)
    where
      missing_null : (x : Option Text) → Called env null x → Produces env (deref mode n) x
      missing_null x missing = derefs_null k e
  deref_sound f self n none cooked mode s h p k (node r left right) e = crashes

  node-IsSound :
      (f : ℕ) (self : Resolver)
      → ArePlainRules env.rules
      → IsSound self
      → IsSound (resolve_node env f self)
  unfolding resolve_node param_indexof list_indexof
  node-IsSound f self rules h n cooked s (plain_literal) = gave says
  node-IsSound f self rules h n cooked s (plain_symbol {mode} {t}) =
      Yields-weaken (λ x _. calls)
        (resolve_called_sound f self (rule_find env.rules t) cooked mode s h
          (rule_find-plain env.rules t rules))
  node-IsSound f self rules h n cooked s (plain_mapping {t} {n = m} p) =
      Yields-bind (h m cooked s p)
        λ x u k. Yields-weaken (λ y _ (e, same). maps k e) (Yields-lift (apply_named env t x) u)
  node-IsSound f self rules h n cooked s (plain_deref {mode} {n = m} p) =
      Yields-bind (h m cooked s p)
        λ x u k. deref_sound f self m x cooked mode u h rules k env.rules refl
  node-IsSound f self rules h n cooked s (plain_silence {n = m} p) =
      Yields-bind (h m cooked s p) λ x u k. gave (hides k)
  node-IsSound f self rules h n cooked s (plain_choice {at} {options} p) =
      choice_sound f self at options cooked s h p
  node-IsSound f self rules h n cooked s (plain_star {n = m} p) =
      Yields-weaken (λ x _ (k, (u, r, e)). stars k (subst (Repeats env m k) (sym e) r))
        (star_sound f self m cooked none s h p)
  node-IsSound f self rules h n cooked s (plain_plus {n = m} p) = plus_sound f self m cooked s h p
  node-IsSound f self rules h n cooked s (plain_repeat {i} {n = m} p) =
      Yields-weaken (λ x _ (u, r, e). repeats (subst (Repeats env m (pos_part i)) (sym e) r))
        (repeat_sound self m (pos_part i) cooked none s h p)

  atom-IsSound : (f : ℕ) → ArePlainRules env.rules → IsSound (resolve_atom env f)
  unfolding resolve_atom
  atom-IsSound zero rules n cooked s p = starves
  atom-IsSound (suc f) rules n cooked s p =
      node-IsSound f (resolve_atom env f) rules (atom-IsSound f rules) n cooked s p

  -- Let no rule of the grammar have parameters, variables or code. If a rule is resolved to a text,
  -- whatever the random numbers, the weights, the last choices and the fuel are, the text is in the
  -- language of the rule.
  pub resolve_rule_sound :
      (f : ℕ) (rule : RuleTree) (s s' : Engine) (x : Option Text)
      → ArePlainRules env.rules
      → ArePlainRules rule
      → resolve_rule env f rule s ≡ ok (x, s')
      → Called env rule x
  unfolding resolve_rule resolve_top
  resolve_rule_sound f rule s s' x rules p e =
      Yields-ok
        (resolve_called_sound f (resolve_atom env f) rule [] plain s (atom-IsSound f rules) p) e
