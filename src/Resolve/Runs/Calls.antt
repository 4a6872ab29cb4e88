-- ===== src/Resolve/Runs/Calls.antt =====
-- src/resolve.c: calls, choices and repetitions, held against the runs of the grammar.
use mathlib.Core.List.{append-nil}
use mathlib.Core.Path.{subst}
use dada_engine.Prelude.{
  ℕ, zero, suc, ◌%◌, ◌≡◌, refl, sym, inl, inr, Bool-cases, List, [], Option, none, some, ltb,
}
use dada_engine.Text.{Text}
use dada_engine.Strfunc.{dstrcat}
use dada_engine.Rtn.{
  ResMode, Node, Nodes, Options, symbol, deref, choice, plus, nil, cons, end, option, option_nth,
  node_map, RuleTree, null, node, rule_find,
}
use dada_engine.Engine.{Env, Engine, then_do}
use dada_engine.Machine.World.{World, world}
use dada_engine.Resolve.{
  resolve_iterator, resolve_option, resolve_called, star_loop, repeat_loop, find_named,
  resolve_choice, resolve_node,
}
use dada_engine.Resolve.Passing.{Cooked, Resolver}
use dada_engine.Resolve.Extends.{Extends, extend}
use dada_engine.Resolve.Yields.{
  Yields, Yields-ends, gave, crashes, starves, Yields-bind, Yields-weaken, Among, NullOrAmong,
}
use dada_engine.Resolve.Runs.{
  Runs, stands, calls, derefs, derefs_null, chooses, pluses, Called, missing, takes, Fills, fills,
  Sequence, done, one_atom, Repeats, never, again,
}
use dada_engine.Resolve.Runs.Params.{actual-Supplies, param_indexof-cases, IsFaithful, params_sound}
use dada_engine.Resolve.Runs.Choice.{select_option-Chosen, picked-Chosen}

module _ (env : Env) (self : Resolver) (faithful : IsFaithful env self) where
  atoms_in_turn :
      (ns : Nodes) (fs : List Text) (cs : Cooked) (before : Option Text) (s : Engine)
      → Yields
          (λ x t. Extends (λ u. Sequence env ns fs cs (world s) u (world t)) before x)
          (node_map ns (resolve_iterator self fs cs) (before, s))
  unfolding node_map resolve_iterator
  atoms_in_turn nil fs cs before s = gave ([], done refl, sym (append-nil _))
  atoms_in_turn (cons n ns) fs cs before s =
      Yields-ends _
        (Yields-bind
          {Q = λ x t.
            (y : Option Text) × Runs env n fs cs (world s) y (world t) × (x ≡ dstrcat before y)}
          (faithful n fs cs s) λ y t m. gave (y, m, refl))
        λ x t (y, m, e).
          Yields-weaken (λ z u. extend before y x z (λ w seq. one_atom m seq refl) e)
            (atoms_in_turn ns fs cs x t)

  chosen_sound :
      (options o : Options) (fs : List Text) (cs : Cooked) (s : Engine)
      → NullOrAmong options o
      → Yields
          (λ x t. Among options o × Fills env o fs cs (world s) x (world t))
          (resolve_option self o fs cs s)
  unfolding resolve_option
  chosen_sound options end fs cs s n = crashes
  chosen_sound options (option a atoms rest) fs cs s n =
      Yields-weaken
        (λ x t (u, seq, f).
          (n, fills (subst (λ w. Sequence env atoms fs cs (world s) w (world t)) (sym f) seq)))
        (atoms_in_turn atoms fs cs none s)

  pub rule_call_sound :
      (f : ℕ) (rule : RuleTree) (ps : Nodes) (fs : List Text) (cs : Cooked) (mode : ResMode)
      (s : Engine)
      → Yields
          (λ x t. Called env rule ps fs cs (world s) x (world t))
          (resolve_called env f self rule ps fs cs mode s)
  unfolding resolve_called
  rule_call_sound f null ps fs cs mode s = gave missing
  rule_call_sound f (node r left right) ps fs cs mode s =
      Yields-bind (params_sound env self faithful fs cs ps s) λ ds t actuals.
        Yields-bind (select_option-Chosen env f r.options r.last_choice mode t) λ o u (n, same).
          Yields-weaken
            (λ x w (among, k).
              takes actuals among (subst (λ v. Fills env o r.params ds v x (world w)) same k))
            (chosen_sound r.options o r.params ds u n)

  pub repeat_sound :
      (n : Node) (k : ℕ) (fs : List Text) (cs : Cooked) (before : Option Text) (s : Engine)
      → Yields
          (λ x t. Extends (λ u. Repeats env n k fs cs (world s) u (world t)) before x)
          (repeat_loop k (self n fs cs) before s)
  unfolding repeat_loop
  repeat_sound n zero fs cs before s = gave ([], never refl, sym (append-nil _))
  repeat_sound n (suc k) fs cs before s = Yields-bind (faithful n fs cs s) λ y t m.
      Yields-weaken (λ z w. extend before y _ z (λ u r. again m r refl) refl)
        (repeat_sound n k fs cs (dstrcat before y) t)

  pub star_sound :
      (f : ℕ) (n : Node) (fs : List Text) (cs : Cooked) (before : Option Text) (s : Engine)
      → Yields
          (λ x t. (k : ℕ) × Extends (λ u. Repeats env n k fs cs (world s) u (world t)) before x)
          (star_loop env f (self n fs cs) before s)
  unfolding star_loop
  star_sound zero n fs cs before s = starves
  star_sound (suc f) n fs cs before s = elim (Bool-cases (ltb 1 (env.rand s.rands % 5))) [
    | inl more ↦ rw more (
        Yields-bind (faithful n fs cs _) λ y t m.
          Yields-weaken (λ z w (k, x). (suc k, extend before y _ z (λ u r. again m r refl) refl x))
            (star_sound f n fs cs (dstrcat before y) t))
    | inr stop ↦ rw stop (gave (0, ([], never refl, sym (append-nil _))))
  ]

  pub choice_sound :
      (f at : ℕ) (options : Options) (fs : List Text) (cs : Cooked) (s : Engine)
      → Yields
          (λ x t. Runs env (choice at options) fs cs (world s) x (world t))
          (resolve_choice env f self at options fs cs s)
  unfolding resolve_choice
  choice_sound f at options fs cs s =
      Yields-bind (picked-Chosen env f options (s.last_choice at) s) λ c t (n, same).
        Yields-weaken
          (λ x w (among, k).
            chooses among
              (subst (λ v. Fills env (option_nth options c) fs cs v x (world w)) same k))
          (chosen_sound options (option_nth options c) fs cs _ n)

  pub plus_sound :
      (f : ℕ) (n : Node) (fs : List Text) (cs : Cooked) (s : Engine)
      → Yields
          (λ x t. Runs env (plus n) fs cs (world s) x (world t))
          (resolve_node env f self (plus n) fs cs s)
  unfolding resolve_node
  plus_sound f n fs cs s = Yields-bind (faithful n fs cs s) λ y t m.
      Yields-weaken
        (λ x w (k, (u, r, e)).
          pluses k (
            subst (λ z. Repeats env n (suc k) fs cs (world s) z (world w)) (sym e)
              (again m r refl)))
        (star_sound f n fs cs y t)

  pub symbol_sound :
      (f : ℕ) (mode : ResMode) (t : Text) (ps : Nodes) (fs : List Text) (cs : Cooked) (s : Engine)
      → Yields
          (λ x u. Runs env (symbol mode t ps) fs cs (world s) x (world u))
          (resolve_node env f self (symbol mode t ps) fs cs s)
  unfolding resolve_node
  symbol_sound f mode t ps fs cs s = elim (param_indexof-cases fs t) [
    | inl e ↦
        rw e (
          Yields-weaken (λ x u. calls e)
            (rule_call_sound f (rule_find env.rules t) ps fs cs mode s))
    | inr (i, e) ↦ rw e (
        Yields-weaken
          (λ x u (supplied, same).
            subst (Runs env (symbol mode t ps) fs cs (world s) x) (sym same) (stands e supplied))
          (actual-Supplies cs i s))
  ]

  pub deref_sound :
      (f : ℕ) (n : Node) (t : Option Text) (fs : List Text) (cs : Cooked) (mode : ResMode)
      (v : World) (s : Engine)
      → Runs env n fs cs v t (world s)
      → (rules : RuleTree) → env.rules ≡ rules
      → Yields
          (λ x u. Runs env (deref mode n) fs cs v x (world u))
          (then_do (find_named rules t s) λ r. resolve_called env f self r nil fs cs mode)
  unfolding find_named resolve_called
  deref_sound f n (some t) fs cs mode v s k rules e =
      subst
        (λ rs.
          Yields (λ x u. Runs env (deref mode n) fs cs v x (world u))
            (resolve_called env f self (rule_find rs t) nil fs cs mode s))
        e
        (Yields-weaken (λ x u c. derefs k c)
          (rule_call_sound f (rule_find env.rules t) nil fs cs mode s))
  deref_sound f n none fs cs mode v s k null e = gave (derefs_null k e)
  deref_sound f n none fs cs mode v s k (node r left right) e = crashes
