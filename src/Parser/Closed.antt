-- ===== src/Parser/Closed.antt =====
-- src/parser.y and src/check.c: what the check asks of a definition in a file.
use dada_engine.Prelude.{ℕ, ◌+◌, ◌≡◌, ◌↔◌, ◌⊎◌, inl, inr, refl, ap, sym, Bool, true, false}
use dada_engine.Prelude.Iff.{iff_trans, iff_and, iff_sym, iff_or, iff_of, iff_unit}
use dada_engine.Text.{Text}
use dada_engine.Rtn.{
  ResMode, unique, enumerate, pick, Node, Nodes, literal, symbol, mapping, deref, var_conddef,
  var_def, var_ref, code, silence, choice, star, plus, repeat_const, repeat_var, nil, cons,
  node_append, option_append, option_cons, Rule,
}
use dada_engine.Engine.{Env}
use dada_engine.Check.{is_formal, no_rule, no_mapping}
use dada_engine.Check.Defined.{NameDefined, NamesDefined, OptionsDefined}
use dada_engine.Parser.Syntax.{
  Atom, Atoms, Alternatives, quoted, named, named_with, mapped, dereferenced, defaulted, assigned,
  fetched, embedded, silenced, starred, plussed, bracketed, repeated, repeated_by, unique_of,
  enum_of, pick_of, single, followed, only, either,
}
use dada_engine.Parser.{set_mode, build_atom, build_atoms, build_options}

-- What the check asks of an atom, where it is known which names are parameters, which are not
-- defined as a rule, and which are neither a mapping nor a transformation.
module _ (formal no_definition no_table : Text → Bool) where
  abbrev mutual
    pub AtomClosed : Atom → Type 0
    AtomClosed (named t) = (formal t ≡ true) ⊎ (no_definition t ≡ false)
    AtomClosed (named_with t ps) = (formal t ≡ true) ⊎ ((no_definition t ≡ false) × FirstClosed ps)
    AtomClosed (mapped a t) = (no_table t ≡ false) × AtomClosed a
    AtomClosed (unique_of a) = AtomClosed a
    AtomClosed (enum_of a) = AtomClosed a
    AtomClosed (pick_of i a) = AtomClosed a
    AtomClosed _ = Unit

    FirstClosed : Atoms → Type 0
    FirstClosed (single a) = AtomClosed a
    FirstClosed (followed ns a) = FirstClosed ns

  abbrev pub AtomsClosed : Atoms → Type 0
  AtomsClosed (single a) = AtomClosed a
  AtomsClosed (followed ns a) = AtomsClosed ns × AtomClosed a

  abbrev pub AlternativesClosed : Alternatives → Type 0
  AlternativesClosed (only ns) = AtomsClosed ns
  AlternativesClosed (either ns os) = AtomsClosed ns × AlternativesClosed os

module _ (stale : ℕ → ResMode) (env : Env) (r : Rule) where
  abbrev HeadDefined : Nodes → Type 0
  HeadDefined nil = Unit
  HeadDefined (cons n ns) = NameDefined env r n

  symbol-head :
      (mode : ResMode) (t : Text) (ns : Nodes)
      → NameDefined env r (symbol mode t ns)
        ↔ ((is_formal r t ≡ true) ⊎ ((no_rule env t ≡ false) × HeadDefined ns))
  symbol-head mode t nil = (
    λ h. elim h [ inl e ↦ inl e | inr e ↦ inr (e, tt) ],
    λ h. elim h [ inl e ↦ inl e | inr (e, u) ↦ inr e ],
  )
  symbol-head mode t (cons n ns) = (λ h. h, λ h. h)

  head-append :
      (ns ms : Nodes)
      → (n : Node) × (rest : Nodes) × (ns ≡ cons n rest)
      → HeadDefined (node_append ns ms) ≡ HeadDefined ns
  unfolding node_append
  head-append nil ms (n, rest, e) = cc
  head-append (cons m ns) ms e = refl

  set_mode-Defined :
      (mode : ResMode) (n : Node) → NameDefined env r (set_mode mode n) ≡ NameDefined env r n
  unfolding set_mode
  set_mode-Defined mode (symbol m t nil) = refl
  set_mode-Defined mode (symbol m t (cons p ps)) = refl
  set_mode-Defined mode (deref m n) = refl
  set_mode-Defined mode (literal t) = refl
  set_mode-Defined mode (mapping t n) = refl
  set_mode-Defined mode (var_conddef t n) = refl
  set_mode-Defined mode (var_def t n) = refl
  set_mode-Defined mode (var_ref t) = refl
  set_mode-Defined mode (code is) = refl
  set_mode-Defined mode (silence n) = refl
  set_mode-Defined mode (choice at os) = refl
  set_mode-Defined mode (star n) = refl
  set_mode-Defined mode (plus n) = refl
  set_mode-Defined mode (repeat_const i n) = refl
  set_mode-Defined mode (repeat_var t n) = refl

  built-cons :
      (ns : Atoms) (k : ℕ)
      → (n : Node) × (rest : Nodes) × ((build_atoms stale ns k).0 ≡ cons n rest)
  unfolding build_atoms node_append
  built-cons (single a) k = (_, _, refl)
  built-cons (followed ns a) k =
      let (n, rest, e) = built-cons ns k in
      let last = cons (build_atom stale a (build_atoms stale ns k).1).0 nil in
      (n, node_append rest last, ap (λ x. node_append x last) e)

  names-append :
      (ns ms : Nodes)
      → (NamesDefined env r ns × NamesDefined env r ms) ↔ NamesDefined env r (node_append ns ms)
  unfolding node_append
  names-append nil ms = (λ (u, h). h, λ h. (tt, h))
  names-append (cons n ns) ms =
      iff_trans (λ ((a, b), c). (a, (b, c)), λ (a, (b, c)). ((a, b), c))
        (iff_and (λ a. a, λ a. a) (names-append ns ms))

  abbrev Asks : Atom → Type 0
  Asks = AtomClosed (is_formal r) (no_rule env) (no_mapping env)

  mutual
    unfolding build_atom

    atom-Closed : (a : Atom) (k : ℕ) → Asks a ↔ NameDefined env r (build_atom stale a k).0
    atom-Closed (named t) k = (λ h. h, λ h. h)
    atom-Closed (named_with t ps) k =
        iff_trans (iff_or _ (iff_and (λ e. e, λ e. e) (first-Closed ps k)))
          (iff_sym (symbol-head (stale (build_atoms stale ps k).1) t (build_atoms stale ps k).0))
    atom-Closed (mapped a t) k = iff_and (λ e. e, λ e. e) (atom-Closed a k)
    atom-Closed (unique_of a) k =
        iff_trans (atom-Closed a k)
          (iff_of (sym (set_mode-Defined unique (build_atom stale a k).0)))
    atom-Closed (enum_of a) k =
        iff_trans (atom-Closed a k)
          (iff_of (sym (set_mode-Defined enumerate (build_atom stale a k).0)))
    atom-Closed (pick_of i a) k =
        iff_trans (atom-Closed a k) (iff_of (sym (set_mode-Defined pick (build_atom stale a k).0)))
    atom-Closed (quoted t) k = (λ h. h, λ h. h)
    atom-Closed (dereferenced a) k = (λ h. h, λ h. h)
    atom-Closed (defaulted t a) k = (λ h. h, λ h. h)
    atom-Closed (assigned t a) k = (λ h. h, λ h. h)
    atom-Closed (fetched t) k = (λ h. h, λ h. h)
    atom-Closed (embedded is) k = (λ h. h, λ h. h)
    atom-Closed (silenced a) k = (λ h. h, λ h. h)
    atom-Closed (starred a) k = (λ h. h, λ h. h)
    atom-Closed (plussed a) k = (λ h. h, λ h. h)
    atom-Closed (bracketed os) k = (λ h. h, λ h. h)
    atom-Closed (repeated a i) k = (λ h. h, λ h. h)
    atom-Closed (repeated_by a t) k = (λ h. h, λ h. h)

    first-Closed :
        (ns : Atoms) (k : ℕ)
        → FirstClosed (is_formal r) (no_rule env) (no_mapping env) ns
          ↔ HeadDefined (build_atoms stale ns k).0
    first-Closed (single a) k = atom-Closed a k
    first-Closed (followed ns a) k =
        iff_trans (first-Closed ns k)
          (iff_of (sym (head-append (build_atoms stale ns k).0 _ (built-cons ns k))))

  atoms-Closed :
      (ns : Atoms) (k : ℕ)
      → AtomsClosed (is_formal r) (no_rule env) (no_mapping env) ns
        ↔ NamesDefined env r (build_atoms stale ns k).0
  unfolding build_atoms
  atoms-Closed (single a) k = iff_trans (atom-Closed a k) iff_unit
  atoms-Closed (followed ns a) k =
      iff_trans
        (iff_and (atoms-Closed ns k)
          (iff_trans (atom-Closed a (build_atoms stale ns k).1) iff_unit))
        (names-append (build_atoms stale ns k).0 _)

  pub options-Closed :
      (os : Alternatives) (k : ℕ)
      → AlternativesClosed (is_formal r) (no_rule env) (no_mapping env) os
        ↔ OptionsDefined env r (build_options stale os k).0
  unfolding build_options option_cons option_append
  options-Closed (only ns) k = iff_trans (atoms-Closed ns k) iff_unit
  options-Closed (either ns os) k =
      iff_and (atoms-Closed ns k) (options-Closed os ((build_atoms stale ns k).1 + 1))
