-- ===== src/Parser/Addresses.antt =====
-- src/parser.y: the addresses that the actions allocate, and how often each is used.
use dada_engine.Prelude.{ℕ, ◌+◌, ◌≤◌, ◌≡◌, refl, arith, leb, ltb, ◌==◌, if◌then◌else◌}
use dada_engine.Rtn.{
  ResMode, unique, enumerate, pick, Node, Nodes, Options, literal, symbol, mapping, deref,
  var_conddef, var_def, var_ref, code, silence, choice, star, plus, repeat_const, repeat_var, nil,
  cons, end, option, node_append, option_append, option_cons, rule_new, rule_insert, RuleTree, null,
  node,
}
use dada_engine.Parser.Syntax.{
  Atom, Atoms, Alternatives, quoted, named, named_with, mapped, dereferenced, defaulted, assigned,
  fetched, embedded, silenced, starred, plussed, bracketed, repeated, repeated_by, unique_of,
  enum_of, pick_of, single, followed, only, either, Definition, ordinary, resource, parametrised,
}
use dada_engine.Parser.{set_mode, build_atom, build_atoms, build_options, build_rule}

abbrev pub one_at : ℕ → ℕ → ℕ
one_at x a = if x == a then 1 else 0

-- How many options, inline choices and rules have the address `x`.
abbrev mutual
  pub uses : ℕ → Node → ℕ
  uses x (symbol m t ps) = uses_all x ps
  uses x (mapping t n) = uses x n
  uses x (deref m n) = uses x n
  uses x (var_conddef t n) = uses x n
  uses x (var_def t n) = uses x n
  uses x (silence n) = uses x n
  uses x (star n) = uses x n
  uses x (plus n) = uses x n
  uses x (repeat_const i n) = uses x n
  uses x (repeat_var t n) = uses x n
  uses x (choice at os) = uses_options x os + one_at x at
  uses x (literal t) = 0
  uses x (var_ref t) = 0
  uses x (code is) = 0

  pub uses_all : ℕ → Nodes → ℕ
  uses_all x nil = 0
  uses_all x (cons n ns) = uses x n + uses_all x ns

  pub uses_options : ℕ → Options → ℕ
  uses_options x end = 0
  uses_options x (option a ns next) = uses_all x ns + one_at x a + uses_options x next

abbrev pub uses_rules : ℕ → RuleTree → ℕ
uses_rules x null = 0
uses_rules x (node r left right) =
    uses_options x r.options + one_at x r.last_choice + uses_rules x left + uses_rules x right

-- 1 between the two numbers.
abbrev pub between : ℕ → ℕ → ℕ → ℕ
between k k' x = if leb k x then (if ltb x k' then 1 else 0) else 0

-- Every number is used at most once, and only those between `k` and `k'` are.
abbrev pub Fresh : ℕ → ℕ → (ℕ → ℕ) → Type 0
Fresh k k' f = (k ≤ k') × ((x : ℕ) → f x ≤ between k k' x)

Fresh-none : (k : ℕ) {f : ℕ → ℕ} → ((x : ℕ) → f x ≡ 0) → Fresh k k f
Fresh-none k h = (omega arith, λ x. ground (arith, h x))

pub Fresh-then :
    (k l m : ℕ) {f g h : ℕ → ℕ}
    → Fresh k l f
    → Fresh l m g
    → ((x : ℕ) → h x ≡ f x + g x)
    → Fresh k m h
Fresh-then k l m p q e = (omega (arith, p.0, q.0), λ x. ground (arith, p.0, q.0, p.1 x, q.1 x, e x))

Fresh-last :
    (k l : ℕ) {f h : ℕ → ℕ} → Fresh k l f → ((x : ℕ) → h x ≡ f x + one_at x l) → Fresh k (l + 1) h
Fresh-last k l p e = (omega (arith, p.0), λ x. ground (arith, p.0, p.1 x, e x))

-- A number that is passed over.
Fresh-skip : (k l : ℕ) {f : ℕ → ℕ} → Fresh k l f → Fresh k (l + 1) f
Fresh-skip k l p = (omega (arith, p.0), λ x. ground (arith, p.0, p.1 x))

uses-node_append :
    (x : ℕ) (a b : Nodes) → uses_all x (node_append a b) ≡ uses_all x a + uses_all x b
unfolding node_append
uses-node_append x nil b = omega arith
uses-node_append x (cons n a) b = omega (arith, uses-node_append x a b)

uses-set_mode : (x : ℕ) (mode : ResMode) (n : Node) → uses x n ≡ uses x (set_mode mode n)
unfolding set_mode
uses-set_mode x mode (symbol m t ps) = refl
uses-set_mode x mode (deref m n) = refl
uses-set_mode x mode (literal t) = refl
uses-set_mode x mode (mapping t n) = refl
uses-set_mode x mode (var_conddef t n) = refl
uses-set_mode x mode (var_def t n) = refl
uses-set_mode x mode (var_ref t) = refl
uses-set_mode x mode (code is) = refl
uses-set_mode x mode (silence n) = refl
uses-set_mode x mode (choice at os) = refl
uses-set_mode x mode (star n) = refl
uses-set_mode x mode (plus n) = refl
uses-set_mode x mode (repeat_const i n) = refl
uses-set_mode x mode (repeat_var t n) = refl

module _ (stale : ℕ → ResMode) where
  Fresh-set_mode :
      (mode : ResMode) (n : Node) (k l : ℕ)
      → Fresh k l (λ x. uses x n)
      → Fresh k l (λ x. uses x (set_mode mode n))
  Fresh-set_mode mode n k l h = (h.0, λ x. ground (arith, h.1 x, uses-set_mode x mode n))

  mutual
    unfolding build_atom option_append option_cons

    atom-Fresh :
        (a : Atom) (k : ℕ) → Fresh k (build_atom stale a k).1 (λ x. uses x (build_atom stale a k).0)
    atom-Fresh (quoted t) k = Fresh-none k λ x. refl
    atom-Fresh (named t) k = Fresh-skip k k (Fresh-none k λ x. refl)
    atom-Fresh (named_with t ps) k = Fresh-skip k _ (atoms-Fresh ps k)
    atom-Fresh (mapped a t) k = atom-Fresh a k
    atom-Fresh (dereferenced a) k = Fresh-skip k _ (atom-Fresh a k)
    atom-Fresh (defaulted t a) k = atom-Fresh a k
    atom-Fresh (assigned t a) k = atom-Fresh a k
    atom-Fresh (fetched t) k = Fresh-none k λ x. refl
    atom-Fresh (embedded is) k = Fresh-none k λ x. refl
    atom-Fresh (silenced a) k = atom-Fresh a k
    atom-Fresh (starred a) k = atom-Fresh a k
    atom-Fresh (plussed a) k = atom-Fresh a k
    atom-Fresh (bracketed os) k = Fresh-last k _ (options-Fresh os k) λ x. refl
    atom-Fresh (repeated a i) k = atom-Fresh a k
    atom-Fresh (repeated_by a t) k = atom-Fresh a k
    atom-Fresh (unique_of a) k = Fresh-set_mode unique (build_atom stale a k).0 k _ (atom-Fresh a k)
    atom-Fresh (enum_of a) k =
        Fresh-set_mode enumerate (build_atom stale a k).0 k _ (atom-Fresh a k)
    atom-Fresh (pick_of i a) k = Fresh-set_mode pick (build_atom stale a k).0 k _ (atom-Fresh a k)

    atoms-Fresh :
        (ns : Atoms) (k : ℕ)
        → Fresh k (build_atoms stale ns k).1 (λ x. uses_all x (build_atoms stale ns k).0)
    atoms-Fresh (single a) k =
        Fresh-then k _ _ (atom-Fresh a k) (Fresh-none _ {f = λ x. 0} λ x. refl) λ x. refl
    atoms-Fresh (followed ns a) k =
        Fresh-then k _ _ (atoms-Fresh ns k) (atom-Fresh a (build_atoms stale ns k).1) λ x. omega (
          arith,
          uses-node_append x (build_atoms stale ns k).0
              (cons (build_atom stale a (build_atoms stale ns k).1).0 nil),
        )

    pub options-Fresh :
        (os : Alternatives) (k : ℕ)
        → Fresh k (build_options stale os k).1 (λ x. uses_options x (build_options stale os k).0)
    options-Fresh (only ns) k = Fresh-last k _ (atoms-Fresh ns k) λ x. omega arith
    options-Fresh (either ns os) k =
        Fresh-then k _ _
          (Fresh-last k _
            {h = λ x. uses_all x (build_atoms stale ns k).0 + one_at x (build_atoms stale ns k).1}
            (atoms-Fresh ns k) λ x. refl)
          (options-Fresh os ((build_atoms stale ns k).1 + 1)) λ x. omega arith

  pub rule-Fresh :
      (d : Definition) (k : ℕ)
      → Fresh k (build_rule stale d k).1 (λ x. uses_rules x (build_rule stale d k).0)
  unfolding build_rule rule_new
  rule-Fresh (ordinary name os) k = Fresh-last k _ (options-Fresh os k) λ x. omega arith
  rule-Fresh (resource name os) k = Fresh-last k _ (options-Fresh os k) λ x. omega arith
  rule-Fresh (parametrised name p ps os) k = Fresh-last k _ (options-Fresh os k) λ x. omega arith

pub uses-rule_insert :
    (x : ℕ) (tree new : RuleTree)
    → uses_rules x (rule_insert tree new) ≡ uses_rules x tree + uses_rules x new
unfolding rule_insert
uses-rule_insert x null new = omega arith
uses-rule_insert x (node r left right) null = omega arith
uses-rule_insert x (node r left right) (node s a b) =
    ground (arith, uses-rule_insert x left (node s a b), uses-rule_insert x right (node s a b))
