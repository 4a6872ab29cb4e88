-- ===== src/Resolve/Language.antt =====
-- The language of a grammar: which texts a node, a sequence of nodes, an option or a rule stands
-- for, with no random numbers, weights, last choices or fuel. Only nodes without variables,
-- embedded code and parameters have a place here.
use dada_engine.Prelude.{ℕ, zero, suc, ◌≡◌, [], ◌++◌, Option, none, some, ok}
use dada_engine.Prelude.Int.{ℤ, pos_part}
use dada_engine.Text.{Text}
use dada_engine.Strfunc.{or_empty}
use dada_engine.Rtn.{
  ResMode, Node, Nodes, Options, literal, symbol, mapping, deref, silence, choice, star, plus,
  repeat_const, nil, cons, end, option, Rule, RuleTree, null, node, rule_find,
}
use dada_engine.Engine.{Env}
use dada_engine.Resolve.{apply_named}
use dada_engine.Resolve.Yields.{Among}

mutual
  -- `none` stands for NULL, which counts as the empty text in a sequence.
  pub data Produces (env : Env) : Node → Option Text → Type 0 where
    says : {t : Text} → Produces env (literal t) (some t)
    calls :
        {mode : ResMode} {t : Text} {x : Option Text}
        → Called env (rule_find env.rules t) x
        → Produces env (symbol mode t nil) x
    maps :
        {t : Text} {n : Node} {x y : Option Text}
        → Produces env n x
        → apply_named env t x ≡ ok y
        → Produces env (mapping t n) y
    derefs :
        {mode : ResMode} {n : Node} {t : Text} {x : Option Text}
        → Produces env n (some t)
        → Called env (rule_find env.rules t) x
        → Produces env (deref mode n) x
    -- A NULL name is found nowhere, and looked for only in an empty grammar.
    derefs_null :
        {mode : ResMode} {n : Node}
        → Produces env n none
        → env.rules ≡ null
        → Produces env (deref mode n) none
    hides : {n : Node} {x : Option Text} → Produces env n x → Produces env (silence n) none
    chooses :
        {at : ℕ} {options o : Options} {x : Option Text}
        → Among options o
        → Fills env o x
        → Produces env (choice at options) x
    stars :
        {n : Node} {x : Option Text} (k : ℕ)
        → Repeats env n k (or_empty x)
        → Produces env (star n) x
    pluses :
        {n : Node} {x : Option Text} (k : ℕ)
        → Repeats env n (suc k) (or_empty x)
        → Produces env (plus n) x
    repeats :
        {i : ℤ} {n : Node} {x : Option Text}
        → Repeats env n (pos_part i) (or_empty x)
        → Produces env (repeat_const i n) x

  -- A rule that does not exist gives NULL; any other gives a text of one of its options.
  pub data Called (env : Env) : RuleTree → Option Text → Type 0 where
    missing : Called env null none
    takes :
        {r : Rule} {left right : RuleTree} {o : Options} {x : Option Text}
        → Among r.options o
        → Fills env o x
        → Called env (node r left right) x

  -- The texts of an option's atoms, one after the other.
  pub data Fills (env : Env) : Options → Option Text → Type 0 where
    fills :
        {a : ℕ} {atoms : Nodes} {next : Options} {x : Option Text}
        → Sequence env atoms (or_empty x)
        → Fills env (option a atoms next) x

  pub data Sequence (env : Env) : Nodes → Text → Type 0 where
    done : {t : Text} → t ≡ [] → Sequence env nil t
    next :
        {n : Node} {ns : Nodes} {x : Option Text} {t u : Text}
        → Produces env n x
        → Sequence env ns t
        → u ≡ or_empty x ++ t
        → Sequence env (cons n ns) u

  -- The texts of `k` uses of the node, one after the other.
  pub data Repeats (env : Env) : Node → ℕ → Text → Type 0 where
    never : {n : Node} {t : Text} → t ≡ [] → Repeats env n zero t
    again :
        {n : Node} {k : ℕ} {x : Option Text} {t u : Text}
        → Produces env n x
        → Repeats env n k t
        → u ≡ or_empty x ++ t
        → Repeats env n (suc k) u

-- The nodes, options and rules that the language covers.
mutual
  pub data IsPlain : Node → Type 0 where
    plain_literal : {t : Text} → IsPlain (literal t)
    plain_symbol : {mode : ResMode} {t : Text} → IsPlain (symbol mode t nil)
    plain_mapping : {t : Text} {n : Node} → IsPlain n → IsPlain (mapping t n)
    plain_deref : {mode : ResMode} {n : Node} → IsPlain n → IsPlain (deref mode n)
    plain_silence : {n : Node} → IsPlain n → IsPlain (silence n)
    plain_choice :
        {at : ℕ} {options : Options} → ArePlainOptions options → IsPlain (choice at options)
    plain_star : {n : Node} → IsPlain n → IsPlain (star n)
    plain_plus : {n : Node} → IsPlain n → IsPlain (plus n)
    plain_repeat : {i : ℤ} {n : Node} → IsPlain n → IsPlain (repeat_const i n)

  pub data ArePlain : Nodes → Type 0 where
    plain_nil : ArePlain nil
    plain_cons : {n : Node} {ns : Nodes} → IsPlain n → ArePlain ns → ArePlain (cons n ns)

  pub data ArePlainOptions : Options → Type 0 where
    plain_end : ArePlainOptions end
    plain_option :
        {a : ℕ} {atoms : Nodes} {next : Options}
        → ArePlain atoms
        → ArePlainOptions next
        → ArePlainOptions (option a atoms next)

abbrev pub ArePlainRules : RuleTree → Type 0
ArePlainRules null = Unit
ArePlainRules (node r left right) =
    (r.params ≡ []) × ArePlainOptions r.options × ArePlainRules left × ArePlainRules right
