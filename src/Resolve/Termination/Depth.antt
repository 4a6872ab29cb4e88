-- ===== src/Resolve/Termination/Depth.antt =====
-- Grammars whose rules do not come back to themselves, and how deep they are.
use dada_engine.Prelude.{ℕ, suc, ◌≢◌, List, [], ◌∷◌}
use dada_engine.Prelude.Int.{ℤ}
use dada_engine.Text.{Text}
use dada_engine.Instr.{Instr, invoke}
use dada_engine.Rtn.{
  ResMode, Node, Nodes, Options, literal, symbol, mapping, var_conddef, var_def, var_ref, code,
  silence, repeat_const, repeat_var, nil, cons, end, option, Rule, RuleTree, null, node, rule_find,
}
use dada_engine.Engine.{Env}
use dada_engine.Resolve.Yields.{Among, here, there}

-- The nodes that are resolved within `k` calls. The parameters of a call are resolved before it,
-- and code invokes rules.
mutual
  pub data Shallow (env : Env) : ℕ → Node → Type 0 where
    shallow_literal : {k : ℕ} {t : Text} → Shallow env (suc k) (literal t)
    shallow_symbol :
        {k : ℕ} {mode : ResMode} {t : Text} {ps : Nodes}
        → ShallowRule env k (rule_find env.rules t)
        → ShallowNodes env k ps
        → Shallow env (suc k) (symbol mode t ps)
    shallow_mapping :
        {k : ℕ} {t : Text} {n : Node} → Shallow env k n → Shallow env (suc k) (mapping t n)
    shallow_conddef :
        {k : ℕ} {t : Text} {n : Node} → Shallow env k n → Shallow env (suc k) (var_conddef t n)
    shallow_def :
        {k : ℕ} {t : Text} {n : Node} → Shallow env k n → Shallow env (suc k) (var_def t n)
    shallow_ref : {k : ℕ} {t : Text} → Shallow env (suc k) (var_ref t)
    shallow_code : {k : ℕ} {is : List Instr} → ShallowCode env k is → Shallow env (suc k) (code is)
    shallow_silence : {k : ℕ} {n : Node} → Shallow env k n → Shallow env (suc k) (silence n)
    shallow_const :
        {k : ℕ} {i : ℤ} {n : Node} → Shallow env k n → Shallow env (suc k) (repeat_const i n)
    shallow_var :
        {k : ℕ} {t : Text} {n : Node} → Shallow env k n → Shallow env (suc k) (repeat_var t n)

  pub data ShallowCode (env : Env) : ℕ → List Instr → Type 0 where
    shallow_stop : {k : ℕ} → ShallowCode env k []
    shallow_invoke :
        {k : ℕ} {name : Text} {is : List Instr}
        → ShallowRule env k (rule_find env.rules name)
        → ShallowCode env k is
        → ShallowCode env k (invoke name ∷ is)
    shallow_instr :
        {k : ℕ} {i : Instr} {is : List Instr}
        → ((name : Text) → i ≢ invoke name)
        → ShallowCode env k is
        → ShallowCode env k (i ∷ is)

  pub data ShallowNodes (env : Env) : ℕ → Nodes → Type 0 where
    shallow_nil : {k : ℕ} → ShallowNodes env k nil
    shallow_cons :
        {k : ℕ} {n : Node} {ns : Nodes}
        → Shallow env k n
        → ShallowNodes env k ns
        → ShallowNodes env k (cons n ns)

  pub data ShallowOptions (env : Env) : ℕ → Options → Type 0 where
    shallow_end : {k : ℕ} → ShallowOptions env k end
    shallow_option :
        {k a : ℕ} {atoms : Nodes} {next : Options}
        → ShallowNodes env k atoms
        → ShallowOptions env k next
        → ShallowOptions env k (option a atoms next)

  pub data ShallowRule (env : Env) : ℕ → RuleTree → Type 0 where
    shallow_null : {k : ℕ} → ShallowRule env k null
    shallow_rule :
        {k : ℕ} {r : Rule} {left right : RuleTree}
        → ShallowOptions env k r.options
        → ShallowRule env k (node r left right)

pub Among-Shallow :
    {env : Env} {k : ℕ} {options o : Options}
    → Among options o
    → ShallowOptions env k options
    → ShallowOptions env k o
Among-Shallow here h = h
Among-Shallow (there a) (shallow_option h t) = Among-Shallow a t

-- One call more does no harm.
mutual
  pub Shallow-suc : {env : Env} {k : ℕ} {n : Node} → Shallow env k n → Shallow env (suc k) n
  Shallow-suc shallow_literal = shallow_literal
  Shallow-suc (shallow_symbol r ps) = shallow_symbol (rule-suc r) (ShallowNodes-suc ps)
  Shallow-suc (shallow_mapping p) = shallow_mapping (Shallow-suc p)
  Shallow-suc (shallow_conddef p) = shallow_conddef (Shallow-suc p)
  Shallow-suc (shallow_def p) = shallow_def (Shallow-suc p)
  Shallow-suc shallow_ref = shallow_ref
  Shallow-suc (shallow_code p) = shallow_code (code-suc p)
  Shallow-suc (shallow_silence p) = shallow_silence (Shallow-suc p)
  Shallow-suc (shallow_const p) = shallow_const (Shallow-suc p)
  Shallow-suc (shallow_var p) = shallow_var (Shallow-suc p)

  code-suc :
      {env : Env} {k : ℕ} {is : List Instr} → ShallowCode env k is → ShallowCode env (suc k) is
  code-suc shallow_stop = shallow_stop
  code-suc (shallow_invoke r p) = shallow_invoke (rule-suc r) (code-suc p)
  code-suc (shallow_instr h p) = shallow_instr h (code-suc p)

  pub ShallowNodes-suc :
      {env : Env} {k : ℕ} {ns : Nodes} → ShallowNodes env k ns → ShallowNodes env (suc k) ns
  ShallowNodes-suc shallow_nil = shallow_nil
  ShallowNodes-suc (shallow_cons p ps) = shallow_cons (Shallow-suc p) (ShallowNodes-suc ps)

  options-suc :
      {env : Env} {k : ℕ} {o : Options} → ShallowOptions env k o → ShallowOptions env (suc k) o
  options-suc shallow_end = shallow_end
  options-suc (shallow_option p ps) = shallow_option (ShallowNodes-suc p) (options-suc ps)

  rule-suc : {env : Env} {k : ℕ} {r : RuleTree} → ShallowRule env k r → ShallowRule env (suc k) r
  rule-suc shallow_null = shallow_null
  rule-suc (shallow_rule p) = shallow_rule (options-suc p)
