-- ===== src/Resolve/Runs.antt =====
-- What a grammar can do: a rule runs from the variables and the stack to a text and the variables
-- and the stack, with any option, any number of rounds of a star, and no weights, last choices,
-- random numbers or fuel.
pub mod Formals
pub mod Params
pub mod Choice
pub mod Calls
pub mod Code
pub mod Sound
use dada_engine.Prelude.{
  ℕ, zero, suc, ◌≤◌, ◌≡◌, List, [], ◌∷◌, ◌++◌, Option, none, some, ok, length, get_elem?,
}
use dada_engine.Prelude.Int.{ℤ, pos, negsuc, pos_part}
use dada_engine.Text.{Text}
use dada_engine.Text.Decimal.{atoi}
use dada_engine.Strfunc.{or_empty}
use dada_engine.Variables.{str, var_fetch, var_put}
use dada_engine.Instr.{Instr, invoke}
use dada_engine.Rtn.{
  ResMode, Node, Nodes, Options, literal, symbol, mapping, deref, var_conddef, var_def, var_ref,
  code, silence, choice, star, plus, repeat_const, repeat_var, nil, cons, end, option,
  param_indexof, Rule, RuleTree, null, node, rule_find,
}
use dada_engine.Engine.{Env}
use dada_engine.Machine.World.{World, Pushes, Steps}
use dada_engine.Resolve.{or_undefined, apply_named}
use dada_engine.Resolve.Passing.{Cooked, off_end, data_of}
use dada_engine.Resolve.Yields.{Among}
use dada_engine.Resolve.Runs.Formals.{
  Supplies, given, off, params_of, params_in, FormalsOf, IsNoFormal,
}

mutual
  -- With the parameters `fs`, their values `cs`, and the variables and the stack of `v`, the node
  -- gives the text and leaves those of the second world.
  pub data Runs (env : Env) : Node → List Text → Cooked → World → Option Text → World → Type 0 where
    says :
        {t : Text} {fs : List Text} {cs : Cooked} {v : World}
        → Runs env (literal t) fs cs v (some t) v
    stands :
        {mode : ResMode} {t : Text} {ps : Nodes} {fs : List Text} {cs : Cooked} {v : World} {i : ℕ}
        {x : Option Text}
        → param_indexof fs t ≡ pos i
        → Supplies cs i x
        → Runs env (symbol mode t ps) fs cs v x v
    calls :
        {mode : ResMode} {t : Text} {ps : Nodes} {fs : List Text} {cs : Cooked} {v w : World}
        {x : Option Text}
        → param_indexof fs t ≡ negsuc 0
        → Called env (rule_find env.rules t) ps fs cs v x w
        → Runs env (symbol mode t ps) fs cs v x w
    maps :
        {t : Text} {n : Node} {fs : List Text} {cs : Cooked} {v w : World} {x y : Option Text}
        → Runs env n fs cs v x w
        → apply_named env t x ≡ ok y
        → Runs env (mapping t n) fs cs v y w
    derefs :
        {mode : ResMode} {n : Node} {fs : List Text} {cs : Cooked} {v w u : World} {t : Text}
        {x : Option Text}
        → Runs env n fs cs v (some t) w
        → Called env (rule_find env.rules t) nil fs cs w x u
        → Runs env (deref mode n) fs cs v x u
    derefs_null :
        {mode : ResMode} {n : Node} {fs : List Text} {cs : Cooked} {v w : World}
        → Runs env n fs cs v none w
        → env.rules ≡ null
        → Runs env (deref mode n) fs cs v none w
    keeps_value :
        {t : Text} {n : Node} {fs : List Text} {cs : Cooked} {v : World} {y : Text}
        → var_fetch v.vars t ≡ some y
        → Runs env (var_conddef t n) fs cs v (some y) v
    gives_value :
        {t : Text} {n : Node} {fs : List Text} {cs : Cooked} {v w : World} {y : Text}
        → var_fetch v.vars t ≡ none
        → Runs env n fs cs v (some y) w
        → Runs env
            (var_conddef t n)
            fs
            cs
            v
            (some y)
            (record w { vars = var_put w.vars t (some y) })
    sets_value :
        {t : Text} {n : Node} {fs : List Text} {cs : Cooked} {v w : World} {x : Option Text}
        → Runs env n fs cs v x w
        → Runs env
            (var_def t n)
            fs
            cs
            v
            (some (or_undefined x))
            (record w { vars = var_put w.vars t (some (or_undefined x)) })
    reads_value :
        {t : Text} {fs : List Text} {cs : Cooked} {v : World} {y : Text}
        → var_fetch v.vars t ≡ some y
        → Runs env (var_ref t) fs cs v (some y) v
    hides :
        {n : Node} {fs : List Text} {cs : Cooked} {v w : World} {x : Option Text}
        → Runs env n fs cs v x w
        → Runs env (silence n) fs cs v none w
    chooses :
        {at : ℕ} {options o : Options} {fs : List Text} {cs : Cooked} {v w : World}
        {x : Option Text}
        → Among options o
        → Fills env o fs cs v x w
        → Runs env (choice at options) fs cs v x w
    stars :
        {n : Node} {fs : List Text} {cs : Cooked} {v w : World} {x : Option Text} (k : ℕ)
        → Repeats env n k fs cs v (or_empty x) w
        → Runs env (star n) fs cs v x w
    pluses :
        {n : Node} {fs : List Text} {cs : Cooked} {v w : World} {x : Option Text} (k : ℕ)
        → Repeats env n (suc k) fs cs v (or_empty x) w
        → Runs env (plus n) fs cs v x w
    repeats :
        {i : ℤ} {n : Node} {fs : List Text} {cs : Cooked} {v w : World} {x : Option Text}
        → Repeats env n (pos_part i) fs cs v (or_empty x) w
        → Runs env (repeat_const i n) fs cs v x w
    repeats_value :
        {t y : Text} {n : Node} {fs : List Text} {cs : Cooked} {v w : World} {x : Option Text}
        → var_fetch v.vars t ≡ some y
        → Repeats env n (pos_part (atoi y)) fs cs v (or_empty x) w
        → Runs env (repeat_var t n) fs cs v x w
    computes :
        {is : List Instr} {fs : List Text} {cs : Cooked} {v w : World} {x : Option Text}
        → Codes env is v x w
        → Runs env (code is) fs cs v x w

  -- The instructions are done in turn, up to the first that gives a text. The result of a rule that
  -- is invoked is pushed.
  pub data Codes (env : Env) : List Instr → World → Option Text → World → Type 0 where
    stops : {v : World} → Codes env [] v none v
    returns :
        {i : Instr} {is : List Instr} {v w : World} {t : Text}
        → Steps i v (some t) w
        → Codes env (i ∷ is) v (some t) w
    steps :
        {i : Instr} {is : List Instr} {v w u : World} {x : Option Text}
        → Steps i v none w
        → Codes env is w x u
        → Codes env (i ∷ is) v x u
    invokes :
        {name : Text} {is : List Instr} {v w u z : World} {t x : Option Text}
        → Called env (rule_find env.rules name) nil [] [] v t w
        → Pushes (str t) w u
        → Codes env is u x z
        → Codes env (invoke name ∷ is) v x z

  -- A call of a rule with the nodes `ps` as parameters: they are passed first, and then an option
  -- is filled. A rule that does not exist gives NULL, and passes nothing.
  pub data Called (env : Env)
      : RuleTree → Nodes → List Text → Cooked → World → Option Text → World → Type 0 where
    missing :
        {ps : Nodes} {fs : List Text} {cs : Cooked} {v : World} → Called env null ps fs cs v none v
    takes :
        {r : Rule} {left right : RuleTree} {ps : Nodes} {fs : List Text} {cs ds : Cooked}
        {v w u : World} {o : Options} {x : Option Text}
        → Actuals env ps fs cs v ds w
        → Among r.options o
        → Fills env o r.params ds w x u
        → Called env (node r left right) ps fs cs v x u

  -- The texts of an option's atoms, one after the other.
  pub data Fills (env : Env)
      : Options → List Text → Cooked → World → Option Text → World → Type 0 where
    fills :
        {a : ℕ} {atoms : Nodes} {next : Options} {fs : List Text} {cs : Cooked} {v w : World}
        {x : Option Text}
        → Sequence env atoms fs cs v (or_empty x) w
        → Fills env (option a atoms next) fs cs v x w

  pub data Sequence (env : Env) : Nodes → List Text → Cooked → World → Text → World → Type 0 where
    done :
        {fs : List Text} {cs : Cooked} {v : World} {t : Text}
        → t ≡ []
        → Sequence env nil fs cs v t v
    one_atom :
        {n : Node} {ns : Nodes} {fs : List Text} {cs : Cooked} {v w u : World} {x : Option Text}
        {t t' : Text}
        → Runs env n fs cs v x w
        → Sequence env ns fs cs w t u
        → t' ≡ or_empty x ++ t
        → Sequence env (cons n ns) fs cs v t' u

  -- The texts of `k` uses of the node, one after the other.
  pub data Repeats (env : Env) : Node → ℕ → List Text → Cooked → World → Text → World → Type 0 where
    never :
        {n : Node} {fs : List Text} {cs : Cooked} {v : World} {t : Text}
        → t ≡ []
        → Repeats env n zero fs cs v t v
    again :
        {n : Node} {k : ℕ} {fs : List Text} {cs : Cooked} {v w u : World} {x : Option Text}
        {t t' : Text}
        → Runs env n fs cs v x w
        → Repeats env n k fs cs w t u
        → t' ≡ or_empty x ++ t
        → Repeats env n (suc k) fs cs v t' u

  -- The values that nodes have as parameters of a call, from the first to the last.
  pub data Actuals (env : Env) : Nodes → List Text → Cooked → World → Cooked → World → Type 0 where
    no_more : {fs : List Text} {cs : Cooked} {v : World} → Actuals env nil fs cs v [] v
    one_more :
        {n : Node} {ns : Nodes} {fs : List Text} {cs ds : Cooked} {v w u : World} {x : Option Text}
        → Passes env n fs cs v x w
        → Actuals env ns fs cs w ds u
        → Actuals env (cons n ns) fs cs v (x ∷ ds) u

  -- A parameter of the caller is handed on. Any other node runs with its own parameters, which are
  -- passed first, under the names of those of the rule that has its name.
  pub data Passes (env : Env)
      : Node → List Text → Cooked → World → Option Text → World → Type 0 where
    hands_on :
        {n : Node} {fs : List Text} {cs : Cooked} {v : World} {t : Text} {i : ℕ} {x : Option Text}
        → data_of env n ≡ some t
        → param_indexof fs t ≡ pos i
        → Supplies cs i x
        → Passes env n fs cs v x v
    passes :
        {n : Node} {fs gs : List Text} {cs ds : Cooked} {v w u : World} {x : Option Text}
        → IsNoFormal fs (data_of env n)
        → FormalsOf env.rules (data_of env n) gs
        → Actuals env (params_of n) fs cs v ds w
        → Runs env n gs ds w x u
        → Passes env n fs cs v x u
