-- ===== src/Tests/Samples.antt =====
-- A small grammar, its weights, and a state to start from.
use dada_engine.Prelude.{[], none, false}
use dada_engine.Prelude.Int.{negsuc}
use dada_engine.Text.{Text, codes}
use dada_engine.Variables
use dada_engine.Rtn.{
  Node, plain, literal, symbol, nil, cons, end, option, Options, RuleTree, null, node,
}
use dada_engine.Map.{Regex}
use dada_engine.Engine.{Env, Engine}

-- Every structure begins with a zero byte.
abbrev pub no_bytes : Node → Text
no_bytes n = []

abbrev pub no_regex : Regex
no_regex = record { regcomp = λ s. false; regexec = λ s t b. none }

abbrev pub names : Options
names = option 1 (cons (literal (codes "x")) nil) (option 2 (cons (literal (codes "y")) nil) end)

-- greeting: "hi " name ; name: "x" | "y" ;
abbrev pub grammar : RuleTree
grammar =
    node
      (record {
        symbol = codes "greeting";
        options =
            option 0 (cons (literal (codes "hi ")) (cons (symbol plain (codes "name") nil) nil))
              end;
        params = [];
        last_choice = 100;
      })
      null
      (node (record { symbol = codes "name"; options = names; params = []; last_choice = 101 }) null
        null)

abbrev pub env : Env
env = record {
  random = λ n. 5;
  rand = λ n. 0;
  rules = grammar;
  mappings = [];
  transformations = [];
  old_probability = false;
  regex = no_regex;
  raw = no_bytes;
}

abbrev pub fresh : Engine
fresh = record {
  vars = Variables.null;
  stack = [];
  randweight = λ o. 4;
  last_choice = λ o. negsuc 0;
  randoms = 0;
  rands = 0;
}
