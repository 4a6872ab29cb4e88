-- ===== src/Tests/Runs.antt =====
-- A grammar with a variable, a parameter and embedded code.
use dada_engine.Prelude.{◌≡◌, ◌≢◌, timeout, refl, ◌++◌, [], ◌∷◌, Option, some, Outcome, ok}
use dada_engine.Prelude.Int.{◌+ℤ◌, ◌-ℤ◌}
use dada_engine.Text.{Text, codes, strcmp}
use dada_engine.Strfunc.{dstrcat}
use dada_engine.Instr.{push, emit}
use dada_engine.Variables.{str, var_fetch, var_lookup}
use dada_engine.Rtn.{
  plain, literal, symbol, silence, code, choice, var_def, var_ref, nil, cons, end, option, RuleTree,
  null, node, option_map, option_length, option_nth, node_map, rule_find, rule_inorder_traverse,
  param_indexof,
}
use dada_engine.Engine.{Env, Engine}
use dada_engine.Select.{select_new, draw, walk, reweight, sum_option_weights, incr_option_weight}
use dada_engine.Resolve.{resolve_rule, resolve_top, resolve_node, resolve_atom, resolve_choice}
use dada_engine.Resolve.Passing.{resolve_params, resolve_param}
use dada_engine.Machine.{exec_stream, exec_instr, push_cell, temp_pop}
use dada_engine.Pb.{initial_settings, use_rtn}
use dada_engine.Map.Subst.{MatchesInside}
use dada_engine.Resolve.Termination.Depth.{
  ShallowRule, shallow_rule, shallow_option, shallow_end, shallow_cons, shallow_nil,
  shallow_literal, shallow_symbol, shallow_null, shallow_silence, shallow_def, shallow_ref,
  shallow_code, shallow_instr, shallow_stop,
}
use dada_engine.Resolve.Termination.{resolve_rule_terminates}
use dada_engine.Pb.Termination.{use_rtn_terminates}
use dada_engine.Tests.Samples.{env, fresh, no_regex}

-- main: ?x="bob" greet(x) ; greet(who): "hi " who ;
abbrev first_rule : RuleTree
first_rule =
    node
      (record {
        symbol = codes "main";
        options =
            option 3
              (cons (silence (var_def (codes "x") (literal (codes "bob")))) (
                cons (symbol plain (codes "greet") (cons (var_ref (codes "x")) nil))
                  (cons (code (push (str (some (codes "!"))) ∷ emit ∷ [])) nil)))
              end;
        params = [];
        last_choice = 103;
      })
      null null

abbrev rules : RuleTree
rules =
    node
      (record {
        symbol = codes "greet";
        options =
            option 4 (cons (literal (codes "hi ")) (cons (symbol plain (codes "who") nil) nil)) end;
        params = codes "who" ∷ [];
        last_choice = 104;
      })
      null first_rule

abbrev greeting_env : Env
greeting_env = record env { rules = rules }

abbrev run : Outcome (Option Text × Engine)
run = resolve_rule greeting_env 5 first_rule fresh

-- The state that a run ends in.
final : Outcome (Option Text × Engine) → Engine
final (ok (t, s)) = s
final _ = fresh

-- main: greet(["al" | "bob"]) ;
abbrev inline_rule : RuleTree
inline_rule =
    node
      (record {
        symbol = codes "main";
        options =
            option 3
              (cons
                (symbol plain (codes "greet") (
                  cons
                    (choice 105 (
                      option 5 (cons (literal (codes "al")) nil)
                        (option 6 (cons (literal (codes "bob")) nil) end)))
                    nil))
                nil)
              end;
        params = [];
        last_choice = 103;
      })
      null null

abbrev inline_run : Outcome (Option Text × Engine)
inline_run = resolve_rule greeting_env 5 inline_rule fresh

greeted_inline : inline_run ≡ ok (some (codes "hi bob"), final inline_run)
unfolding final resolve_rule resolve_atom resolve_top resolve_node rule_find strcmp select_new draw
    walk reweight sum_option_weights incr_option_weight option_map param_indexof node_map dstrcat
    resolve_params resolve_param resolve_choice option_length option_nth ◌+ℤ◌
greeted_inline = refl

greeting_printed :
    use_rtn initial_settings greeting_env 5 first_rule fresh ≡ ok ([], codes "hi bob! " ++ 10 ∷ [])
unfolding use_rtn resolve_rule resolve_atom resolve_top resolve_node rule_find strcmp select_new
    draw walk reweight sum_option_weights incr_option_weight option_map param_indexof node_map
    dstrcat resolve_params resolve_param exec_stream exec_instr push_cell temp_pop var_fetch
    var_lookup rule_inorder_traverse ◌+ℤ◌ ◌-ℤ◌
greeting_printed = refl

-- There is no match that could lie outside.
no_regex-MatchesInside : (from : Text) → MatchesInside no_regex from
no_regex-MatchesInside from s b so eo e = cc

first_shallow : ShallowRule greeting_env 3 first_rule
unfolding rule_find strcmp
first_shallow = shallow_rule (
    shallow_option
      (shallow_cons (shallow_silence (shallow_def shallow_literal)) (
        shallow_cons
          (shallow_symbol
            (shallow_rule (
              shallow_option
                (shallow_cons shallow_literal
                  (shallow_cons (shallow_symbol shallow_null shallow_nil) shallow_nil))
                shallow_end))
            (shallow_cons shallow_ref shallow_nil))
          (shallow_cons
            (shallow_code (shallow_instr (λ n e. cc) (shallow_instr (λ n e. cc) shallow_stop)))
            shallow_nil)))
      shallow_end)

resolve_rule_terminates_example : resolve_rule greeting_env 3 first_rule fresh ≢ timeout
resolve_rule_terminates_example =
    resolve_rule_terminates greeting_env refl no_regex-MatchesInside 3 first_rule fresh
      first_shallow

use_rtn_terminates_example : use_rtn initial_settings greeting_env 3 first_rule fresh ≢ timeout
use_rtn_terminates_example =
    use_rtn_terminates initial_settings greeting_env 3 80 first_rule fresh refl
      no_regex-MatchesInside refl refl first_shallow
