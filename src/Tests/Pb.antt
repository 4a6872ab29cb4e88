-- ===== src/Tests/Pb.antt =====
-- The main program on the sample grammar, and its command line.
use dada_engine.Prelude.{◌≡◌, refl, List, ◌+◌, [], ◌∷◌, ◌++◌, some, true, ok, fault, ℕ, none, arith}
use dada_engine.Prelude.Int.{ℤ, pos, negsuc, ◌+ℤ◌, ◌-ℤ◌}
use dada_engine.Text.{Text, codes, strcmp}
use dada_engine.Text.Decimal.{atoi}
use dada_engine.Strfunc.{dstrcat}
use dada_engine.Rtn.{option_map, node_map, rule_find, rule_inorder_traverse, param_indexof}
use dada_engine.Resolve.{resolve_rule, resolve_top, resolve_atom, resolve_node}
use dada_engine.Resolve.Language.{Called}
use dada_engine.Select.{select_new, draw, walk, reweight, sum_option_weights, incr_option_weight}
use dada_engine.Check.{check_rtn}
use dada_engine.Wrap.Words.{words}
use dada_engine.Pb.{initial_settings, use_rtn, parse_args, strtoseed}
use dada_engine.Pb.Output.{use_rtn_sound}
use dada_engine.Dada.Split.{Switch, seed, start, for_pb}
use dada_engine.Pb.Main.{main_run, Parsed}
use dada_engine.Pb.Args.{given, settings_of, parse_args-for_pb, main_run-seeded}
use dada_engine.Tests.Engine.{grammar_plain}
use dada_engine.Tests.Samples.{env, grammar, fresh}

output : use_rtn initial_settings env 5 grammar fresh ≡ ok ([], codes "hi y " ++ 10 ∷ [])
unfolding use_rtn resolve_rule resolve_atom resolve_top resolve_node rule_find strcmp select_new
    draw walk reweight sum_option_weights incr_option_weight option_map param_indexof node_map
    dstrcat rule_inorder_traverse ◌-ℤ◌
output = refl

use_rtn_sound_example :
    (check_rtn env ≡ ok tt)
    × ((x : Text) × Called env grammar (some x) × (words (codes "hi y " ++ 10 ∷ []) ≡ words x))
use_rtn_sound_example =
    use_rtn_sound initial_settings env 5 80 grammar fresh [] (codes "hi y " ++ 10 ∷ [])
      grammar_plain grammar_plain refl refl refl (omega arith) (λ e. cc) output

seed_of_name : strtoseed (codes "ab") ≡ pos 195
unfolding strtoseed atoi ◌+ℤ◌
seed_of_name = refl

two_flags :
    parse_args (codes "-p" ∷ codes "-d" ∷ []) initial_settings
    ≡ ok (record initial_settings { old_probability = true; dump_rtn = true; inhibit = true })
unfolding parse_args
two_flags = refl

width_missing : parse_args (codes "-w" ∷ []) initial_settings ≡ fault
unfolding parse_args
width_missing = refl

abbrev switches : List Switch
switches = seed (codes "ab") ∷ start (codes "name") ∷ []

parse_args-for_pb_example :
    parse_args (given (for_pb switches)) initial_settings
    ≡ ok (settings_of switches initial_settings)
parse_args-for_pb_example = parse_args-for_pb switches initial_settings

abbrev parsed : Parsed
parsed = record { env = env; initial_rule = grammar; state = fresh }

abbrev from_seed : ℤ → ℕ → ℕ
from_seed (pos k) n = k + n
from_seed (negsuc k) n = k

main_run-seeded_example :
    main_run from_seed none (pos 3) (given (for_pb switches)) 9 parsed
    ≡ main_run from_seed none (pos 4) (given (for_pb switches)) 9 parsed
main_run-seeded_example = main_run-seeded from_seed none switches 9 parsed (pos 3) (pos 4) refl
