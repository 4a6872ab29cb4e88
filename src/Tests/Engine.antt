-- ===== src/Tests/Engine.antt =====
-- The choice of options, and resolution.
use dada_engine.Prelude.{
  zero, suc, false, ◌≤◌, ℕ, ◌<◌, ◌≡◌, ◌≢◌, refl, Option, some, Outcome, ok, arith,
}
use dada_engine.Prelude.Int.{pos}
use dada_engine.Text.{Text, codes, strcmp}
use dada_engine.Strfunc.{dstrcat}
use dada_engine.Rtn.{
  Options, option, nil, literal, cons, end, option_length, option_nth, option_map, node_map,
  rule_find, param_indexof,
}
use dada_engine.Engine.{Engine, update}
use dada_engine.Select.{
  walk, select_new, select_old, reweight, draw, sum_option_weights, incr_option_weight,
}
use dada_engine.Select.Walk.{walk_lands}
use dada_engine.Select.Crowded.{heavy, choices, choices-overflow}
use dada_engine.Select.Weights.{has, Distinct, reweighted, head_address, select_new_lem}
use dada_engine.Select.Old.{select_old_lem}
use dada_engine.Resolve.{resolve_rule, resolve_top, resolve_node, resolve_atom}
use dada_engine.Resolve.Language.{
  Called, ArePlainRules, plain_end, plain_option, plain_cons, plain_nil, plain_literal,
  plain_symbol,
}
use dada_engine.Resolve.Sound.{resolve_rule_sound}
use dada_engine.Machine.Valid.{IsValid}
use dada_engine.Resolve.Valid.{resolve_rule-IsValid}
use dada_engine.Tests.Samples.{names, grammar, env, fresh}

run : Outcome (Option Text × Engine)
unfolding resolve_rule resolve_atom resolve_top resolve_node rule_find strcmp select_new draw walk
    reweight sum_option_weights incr_option_weight option_map param_indexof node_map dstrcat
run = resolve_rule env 5 grammar fresh

-- The state that a run ends in.
final : Outcome (Option Text × Engine) → Engine
final (ok (t, s)) = s
final _ = fresh

greeted : run ≡ ok (some (codes "hi y"), final run)
unfolding run final
greeted = refl

pub grammar_plain : ArePlainRules grammar
grammar_plain = (
  refl,
  plain_option (plain_cons plain_literal (plain_cons plain_symbol plain_nil)) plain_end,
  tt,
  (
    refl,
    plain_option (plain_cons plain_literal plain_nil)
        (plain_option (plain_cons plain_literal plain_nil) plain_end),
    tt,
    tt,
  ),
)

resolve_rule_sound_example : Called env grammar (some (codes "hi y"))
unfolding run final
resolve_rule_sound_example =
    resolve_rule_sound env 5 grammar fresh (final run) (some (codes "hi y")) grammar_plain
      grammar_plain greeted

start-IsValid : IsValid fresh
start-IsValid = record { fits = omega arith; ordered = tt; positive = λ o. omega arith }

resolve_rule-IsValid_example : IsValid (final run)
unfolding run
resolve_rule-IsValid_example =
    resolve_rule-IsValid env 5 grammar fresh (final run) (some (codes "hi y")) start-IsValid greeted

select_new_lem_example :
    (i : ℕ) × (i < option_length names)
    × (select_new env names fresh
        ≡ ok (
          option_nth names i,
          record fresh {
            randweight = reweighted names (head_address (option_nth names i)) fresh.randweight;
            randoms = 1;
          },
        ))
select_new_lem_example =
    select_new_lem env names fresh (omega arith) (refl, (refl, tt)) (omega arith) (omega arith)

select_old_lem_example :
    (c : ℕ) × (j : ℕ) × (c < option_length names)
    × (1 < option_length names → pos c ≢ fresh.last_choice 101)
    × (select_old env 3 names 101 fresh
        ≡ ok (
          option_nth names c,
          record fresh { randoms = j; last_choice = update fresh.last_choice 101 (pos c) },
        ))
unfolding option_length
select_old_lem_example = select_old_lem env 3 names 101 fresh 0 (omega arith) (omega arith) refl

walk_lands_example : walk (λ o. 4) names 5 ≡ ok (option_nth names 1)
unfolding option_nth
walk_lands_example =
    walk_lands (λ o. 4) names 1 5 2 (cons (literal (codes "y")) nil) end refl (omega arith)
      (omega arith)

-- `n` options that have no atoms.
abbrev many : ℕ → Options
many zero = end
many (suc n) = option n nil (many n)

many-has : (n x : ℕ) → n ≤ x → has (many n) x ≡ false
many-has zero x h = refl
many-has (suc n) x h = ground (arith, many-has n x)

many-Distinct : (n : ℕ) → Distinct (many n)
many-Distinct zero = tt
many-Distinct (suc n) = (many-has n n (omega arith), many-Distinct n)

many-heavy : (n : ℕ) → n ≤ heavy 4 fresh.randweight (many n)
many-heavy zero = omega arith
many-heavy (suc n) = omega (arith, many-heavy n)

-- Sixty options cannot be chosen 43 times.
choices-overflow_example : choices env (many 60) 43 fresh ≢ ok (tt, fresh)
choices-overflow_example =
    choices-overflow env (many 60) (many-Distinct 60) 42 60 4 fresh (tt, fresh) (many-heavy 60)
      (omega arith)
