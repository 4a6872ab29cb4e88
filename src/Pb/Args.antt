-- ===== src/Pb/Args.antt =====
-- src/dada.c and src/pb.c: the words that the front end hands to the engine.
use dada_engine.Prelude.{
  ℕ, ◌≡◌, refl, Bool, true, false, ◌∙◌, ap, arith, List, [], ◌∷◌, Option, none, some, ok,
}
use dada_engine.Prelude.Int.{ℤ}
use dada_engine.Text.{Text, codes}
use dada_engine.Dada.Split.{Switch, define, outfile, seed, start, dump, for_pb}
use dada_engine.Pb.{Settings, use_rtn, parse_args}
use dada_engine.Pb.Main.{from_environment, chosen_seed, Parsed, main_run}

-- The words of a vector up to its first NULL.
abbrev pub given : List (Option Text) → List Text
given [] = []
given (none ∷ args) = []
given (some word ∷ args) = word ∷ given args

-- What each switch is for, one after the other.
abbrev pub settings_of : List Switch → Settings → Settings
settings_of [] st = st
settings_of (define t ∷ sw) st = settings_of sw st
settings_of (outfile t ∷ sw) st = settings_of sw (record st { outfile = some t })
settings_of (seed t ∷ sw) st = settings_of sw (record st { rseed = some t })
settings_of (start t ∷ sw) st = settings_of sw (record st { start_symbol = some t })
settings_of (dump ∷ sw) st = settings_of sw (record st { dump_rtn = true; inhibit = true })

dump_flag :
    (args : List Text) (st : Settings)
    → parse_args (codes "-d" ∷ args) st
      ≡ parse_args args (record st { dump_rtn = true; inhibit = true })
unfolding parse_args
dump_flag [] st = refl
dump_flag (word ∷ args) st = refl

-- Of the switches that the front end takes, the engine is handed those that concern it, and sets
-- what each of them is for; where two set the same, the later one counts.
pub parse_args-for_pb :
    (sw : List Switch) (st : Settings) → parse_args (given (for_pb sw)) st ≡ ok (settings_of sw st)
unfolding parse_args
parse_args-for_pb [] st = refl
parse_args-for_pb (define t ∷ sw) st = parse_args-for_pb sw st
parse_args-for_pb (outfile t ∷ sw) st = parse_args-for_pb sw (record st { outfile = some t })
parse_args-for_pb (seed t ∷ sw) st = parse_args-for_pb sw (record st { rseed = some t })
parse_args-for_pb (start t ∷ sw) st = parse_args-for_pb sw (record st { start_symbol = some t })
parse_args-for_pb (dump ∷ sw) st =
    dump_flag (given (for_pb sw)) st
    ∙ parse_args-for_pb sw (record st { dump_rtn = true; inhibit = true })

abbrev pub has_seed : List Switch → Bool
has_seed [] = false
has_seed (seed t ∷ sw) = true
has_seed (switch ∷ sw) = has_seed sw

rseed-kept :
    (sw : List Switch) (st : Settings) (r : Text)
    → st.rseed ≡ some r
    → (r' : Text) × ((settings_of sw st).rseed ≡ some r')
rseed-kept [] st r h = (r, h)
rseed-kept (define t ∷ sw) st r h = rseed-kept sw st r h
rseed-kept (outfile t ∷ sw) st r h = rseed-kept sw (record st { outfile = some t }) r h
rseed-kept (seed t ∷ sw) st r h = rseed-kept sw (record st { rseed = some t }) t refl
rseed-kept (start t ∷ sw) st r h = rseed-kept sw (record st { start_symbol = some t }) r h
rseed-kept (dump ∷ sw) st r h = rseed-kept sw (record st { dump_rtn = true; inhibit = true }) r h

rseed-has_seed :
    (sw : List Switch) (st : Settings)
    → has_seed sw ≡ true
    → (r : Text) × ((settings_of sw st).rseed ≡ some r)
rseed-has_seed [] st h = absurd (ground arith)
rseed-has_seed (define t ∷ sw) st h = rseed-has_seed sw st h
rseed-has_seed (outfile t ∷ sw) st h = rseed-has_seed sw (record st { outfile = some t }) h
rseed-has_seed (seed t ∷ sw) st h = rseed-kept sw (record st { rseed = some t }) t refl
rseed-has_seed (start t ∷ sw) st h = rseed-has_seed sw (record st { start_symbol = some t }) h
rseed-has_seed (dump ∷ sw) st h =
    rseed-has_seed sw (record st { dump_rtn = true; inhibit = true }) h

chosen_seed-some :
    (o : Option Text) (r : Text) (t1 t2 : ℤ) → o ≡ some r → chosen_seed o t1 ≡ chosen_seed o t2
chosen_seed-some o r t1 t2 h = rw h refl

-- If a seed is among the switches that the front end takes, a run of the engine with the words that
-- it is handed for them ends alike and prints the same text at any two times.
pub main_run-seeded :
    (srandom : ℤ → ℕ → ℕ) (columns : Option Text) (sw : List Switch) (f : ℕ) (parsed : Parsed)
    (time time' : ℤ)
    → has_seed sw ≡ true
    → main_run srandom columns time (given (for_pb sw)) f parsed
      ≡ main_run srandom columns time' (given (for_pb sw)) f parsed
unfolding main_run
main_run-seeded srandom columns sw f parsed time time' h =
    let (r, e) = rseed-has_seed sw (from_environment columns) h in
    let st = settings_of sw (from_environment columns) in
    rw (parse_args-for_pb sw (from_environment columns)) (
      ap
        (λ seed'.
          use_rtn st
            (record parsed.env { random = srandom seed'; old_probability = st.old_probability }) f
            parsed.initial_rule parsed.state)
        (chosen_seed-some st.rseed r time time' e))
