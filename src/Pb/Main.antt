-- ===== src/Pb/Main.antt =====
-- `main` of src/pb.c. The environment's COLUMNS, the time, the random numbers that a seed gives, and
-- what the actions of src/parser.y hand to `use_rtn` are parameters.
use dada_engine.Prelude.{ℕ, List, Option, none, some, Outcome}
use dada_engine.Prelude.Ends.{◌>>=◌}
use dada_engine.Prelude.Int.{ℤ}
use dada_engine.Text.{Text}
use dada_engine.Text.Decimal.{atoi}
use dada_engine.Rtn.{RuleTree}
use dada_engine.Engine.{Env, Engine}
use dada_engine.Pb.{Settings, initial_settings, parse_args, strtoseed, use_rtn}

-- The settings before the command line is read.
abbrev pub from_environment : Option Text → Settings
from_environment none = initial_settings
from_environment (some columns) = record initial_settings { wrapwidth = atoi columns }

-- `rseed?strtoseed(rseed):time(NULL)`
abbrev pub chosen_seed : Option Text → ℤ → ℤ
chosen_seed none time = time
chosen_seed (some rseed) time = strtoseed rseed

-- What the parser calls `use_rtn` with: the grammar, its first rule, and the fresh state.
pub record Parsed : Type 0 where
  pub env : Env
  pub initial_rule : RuleTree
  pub state : Engine

module _ (srandom : ℤ → ℕ → ℕ) where
  unfoldable pub main_run : Option Text → ℤ → List Text → ℕ → Parsed → Outcome (Text × Text)
  unfolding parse_args use_rtn
  main_run columns time args f parsed = parse_args args (from_environment columns) >>= λ st.
      let env = record parsed.env {
        random = srandom (chosen_seed st.rseed time);
        old_probability = st.old_probability;
      } in
      use_rtn st env f parsed.initial_rule parsed.state
