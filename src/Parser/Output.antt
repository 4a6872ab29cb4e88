-- ===== src/Parser/Output.antt =====
-- src/parser.y and src/pb.c: from the file to the words that are printed.
use dada_engine.Prelude.{ℕ, List}
use dada_engine.Prelude.Int.{ℤ}
use dada_engine.Text.{Text}
use dada_engine.Rtn.{Node, ResMode, RuleTree, null, node}
use dada_engine.Map.{Regex}
use dada_engine.Machine.World.{World}
use dada_engine.Pb.{Settings}
use dada_engine.Pb.Main.{chosen_seed}
use dada_engine.Parser.Syntax.{Item}
use dada_engine.Parser.{read_file}
use dada_engine.Engine.{Env}

-- A rule at the root.
abbrev IsRule : RuleTree → Type 0
IsRule null = ⊥
IsRule (node r left right) = Unit

module _ (stale : ℕ → ResMode) where
  module _ (srandom : ℤ → ℕ → ℕ) (rand : ℕ → ℕ) (regex : Regex) (raw : Node → Text)
      (items : List Item) where
    -- The grammar of the file, with the random numbers of a seed.
    abbrev pub env_of : Settings → ℤ → Env
    env_of st time =
        (read_file stale (srandom (chosen_seed st.rseed time)) rand st.old_probability regex raw
          items).env
