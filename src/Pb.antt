-- ===== src/Pb.antt =====
-- src/pb.c: the interpreter's main program, from the parsed grammar to the printed text, and its
-- command line. The trace is left out, and opening the file that is written to always succeeds.
pub mod Main
pub mod Args
pub mod Output
pub mod Termination
use dada_engine.Prelude.{
  ℕ, Bool, true, false, List, [], ◌∷◌, ◌++◌, Option, none, some, Outcome, ok, exited, fault, leb,
  ◌==◌, ◌||◌, if◌then◌else◌, ◌-◌,
}
use dada_engine.Prelude.Ends.{◌>>=◌}
use dada_engine.Prelude.Int.{ℤ, pos, negsuc, ◌+ℤ◌, eqb_ℤ}
use dada_engine.Text.{Text}
use dada_engine.Text.Decimal.{atoi}
use dada_engine.Rtn.{RuleTree, null, node, rule_find}
use dada_engine.Engine.{Env, Engine}
use dada_engine.Resolve.{resolve_rule}
use dada_engine.Check.{check_rtn}
use dada_engine.Wrap.{print_wrapped}
use dada_engine.Dump.{dump_rules, dump_mappings, dump_transformations}

-- The global variables that the command line sets.
pub record Settings : Type 0 where
  pub start_symbol : Option Text
  pub rseed : Option Text
  pub outfile : Option Text
  pub wrapwidth : ℤ
  pub dump_rtn : Bool
  pub inhibit : Bool
  pub old_probability : Bool
  pub trace : Bool
  pub verbose : Bool
  pub yydebug : Bool

abbrev pub initial_settings : Settings
initial_settings = record {
  start_symbol = none;
  rseed = none;
  outfile = none;
  wrapwidth = pos 80;
  dump_rtn = false;
  inhibit = false;
  old_probability = false;
  trace = false;
  verbose = false;
  yydebug = false;
}

-- `initial_rule`, unless the command line names another.
unfoldable pub start_rule : Settings → Env → RuleTree → Outcome RuleTree
unfolding rule_find
start_rule st env initial = elim st.start_symbol [
  | none ↦ ok initial
  | some name ↦ elim (rule_find env.rules name) [
    | null ↦ exited 1
    | node r left right ↦ ok (node r left right)
  ]
]

-- `fprintf(outfile, "%s\n", t)`
abbrev print_line : Option Text → Outcome Text
print_line none = fault
print_line (some t) = ok (t ++ 10 ∷ [])

unfoldable pub print_result : ℤ → Option Text → Outcome Text
unfolding print_wrapped
print_result wrapwidth t =
    let wrapped = print_wrapped t wrapwidth >>= λ out. ok (out ++ 10 ∷ []) in
    if eqb_ℤ wrapwidth (pos 0) then print_line t else wrapped

-- What `-d` prints on the standard output.
unfoldable pub rtn_dump : Settings → Env → Outcome Text
unfolding dump_rules dump_mappings dump_transformations
rtn_dump st env =
    let dump = dump_rules env.rules >>= λ rules.
    dump_transformations env.transformations >>= λ xforms.
    ok (rules ++ (dump_mappings env.mappings ++ xforms)) in
    if st.dump_rtn then dump else ok []

-- `use_rtn` on a grammar `env.rules` that is there: the dump, and what is written to the output
-- file. `f` is the fuel of the resolution.
unfoldable pub use_grammar : Settings → Env → ℕ → RuleTree → Engine → Outcome (Text × Text)
unfolding rtn_dump check_rtn start_rule resolve_rule print_result
use_grammar st env f initial s = rtn_dump st env >>= λ dump. check_rtn env >>= λ u.
    start_rule st env initial >>= λ rule.
    let result = resolve_rule env f rule s >>= λ r. print_result st.wrapwidth r.0 in
    (if st.inhibit then ok [] else result) >>= λ out. ok (dump, out)

unfoldable pub use_rtn : Settings → Env → ℕ → RuleTree → Engine → Outcome (Text × Text)
unfolding use_grammar
use_rtn st env f initial s =
    let used = use_grammar st env f initial s in
    elim env.rules [ null ↦ ok ([], []) | node r left right ↦ used ]

-- A `char` is signed.
abbrev char_value : ℕ → ℤ
char_value c = if leb 128 c then negsuc (255 - c) else pos c

unfoldable pub sum_chars : Text → ℤ → ℤ
sum_chars [] r = r
sum_chars (c ∷ s) r = sum_chars s (r +ℤ char_value c)

unfoldable pub strtoseed : Text → ℤ
unfolding sum_chars
strtoseed s = if eqb_ℤ (atoi s) (pos 0) then sum_chars s (pos 0) else atoi s

abbrev second_char : Text → ℕ
second_char (a ∷ b ∷ s) = b
second_char _ = 0

-- A switch that takes no word of its own. `d` falls through to `i`.
unfoldable pub flag : ℕ → Settings → Settings
flag c st =
    if c == b'd'
    then record st { dump_rtn = true; inhibit = true }
    else if c == b'i'
    then record st { inhibit = true }
    else if c == b'p'
    then record st { old_probability = true }
    else if c == b't'
    then record st { trace = true }
    else if c == b'v'
    then record st { verbose = true }
    else if c == b'y'
    then record st { yydebug = true }
    else st

-- A switch that takes the next word, which is NULL at the end of the command line.
unfoldable pub option_word : ℕ → Option Text → Settings → Outcome Settings
option_word c none st =
    if c == b'r'
    then ok (record st { rseed = none })
    else if c == b's'
    then ok (record st { start_symbol = none })
    else fault
option_word c (some word) st =
    if c == b'o'
    then ok (record st { outfile = some word })
    else if c == b'r'
    then ok (record st { rseed = some word })
    else if c == b's'
    then ok (record st { start_symbol = some word })
    else ok (record st { wrapwidth = atoi word })

abbrev takes_word : ℕ → Bool
takes_word c = (c == b'o') || (c == b'r') || (c == b's') || (c == b'w')

abbrev is_switch : Text → Bool
is_switch [] = false
is_switch (c ∷ s) = c == b'-'

-- The loop over `argv[1]` up to `argv[argc - 1]`.
unfoldable pub parse_args : List Text → Settings → Outcome Settings
unfolding flag option_word
parse_args [] st = ok st
parse_args (arg ∷ []) st =
    let c = second_char arg in
    let last = option_word c none st in
    if is_switch arg then (if takes_word c then last else ok (flag c st)) else ok st
parse_args (arg ∷ word ∷ rest) st =
    let c = second_char arg in
    let taken = option_word c (some word) st >>= parse_args rest in
    let flagged = parse_args (word ∷ rest) (flag c st) in
    let skipped = parse_args (word ∷ rest) st in
    if is_switch arg then (if takes_word c then taken else flagged) else skipped
