-- ===== src/Dada.antt =====
-- src/dada.c (src/dada_pipe.c is the same file): the command line of the front end, split into
-- those of the preprocessor and of the engine, and the course of the parent process. `NULL` in an
-- argument vector is `none`. A read of `argv` past its end and an entry written past the end of an
-- allocated vector are faults.
pub mod Split
use dada_engine.Prelude.{
  ℕ, ◌+◌, ◌*◌, Bool, true, false, List, [], ◌∷◌, ◌++◌, Option, none, some, Outcome, ok, exited,
  fault, length, leb, ◌==◌, ◌||◌, if◌then◌else◌, map,
}
use dada_engine.Prelude.Ends.{◌>>=◌}
use dada_engine.Text.{Text, codes}

abbrev pub Argv : Type 0
Argv = List (Option Text)

abbrev pub preprocessor : Text
preprocessor = codes "cpp"

abbrev pub pb_engine : Text
pb_engine = codes "pb"

-- `argv[i][0]` and `argv[i][1]`.
abbrev pub first_char : Text → ℕ
first_char [] = 0
first_char (c ∷ s) = c

abbrev pub second_char : Text → ℕ
second_char (a ∷ b ∷ s) = b
second_char s = 0

-- `v[n++] = arg` in a vector of the given size.
unfoldable pub store : ℕ → Argv → Option Text → Outcome Argv
store size v arg = if leb (length v + 1) size then ok (v ++ arg ∷ []) else fault

-- The sizes that are allocated for the two vectors.
pub record Sizes : Type 0 where
  pub cpp : ℕ
  pub pb : ℕ

abbrev pub allocated : ℕ → Sizes
allocated argc = record { cpp = argc * 2 + 1; pb = argc }

-- `cppargv`, `pbargv` and what is left of `argv`.
pub record Vectors : Type 0 where
  pub cppargv : Argv
  pub pbargv : Argv
  pub left : List Text

-- The loop over the switches. It ends at a word that does not begin with `-`, or at `--`, which it
-- leaves in place; at the end of `argv` it follows NULL.
unfoldable pub parse_switches : Sizes → List Text → Argv → Argv → Outcome Vectors
unfolding store
parse_switches sizes [] cpp pb = fault
parse_switches sizes (arg ∷ []) cpp pb =
    let c = second_char arg in
    let done = ok (record { cppargv = cpp; pbargv = pb; left = arg ∷ [] }) in
    if first_char arg == b'-' then (if c == b'-' then done else fault) else done
parse_switches sizes (arg ∷ word ∷ rest) cpp pb =
    let c = second_char arg in
    let define =
      store sizes.cpp cpp (some arg) >>= λ cpp'. parse_switches sizes (word ∷ rest) cpp' pb in
    let pair = store sizes.pb pb (some arg) >>= λ pb'.
    store sizes.pb pb' (some word) >>= λ pb''. parse_switches sizes rest cpp pb'' in
    let dump = store sizes.pb pb (some arg) >>= λ pb'. parse_switches sizes (word ∷ rest) cpp pb' in
    let skip = parse_switches sizes (word ∷ rest) cpp pb in
    let done = ok (record { cppargv = cpp; pbargv = pb; left = arg ∷ word ∷ rest }) in
    if first_char arg == b'-'
    then if c == b'D'
      then define
      else if (c == b'o') || ((c == b'r') || (c == b's'))
      then pair
      else if c == b'd'
      then dump
      else if c == b'-'
      then done
      else skip
    else done

-- The files: all but the last are included in front of it. With no file left it is `usage`.
unfoldable pub add_files : ℕ → List Text → Argv → Outcome Argv
unfolding store
add_files size [] cpp = exited 1
add_files size (file ∷ []) cpp =
    store size cpp (some file) >>= λ v. store size v (some (codes "-")) >>= λ w. store size w none
add_files size (file ∷ next ∷ files) cpp = store size cpp (some (codes "-include")) >>= λ v.
    store size v (some file) >>= λ w. add_files size (next ∷ files) w

-- The two vectors that `main` makes of the words after the program's name.
unfoldable pub prepare : List Text → Outcome (Argv × Argv)
unfolding parse_switches add_files
prepare words =
    let sizes = allocated (length words + 1) in
    store sizes.pb [] (some pb_engine) >>= λ pb. store sizes.cpp [] (some preprocessor) >>= λ cpp.
    parse_switches sizes words cpp pb >>= λ v.
    add_files sizes.cpp v.left v.cppargv >>= λ cpp'. ok (cpp', v.pbargv)

-- What the parent does once the vectors are there, and the code that it exits with. `pipe` and each
-- `fork` succeed or fail.
pub data Event : Type 0 where
  message : Text → Event
  start_pb start_cpp hang_up_pb wait : Event

unfoldable pub run_commands : Bool → Bool → Bool → List Event × ℕ
run_commands false fork_pb fork_cpp = (message (codes "cannot create pipe.") ∷ [], 1)
run_commands true false fork_cpp = (message (codes "cannot fork.") ∷ [], 1)
run_commands true true false = (start_pb ∷ hang_up_pb ∷ message (codes "cannot fork.") ∷ [], 1)
run_commands true true true =
    (start_pb ∷ start_cpp ∷ wait ∷ message (codes "wait() returned") ∷ wait ∷ [], 0)
