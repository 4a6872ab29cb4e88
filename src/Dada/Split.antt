-- ===== src/Dada/Split.antt =====
-- src/dada.c: how a command line of switches and files is split.
use mathlib.Core.List.{append_assoc, append-nil}
use dada_engine.Prelude.{
  ℕ, suc, ◌+◌, ◌*◌, ◌≤◌, ◌≡◌, ◌≢◌, refl, ap, ◌∙◌, false, List, [], ◌∷◌, ◌++◌, Option, none, some,
  Outcome, ok, length, length-append, arith, ◌==◌,
}
use dada_engine.Prelude.Ends.{◌>>=◌}
use dada_engine.Text.{Text, codes}
use dada_engine.Dada.{
  Argv, preprocessor, pb_engine, first_char, store, Sizes, allocated, Vectors, parse_switches,
  add_files, prepare,
}

-- The switches of the manual page, and the undocumented `-d`.
pub data Switch : Type 0 where
  define outfile seed start : Text → Switch
  dump : Switch

abbrev pub words_of : List Switch → List Text
words_of [] = []
words_of (define t ∷ sw) = (codes "-D" ++ t) ∷ words_of sw
words_of (outfile t ∷ sw) = codes "-o" ∷ t ∷ words_of sw
words_of (seed t ∷ sw) = codes "-r" ∷ t ∷ words_of sw
words_of (start t ∷ sw) = codes "-s" ∷ t ∷ words_of sw
words_of (dump ∷ sw) = codes "-d" ∷ words_of sw

abbrev pub for_cpp : List Switch → Argv
for_cpp [] = []
for_cpp (define t ∷ sw) = some (codes "-D" ++ t) ∷ for_cpp sw
for_cpp (outfile t ∷ sw) = for_cpp sw
for_cpp (seed t ∷ sw) = for_cpp sw
for_cpp (start t ∷ sw) = for_cpp sw
for_cpp (dump ∷ sw) = for_cpp sw

abbrev pub for_pb : List Switch → Argv
for_pb [] = []
for_pb (define t ∷ sw) = for_pb sw
for_pb (outfile t ∷ sw) = some (codes "-o") ∷ some t ∷ for_pb sw
for_pb (seed t ∷ sw) = some (codes "-r") ∷ some t ∷ for_pb sw
for_pb (start t ∷ sw) = some (codes "-s") ∷ some t ∷ for_pb sw
for_pb (dump ∷ sw) = some (codes "-d") ∷ for_pb sw

-- The last file, and each one before it behind an `-include`.
abbrev pub included : Text → List Text → Argv
included file [] = some file ∷ some (codes "-") ∷ none ∷ []
included file (next ∷ files) = some (codes "-include") ∷ some file ∷ included next files

store_lem :
    (size : ℕ) (v : Argv) (a : Option Text)
    → length v + 1 ≤ size
    → store size v a ≡ ok (v ++ a ∷ [])
unfolding store
store_lem size v a h = ground arith

-- One switch, with words behind it.
module _ (sizes : Sizes) (cpp pb : Argv) where
  define_step :
      (t : Text) (rest : List Text)
      → rest ≢ []
      → parse_switches sizes ((codes "-D" ++ t) ∷ rest) cpp pb
        ≡ (store sizes.cpp cpp (some (codes "-D" ++ t)) >>= λ v. parse_switches sizes rest v pb)
  unfolding parse_switches
  define_step t [] h = absurd (h refl)
  define_step t (word ∷ rest) h = refl

  dump_step :
      (rest : List Text)
      → rest ≢ []
      → parse_switches sizes (codes "-d" ∷ rest) cpp pb
        ≡ (store sizes.pb pb (some (codes "-d")) >>= λ v. parse_switches sizes rest cpp v)
  unfolding parse_switches
  dump_step [] h = absurd (h refl)
  dump_step (word ∷ rest) h = refl

append-ne-nil : (xs : List Text) (y : Text) (ys : List Text) → xs ++ y ∷ ys ≢ []
append-ne-nil [] y ys h = cc
append-ne-nil (x ∷ xs) y ys h = cc

abbrev vectors : Argv → Argv → List Text → Outcome Vectors
vectors cpp pb left = ok (record { cppargv = cpp; pbargv = pb; left = left })

switches_end :
    (sizes : Sizes) (file : Text) (files : List Text) (cpp pb : Argv)
    → (first_char file == b'-') ≡ false
    → parse_switches sizes (file ∷ files) cpp pb ≡ vectors cpp pb (file ∷ files)
unfolding parse_switches
switches_end sizes file [] cpp pb h = rw h refl
switches_end sizes file (next ∷ files) cpp pb h = rw h refl

-- A switch with a word of its own.
pair_step :
    (sizes : Sizes) (cpp pb : Argv) (arg t : Text) (more cpps : Argv) (rest left : List Text)
    → parse_switches sizes (arg ∷ t ∷ rest) cpp pb ≡ (
        store sizes.pb pb (some arg) >>= λ v.
        store sizes.pb v (some t) >>= λ w. parse_switches sizes rest cpp w)
    → length pb + suc (suc (length more)) ≤ sizes.pb
    → (length ((pb ++ some arg ∷ []) ++ some t ∷ []) + length more ≤ sizes.pb
        → parse_switches sizes rest cpp ((pb ++ some arg ∷ []) ++ some t ∷ [])
          ≡ vectors (cpp ++ cpps) (((pb ++ some arg ∷ []) ++ some t ∷ []) ++ more) left)
    → parse_switches sizes (arg ∷ t ∷ rest) cpp pb
      ≡ vectors (cpp ++ cpps) (pb ++ some arg ∷ some t ∷ more) left
pair_step sizes cpp pb arg t more cpps rest left step room ih =
    let v = pb ++ some arg ∷ [] in
    let lv = length-append pb (some arg ∷ []) in
    let lw = length-append v (some t ∷ []) in
    step
    ∙ rw
        (
          store_lem sizes.pb pb (some arg) (omega arith),
          store_lem sizes.pb v (some t) (omega arith),
        )
        (ih (omega arith)
          ∙ ap (λ c. vectors (cpp ++ cpps) c left)
              (append_assoc v (some t ∷ []) more ∙ append_assoc pb (some arg ∷ []) (some t ∷ more)))

parse_switches_lem :
    (sizes : Sizes) (sw : List Switch) (file : Text) (files : List Text) (cpp pb : Argv)
    → (first_char file == b'-') ≡ false
    → length cpp + length (for_cpp sw) ≤ sizes.cpp
    → length pb + length (for_pb sw) ≤ sizes.pb
    → parse_switches sizes (words_of sw ++ file ∷ files) cpp pb
      ≡ vectors (cpp ++ for_cpp sw) (pb ++ for_pb sw) (file ∷ files)
unfolding parse_switches
parse_switches_lem sizes [] file files cpp pb h roomc roomp =
    rw (append-nil cpp, append-nil pb) (switches_end sizes file files cpp pb h)
parse_switches_lem sizes (define t ∷ sw) file files cpp pb h roomc roomp =
    let a = some (codes "-D" ++ t) in
    define_step sizes cpp pb t (words_of sw ++ file ∷ files)
      (append-ne-nil (words_of sw) file files)
    ∙ rw (store_lem sizes.cpp cpp a (omega arith)) (
        parse_switches_lem sizes sw file files (cpp ++ a ∷ []) pb h
          (omega (arith, length-append cpp (a ∷ []))) roomp
        ∙ ap (λ c. vectors c (pb ++ for_pb sw) (file ∷ files))
            (append_assoc cpp (a ∷ []) (for_cpp sw)))
parse_switches_lem sizes (dump ∷ sw) file files cpp pb h roomc roomp =
    let a = some (codes "-d") in
    dump_step sizes cpp pb (words_of sw ++ file ∷ files) (append-ne-nil (words_of sw) file files)
    ∙ rw (store_lem sizes.pb pb a (omega arith)) (
        parse_switches_lem sizes sw file files cpp (pb ++ a ∷ []) h roomc
          (omega (arith, length-append pb (a ∷ [])))
        ∙ ap (λ c. vectors (cpp ++ for_cpp sw) c (file ∷ files))
            (append_assoc pb (a ∷ []) (for_pb sw)))
parse_switches_lem sizes (outfile t ∷ sw) file files cpp pb h roomc roomp =
    pair_step sizes cpp pb (codes "-o") t (for_pb sw) (for_cpp sw) (words_of sw ++ file ∷ files)
      (file ∷ files) refl roomp
      (parse_switches_lem sizes sw file files cpp ((pb ++ some (codes "-o") ∷ []) ++ some t ∷ []) h
        roomc)
parse_switches_lem sizes (seed t ∷ sw) file files cpp pb h roomc roomp =
    pair_step sizes cpp pb (codes "-r") t (for_pb sw) (for_cpp sw) (words_of sw ++ file ∷ files)
      (file ∷ files) refl roomp
      (parse_switches_lem sizes sw file files cpp ((pb ++ some (codes "-r") ∷ []) ++ some t ∷ []) h
        roomc)
parse_switches_lem sizes (start t ∷ sw) file files cpp pb h roomc roomp =
    pair_step sizes cpp pb (codes "-s") t (for_pb sw) (for_cpp sw) (words_of sw ++ file ∷ files)
      (file ∷ files) refl roomp
      (parse_switches_lem sizes sw file files cpp ((pb ++ some (codes "-s") ∷ []) ++ some t ∷ []) h
        roomc)

add_files_lem :
    (size : ℕ) (file : Text) (files : List Text) (cpp : Argv)
    → length cpp + length (included file files) ≤ size
    → add_files size (file ∷ files) cpp ≡ ok (cpp ++ included file files)
unfolding add_files
add_files_lem size file [] cpp room =
    let v = cpp ++ some file ∷ [] in
    let w = v ++ some (codes "-") ∷ [] in
    let lv = length-append cpp (some file ∷ []) in
    let lw = length-append v (some (codes "-") ∷ []) in
    rw
      (
        store_lem size cpp (some file) (omega arith),
        store_lem size v (some (codes "-")) (omega arith),
        store_lem size w none (omega arith),
      )
      (ap ok (
        append_assoc v (some (codes "-") ∷ []) (none ∷ [])
        ∙ append_assoc cpp (some file ∷ []) (some (codes "-") ∷ none ∷ [])))
add_files_lem size file (next ∷ files) cpp room =
    let v = cpp ++ some (codes "-include") ∷ [] in
    let w = v ++ some file ∷ [] in
    let lv = length-append cpp (some (codes "-include") ∷ []) in
    let lw = length-append v (some file ∷ []) in
    rw
      (
        store_lem size cpp (some (codes "-include")) (omega arith),
        store_lem size v (some file) (omega arith),
      )
      (add_files_lem size next files w (omega arith)
        ∙ ap ok (
            append_assoc v (some file ∷ []) (included next files)
            ∙ append_assoc cpp (some (codes "-include") ∷ []) (some file ∷ included next files)))

length-switches :
    (sw : List Switch) → length (for_cpp sw) + length (for_pb sw) ≡ length (words_of sw)
length-switches [] = omega arith
length-switches (define t ∷ sw) = omega (arith, length-switches sw)
length-switches (outfile t ∷ sw) = omega (arith, length-switches sw)
length-switches (seed t ∷ sw) = omega (arith, length-switches sw)
length-switches (start t ∷ sw) = omega (arith, length-switches sw)
length-switches (dump ∷ sw) = omega (arith, length-switches sw)

length-included :
    (file : Text) (files : List Text) → length (included file files) ≡ 2 * length files + 3
length-included file [] = omega arith
length-included file (next ∷ files) = omega (arith, length-included next files)

-- A command line of switches and at least one file, the first of which does not begin with `-`, is
-- split without a write past either vector: the preprocessor gets the definitions in their order,
-- each file but the last behind an `-include`, the last one, `-` and NULL, and the engine gets the
-- other switches in their order, with no NULL behind them.
pub prepare_lem :
    (sw : List Switch) (file : Text) (files : List Text)
    → (first_char file == b'-') ≡ false
    → prepare (words_of sw ++ file ∷ files)
      ≡ ok ((some preprocessor ∷ for_cpp sw) ++ included file files, some pb_engine ∷ for_pb sw)
unfolding prepare
prepare_lem sw file files h =
    let words = words_of sw ++ file ∷ files in
    let sizes = allocated (length words + 1) in
    let lw = length-append (words_of sw) (file ∷ files) in
    let ls = length-switches sw in
    let li = length-included file files in
    rw (
      store_lem sizes.pb [] (some pb_engine) (omega arith),
      store_lem sizes.cpp [] (some preprocessor) (omega arith),
      parse_switches_lem sizes sw file files (some preprocessor ∷ []) (some pb_engine ∷ []) h
          (omega arith) (omega arith),
      add_files_lem sizes.cpp file files (some preprocessor ∷ for_cpp sw) (omega arith),
    )
