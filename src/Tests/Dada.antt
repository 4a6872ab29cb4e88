-- ===== src/Tests/Dada.antt =====
-- Command lines of the front end.
use dada_engine.Prelude.{◌≡◌, refl, [], ◌∷◌, ◌++◌, none, some, ok, fault}
use dada_engine.Text.{codes}
use dada_engine.Dada.{preprocessor, pb_engine, prepare, parse_switches, add_files, store}
use dada_engine.Dada.Split.{define, seed, words_of, for_cpp, for_pb, included, prepare_lem}

prepare_lem_example :
    prepare
      (words_of (define (codes "X=1") ∷ seed (codes "7") ∷ []) ++ codes "a.pb" ∷ codes "b.pb" ∷ [])
    ≡ ok (
      (some preprocessor ∷ for_cpp (define (codes "X=1") ∷ seed (codes "7") ∷ []))
          ++ included (codes "a.pb") (codes "b.pb" ∷ []),
      some pb_engine ∷ for_pb (define (codes "X=1") ∷ seed (codes "7") ∷ []),
    )
prepare_lem_example =
    prepare_lem (define (codes "X=1") ∷ seed (codes "7") ∷ []) (codes "a.pb") (codes "b.pb" ∷ [])
      refl

no_file : prepare [] ≡ fault
unfolding prepare store parse_switches
no_file = refl

dashes :
    prepare (codes "--" ∷ codes "a" ∷ [])
    ≡ ok (
      some preprocessor
          ∷ some (codes "-include")
          ∷ some (codes "--")
          ∷ some (codes "a")
          ∷ some (codes "-")
          ∷ none
          ∷ [],
      some pb_engine ∷ [],
    )
unfolding prepare store parse_switches add_files
dashes = refl
