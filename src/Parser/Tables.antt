-- ===== src/Parser/Tables.antt =====
-- src/parser.y: the mappings and transformations of a file.
use mathlib.Core.List.{append-nil, append_assoc}
use dada_engine.Prelude.{
  ℕ, ◌≡◌, refl, ap, sym, ◌∙◌, arith, List, [], ◌∷◌, ◌++◌, Option, none, some, if◌then◌else◌, take,
  map,
}
use dada_engine.Text.{Text, str_eq}
use dada_engine.Ptrlist.{list_cons}
use dada_engine.Rtn.{ResMode}
use dada_engine.Map.{
  MapOpt, Mapping, replace, subst, map_cons, map_lookup, mapopt_concat, mapopt_cons,
  new_replace_action, new_subst_action,
}
use dada_engine.Transform.{
  Transformation, TransOpt, trans_lookup, new_transformation, new_transopt, new_transcmd,
}
use dada_engine.Parser.Syntax.{
  MapEntry, one_way, substituted, both_ways, TransEntry, Item, rule_item, mapping_item, xform_item,
}
use dada_engine.Parser.{
  Reading, start_reading, build_mapopt, build_mapopts, build_address, build_transopt,
  build_transopts, read_item, read_items,
}

-- What the entries say, in order; an entry that goes both ways says two things.
abbrev pub replaces : Text → Text → MapOpt
replaces key out = record { key = key; action = replace out }

abbrev pub said : List MapEntry → List MapOpt
said [] = []
said (one_way key out ∷ es) = replaces key out ∷ said es
said (substituted key from to ∷ es) = record { key = key; action = subst from to } ∷ said es
said (both_ways key out ∷ es) = replaces key out ∷ replaces out key ∷ said es

mapopt_concat-append : (a b : List MapOpt) → mapopt_concat a b ≡ a ++ b
unfolding mapopt_concat
mapopt_concat-append [] b = refl
mapopt_concat-append (x ∷ a) b = ap (λ t. x ∷ t) (mapopt_concat-append a b)

said-cons : (e : MapEntry) (es : List MapEntry) → build_mapopt e ++ said es ≡ said (e ∷ es)
unfolding build_mapopt mapopt_cons new_replace_action new_subst_action
said-cons (one_way key out) es = refl
said-cons (substituted key from to) es = refl
said-cons (both_ways key out) es = refl

build_mapopts-said :
    (opts : List MapOpt) (es : List MapEntry) → build_mapopts opts es ≡ opts ++ said es
unfolding build_mapopts
build_mapopts-said opts [] = sym (append-nil opts)
build_mapopts-said opts (e ∷ es) =
    build_mapopts-said (mapopt_concat opts (build_mapopt e)) es
    ∙ ap (λ o. o ++ said es) (mapopt_concat-append opts (build_mapopt e))
    ∙ append_assoc opts (build_mapopt e) (said es)
    ∙ ap (λ o. opts ++ o) (said-cons e es)

-- One command at a transformation's entry; three characters of its name are kept.
abbrev pub says_command : TransEntry → TransOpt
says_command e = record {
  key = e.key;
  cmds = record { addr = build_address e.addr; cmdname = take 3 e.command; params = e.args } ∷ [];
}

build_transopts-map :
    (e : TransEntry) (es : List TransEntry) → build_transopts e es ≡ map says_command (e ∷ es)
unfolding build_transopts build_transopt new_transopt new_transcmd list_cons
build_transopts-map e [] = refl
build_transopts-map e (e' ∷ es) = ap (λ t. says_command e ∷ t) (build_transopts-map e' es)

-- The second, unless it is not there.
abbrev pub or_before {ℓ} : {A : Type ℓ} → Option A → Option A → Option A
or_before before none = before
or_before before (some x) = some x

-- The last mapping, and the last transformation, under a name.
abbrev pub last_mapping : List Item → Text → Option Mapping
last_mapping [] name = none
last_mapping (mapping_item n e es ∷ is) name =
    or_before (if str_eq n name then some (record { name = n; options = said (e ∷ es) }) else none)
      (last_mapping is name)
last_mapping (rule_item d ∷ is) name = last_mapping is name
last_mapping (xform_item n e es ∷ is) name = last_mapping is name

abbrev pub last_xform : List Item → Text → Option Transformation
last_xform [] name = none
last_xform (xform_item n e es ∷ is) name =
    or_before
      (if str_eq n name
        then some (record { name = n; options = map says_command (e ∷ es) })
        else none)
      (last_xform is name)
last_xform (rule_item d ∷ is) name = last_xform is name
last_xform (mapping_item n e es ∷ is) name = last_xform is name

or_before_assoc {ℓ} :
    {A : Type ℓ} (a b c : Option A) → or_before (or_before a b) c ≡ or_before a (or_before b c)
or_before_assoc a b none = refl
or_before_assoc a b (some x) = refl

or_before-none {ℓ} : {A : Type ℓ} (o : Option A) → or_before none o ≡ o
or_before-none none = refl
or_before-none (some x) = refl

module _ (stale : ℕ → ResMode) where
  mappings_after :
      (items : List Item) (st : Reading) (name : Text)
      → map_lookup (read_items stale st items).mappings name
        ≡ or_before (map_lookup st.mappings name) (last_mapping items name)
  unfolding read_items read_item map_lookup map_cons
  mappings_after [] st name = refl
  mappings_after (rule_item d ∷ is) st name = mappings_after is _ name
  mappings_after (xform_item n e es ∷ is) st name = mappings_after is _ name
  mappings_after (mapping_item n e es ∷ is) st name =
      mappings_after is _ name
      ∙ ap (λ o. or_before o (last_mapping is name)) newest
      ∙ or_before_assoc (map_lookup st.mappings name) _ (last_mapping is name)
    where
      newest :
          map_lookup (map_cons n (build_mapopts (build_mapopt e) es) st.mappings) name
          ≡ or_before
              (map_lookup st.mappings name)
              (if str_eq n name then some (record { name = n; options = said (e ∷ es) }) else none)
      newest = rw (build_mapopts-said (build_mapopt e) es, said-cons e es) (ground arith)

  xforms_after :
      (items : List Item) (st : Reading) (name : Text)
      → trans_lookup (read_items stale st items).transformations name
        ≡ or_before (trans_lookup st.transformations name) (last_xform items name)
  unfolding read_items read_item trans_lookup new_transformation list_cons
  xforms_after [] st name = refl
  xforms_after (rule_item d ∷ is) st name = xforms_after is _ name
  xforms_after (mapping_item n e es ∷ is) st name = xforms_after is _ name
  xforms_after (xform_item n e es ∷ is) st name =
      xforms_after is _ name
      ∙ ap (λ o. or_before o (last_xform is name)) newest
      ∙ or_before_assoc (trans_lookup st.transformations name) _ (last_xform is name)
    where
      newest :
          trans_lookup
            (list_cons (new_transformation n (build_transopts e es)) st.transformations)
            name
          ≡ or_before (trans_lookup st.transformations name) (
              if str_eq n name
              then some (record { name = n; options = map says_command (e ∷ es) })
              else none)
      newest = rw (build_transopts-map e es) (ground arith)

  -- Under a name, the last mapping of the file and the last transformation of the file are found,
  -- with all that their entries say, in order: an entry that maps both ways says two things, and of
  -- the name of a command three characters are kept.
  pub tables-last :
      (items : List Item) (name : Text)
      → (map_lookup (read_items stale start_reading items).mappings name ≡ last_mapping items name)
        × (trans_lookup (read_items stale start_reading items).transformations name
            ≡ last_xform items name)
  unfolding map_lookup trans_lookup
  tables-last items name = (
    mappings_after items start_reading name ∙ or_before-none (last_mapping items name),
    xforms_after items start_reading name ∙ or_before-none (last_xform items name),
  )
