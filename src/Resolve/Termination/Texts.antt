-- ===== src/Resolve/Termination/Texts.antt =====
-- src/map.c and src/transform.c: the fuel of mappings and transformations.
use dada_engine.Prelude.{
  ℕ, zero, suc, ◌+◌, ◌-◌, ◌<◌, ◌≡◌, refl, List, [], ◌∷◌, Bool, true, false, Option, none, some,
  Outcome, ok, length, take, drop, length-drop, leb, ◌==◌, arith, sym,
}
use mathlib.Core.Path.{subst}
use dada_engine.Prelude.Ends.{◌>>=◌}
use dada_engine.Prelude.Int.{ℤ}
use dada_engine.Text.{Text, codes, str_eq}
use dada_engine.Map.{
  Regex, MapAction, replace, strcat, subst_length, subst_compose, subst_buffer, regex_subst,
  mapopt_match, MapOpt, Mapping, apply_mapping, map_lookup, or_input,
}
use dada_engine.Map
use dada_engine.Map.Subst.{MatchesInside}
use dada_engine.Transform.{
  TransCmd, TransOpt, Transformation, addr_normalise, cmd_range, clear, strncpy, strncat, tolower,
  toupper, is_character, change_first, change_range, delete_range, first_two, first_char,
  xform_switch, apply_xform_cmd, run_cmds, apply_xform, transopt_match, trans_lookup,
}
use dada_engine.Transform.Address.{addr_normalise_lem, addr_normalise_nil}
use dada_engine.Engine.{Env}
use dada_engine.Resolve.{apply_named}
use dada_engine.Resolve.Lasts.{Lasts, lasts_ok, lasts_fault, bind-Lasts, if-Lasts}

strcat-Lasts : (size : ℕ) (r t : Text) → Lasts (strcat size r t)
strcat-Lasts size r t = if-Lasts (leb (length r + length t) size) lasts_ok lasts_fault

module _ (re : Regex) (from : Text) (inside : MatchesInside re from) (to : Text) where
  subst_length-Lasts :
      (f len : ℕ) (rest : Text) (b : Bool) (m : Option (ℕ × ℕ))
      → length rest < f
      → re.regexec from rest b ≡ m
      → Lasts (subst_length re f rest m len from to)
  unfolding subst_length
  subst_length-Lasts zero len rest b m h e = absurd (omega arith)
  subst_length-Lasts (suc f) len rest b none h e = lasts_ok
  subst_length-Lasts (suc f) len rest b (some (so, zero)) h e = lasts_ok
  subst_length-Lasts (suc f) len rest b (some (so, suc eo)) h e =
      let (lo, hi) = inside rest b so (suc eo) e in
      if-Lasts (suc eo == 0) lasts_ok (
        subst_length-Lasts f _ (drop (suc eo) rest) true _
          (omega (arith, length-drop (suc eo) rest)) refl)

  subst_compose-Lasts :
      (f size : ℕ) (rest r : Text) (m : Option (ℕ × ℕ))
      → length rest < f
      → re.regexec from rest false ≡ m
      → Lasts (subst_compose re f size rest m r from to)
  unfolding subst_compose
  subst_compose-Lasts zero size rest r m h e = absurd (omega arith)
  subst_compose-Lasts (suc f) size rest r none h e = lasts_ok
  subst_compose-Lasts (suc f) size rest r (some (so, zero)) h e =
      bind-Lasts (strcat-Lasts size r to) λ q. lasts_ok
  subst_compose-Lasts (suc f) size rest r (some (so, suc eo)) h e =
      let (lo, hi) = inside rest false so (suc eo) e in
      bind-Lasts (strcat-Lasts size r to) λ q. if-Lasts (suc eo == 0) lasts_ok (
        bind-Lasts (strcat-Lasts size q _) λ p.
          subst_compose-Lasts f size (drop (suc eo) rest) p _
            (omega (arith, length-drop (suc eo) rest)) refl)

  subst_buffer-Lasts : (size : ℕ) (input : Text) → Lasts (subst_buffer re size input from to)
  unfolding subst_buffer
  subst_buffer-Lasts size input = started (re.regexec from input false) refl
    where
      started :
          (m : Option (ℕ × ℕ))
          → re.regexec from input false ≡ m
          → Lasts {A = Text} (elim m [
            | none ↦ Outcome.fault
            | some (so, eo) ↦ strcat size [] (take so input) >>= λ r.
                subst_compose re (suc (length input)) size input (some (so, eo)) r from to
          ])
      started none e = lasts_fault
      started (some (so, eo)) e =
          bind-Lasts (strcat-Lasts size [] (take so input)) λ r.
            subst_compose-Lasts (suc (length input)) size input r (some (so, eo)) (omega arith) e

  pub regex_subst-Lasts : (input : Text) → Lasts (regex_subst re input from to)
  unfolding regex_subst
  regex_subst-Lasts input = if-Lasts (str_eq from (codes "^")) lasts_ok (
      if-Lasts (str_eq from (codes "$")) lasts_ok (
        if-Lasts (re.regcomp from)
          (bind-Lasts
            (subst_length-Lasts (suc (length input)) (length input) input false _ (omega arith)
              refl)
            λ size. bind-Lasts (subst_buffer-Lasts size input) λ r. lasts_ok)
          lasts_ok))

addr_normalise-Lasts : (a : ℤ) (input : Text) → Lasts (addr_normalise a input)
addr_normalise-Lasts a [] = subst Lasts (sym (addr_normalise_nil a)) lasts_ok
addr_normalise-Lasts a (c ∷ s) =
    subst Lasts (sym (addr_normalise_lem a (c ∷ s) (omega arith)).0) lasts_ok

cmd_range-Lasts : (addr : Option (ℤ × ℤ)) (input : Text) → Lasts (cmd_range addr input)
unfolding cmd_range
cmd_range-Lasts none input = lasts_ok
cmd_range-Lasts (some (a, b)) input =
    bind-Lasts (addr_normalise-Lasts a input)
      λ from. bind-Lasts (addr_normalise-Lasts b input) λ to. lasts_ok

delete_range-Lasts : (from stop : ℕ) (input : Text) → Lasts (delete_range from stop input)
unfolding delete_range clear strncpy strncat
delete_range-Lasts from stop input =
    bind-Lasts (if-Lasts (length input + from - stop == 0) lasts_fault lasts_ok) λ r.
      bind-Lasts (if-Lasts (from == 0) lasts_ok (if-Lasts (leb from r.size) lasts_ok lasts_fault))
        λ r'. bind-Lasts (if-Lasts _ lasts_ok lasts_fault) λ r''. lasts_ok

first_two-Lasts : (params : List Text) → Lasts (first_two params)
first_two-Lasts [] = lasts_fault
first_two-Lasts (a ∷ []) = lasts_fault
first_two-Lasts (a ∷ b ∷ rest) = lasts_ok

module _ (re : Regex) (inside : (from : Text) → MatchesInside re from) where
  change_first-Lasts : (f : ℕ → ℕ) (n : ℕ) (s : Text) → Lasts (change_first f n s)
  unfolding change_first
  change_first-Lasts f zero s = lasts_ok
  change_first-Lasts f (suc n) [] = lasts_ok
  change_first-Lasts f (suc n) (c ∷ s) =
      if-Lasts (is_character c) (bind-Lasts (change_first-Lasts f n s) λ r. lasts_ok) lasts_fault

  change_range-Lasts : (f : ℕ → ℕ) (from stop : ℕ) (s : Text) → Lasts (change_range f from stop s)
  unfolding change_range
  change_range-Lasts f from stop s =
      bind-Lasts (change_first-Lasts f (stop - from) (drop from s)) λ r. lasts_ok

  xform_switch-Lasts :
      (name : ℕ) (input : Text) (params : List Text) (from stop : ℕ)
      → Lasts (xform_switch re name input params from stop)
  unfolding xform_switch
  xform_switch-Lasts name input params from stop =
      if-Lasts (name == b'd') (bind-Lasts (delete_range-Lasts from stop input) λ r. lasts_ok) (
        if-Lasts (name == b'l')
          (bind-Lasts (change_range-Lasts tolower from stop input) λ r. lasts_ok)
          (if-Lasts (name == b's')
            (bind-Lasts (first_two-Lasts params)
              λ (a, b). regex_subst-Lasts re a (inside a) b input)
            (if-Lasts (name == b'u')
              (bind-Lasts (change_range-Lasts toupper from stop input) λ r. lasts_ok) lasts_ok)))

  apply_xform_cmd-Lasts :
      (input : Option Text) (cmd : TransCmd) → Lasts (apply_xform_cmd re input cmd)
  unfolding apply_xform_cmd
  apply_xform_cmd-Lasts none cmd = lasts_fault
  apply_xform_cmd-Lasts (some input) cmd =
      bind-Lasts (cmd_range-Lasts cmd.addr input)
        λ (from, stop). xform_switch-Lasts (first_char cmd.cmdname) input cmd.params from stop

  run_cmds-Lasts : (input : Option Text) (cmds : List TransCmd) → Lasts (run_cmds re input cmds)
  unfolding run_cmds
  run_cmds-Lasts input [] = lasts_ok
  run_cmds-Lasts input (cmd ∷ next) =
      bind-Lasts (apply_xform_cmd-Lasts input cmd) λ r. run_cmds-Lasts r next

  apply_xform-Lasts :
      (input : Option Text) (x : Option Transformation) → Lasts (apply_xform re input x)
  unfolding apply_xform
  apply_xform-Lasts input none = lasts_ok
  apply_xform-Lasts none (some x) = empty x.options
    where
      empty :
          (opts : List TransOpt)
          → Lasts {A = Option Text} (elim opts [ [] ↦ ok none | o ∷ os ↦ Outcome.fault ])
      empty [] = lasts_ok
      empty (o ∷ os) = lasts_fault
  apply_xform-Lasts (some s) (some x) = matched (transopt_match re x.options s)
    where
      matched :
          (o : Option TransOpt)
          → Lasts {A = Option Text}
              (elim o [ none ↦ ok (some s) | some option ↦ run_cmds re (some s) option.cmds ])
      matched none = lasts_ok
      matched (some option) = run_cmds-Lasts (some s) option.cmds

  action-Lasts :
      (s : Text) (a : MapAction)
      → Lasts {A = Option Text} (elim a [
        | replace out ↦ ok (some out)
        | Map.subst key out ↦ regex_subst re s key out >>= λ r. ok (some (or_input re s r))
      ])
  action-Lasts s (replace out) = lasts_ok
  action-Lasts s (Map.subst key out) =
      bind-Lasts (regex_subst-Lasts re key (inside key) out s) λ r. lasts_ok

  apply_mapping-Lasts :
      (input : Option Text) (m : Option Mapping) → Lasts (apply_mapping re input m)
  unfolding apply_mapping
  apply_mapping-Lasts input none = lasts_ok
  apply_mapping-Lasts none (some m) = empty m.options
    where
      empty :
          (opts : List MapOpt)
          → Lasts {A = Option Text} (elim opts [ [] ↦ ok none | o ∷ os ↦ Outcome.fault ])
      empty [] = lasts_ok
      empty (o ∷ os) = lasts_fault
  apply_mapping-Lasts (some s) (some m) = matched (mapopt_match re m.options s)
    where
      matched :
          (o : Option MapOpt)
          → Lasts {A = Option Text} (elim o [
            | none ↦ ok (some s)
            | some opt ↦ elim opt.action [
              | replace out ↦ ok (some out)
              | Map.subst key out ↦ regex_subst re s key out >>= λ r. ok (some (or_input re s r))
            ]
          ])
      matched none = lasts_ok
      matched (some opt) = action-Lasts s opt.action

pub apply_named-Lasts :
    (env : Env)
    → ((from : Text) → MatchesInside env.regex from)
    → (name : Text) (t : Option Text) → Lasts (apply_named env name t)
unfolding apply_named
apply_named-Lasts env inside name t = named (map_lookup env.mappings name)
  where
    named :
        (m : Option Mapping)
        → Lasts {A = Option Text} (elim m [
          | some m ↦ apply_mapping env.regex t (some m)
          | none ↦ apply_xform env.regex t (trans_lookup env.transformations name)
        ])
    named none = apply_xform-Lasts env.regex inside t (trans_lookup env.transformations name)
    named (some m) = apply_mapping-Lasts env.regex inside t (some m)
