-- ===== src/Pb/Output.antt =====
-- src/pb.c: what the interpreter prints, from the check of the grammar to the wrapping.
use dada_engine.Prelude.{
  ℕ, zero, suc, ◌<◌, ◌≡◌, ◌≢◌, refl, ap, sym, ◌∙◌, inl, inr, Bool, false, Bool-cases, [], ◌∷◌, ◌++◌,
  Option, none, some, Outcome, ok, if◌then◌else◌, arith,
}
use dada_engine.Prelude.Ends.{◌>>=◌, bind-eq-ok, ok_inj}
use dada_engine.Prelude.Int.{pos}
use dada_engine.Text.{Text}
use dada_engine.Rtn.{nil, RuleTree, null, node}
use dada_engine.Engine.{Env, Engine}
use dada_engine.Resolve.{resolve_rule}
use dada_engine.Resolve.Language.{ArePlainRules, Called}
use dada_engine.Resolve.Sound.{resolve_rule_sound}
use dada_engine.Resolve.Runs
use dada_engine.Resolve.Runs.Sound.{resolve_rule-Called}
use dada_engine.Machine.World.{World, world}
use dada_engine.Check.{check_rtn}
use dada_engine.Wrap.{print_wrapped}
use dada_engine.Wrap.Words.{words, words_from, words_from-blank, ended, is_blank}
use dada_engine.Wrap.Correct.{print_wrapped_lem}
use dada_engine.Pb.{Settings, rtn_dump, start_rule, print_result, use_grammar, use_rtn}

words_from-line : (w s : Text) → words_from w (s ++ 10 ∷ []) ≡ words_from w s
unfolding words_from
words_from-line [] [] = refl
words_from-line (x ∷ w) [] = refl
words_from-line w (c ∷ s) = elim (Bool-cases (is_blank c)) [
  | inl blank ↦
      words_from-blank w c (s ++ 10 ∷ []) blank
      ∙ ap (ended w) (words_from-line [] s)
      ∙ sym (words_from-blank w c s blank)
  | inr letter ↦ rw letter (words_from-line (w ++ c ∷ []) s)
]

print_wrapped_line :
    (k : ℕ) (x : Text)
    → (print_wrapped (some x) (pos (suc k)) >>= λ w. ok (w ++ 10 ∷ []))
      ≡ print_result (pos (suc k)) (some x)
unfolding print_result
print_wrapped_line k x = ground arith

-- A result that is printed, wrapped to some width, is a text, and keeps its words.
print_result-words :
    (cols : ℕ) (t : Option Text) (out : Text)
    → 0 < cols
    → print_result (pos cols) t ≡ ok out
    → (x : Text) × (t ≡ some x) × (words out ≡ words x)
unfolding print_result print_wrapped
print_result-words cols none out h e = absurd (ground arith)
print_result-words zero (some x) out h e = absurd (omega arith)
print_result-words (suc k) (some x) out h e =
    let (wrapped, eq, same, fits) = print_wrapped_lem (suc k) x in
    let line = sym (ap (λ o. o >>= λ w. ok (w ++ 10 ∷ [])) eq) ∙ print_wrapped_line k x ∙ e in
    (x, refl, ap words (sym (ok_inj line)) ∙ words_from-line [] wrapped ∙ same)

with_rules {ℓ} :
    {A : Type ℓ} (rules : RuleTree) (a b : A)
    → rules ≢ null
    → elim rules [ null ↦ a | node r left right ↦ b ] ≡ b
with_rules null a b h = absurd (h refl)
with_rules (node r left right) a b h = refl

pub start_rule-initial :
    (st : Settings) (env : Env) (initial : RuleTree)
    → st.start_symbol ≡ none
    → start_rule st env initial ≡ ok initial
unfolding start_rule
start_rule-initial st env initial h = rw h refl

not_inhibited : (b : Bool) (o : Outcome Text) → b ≡ false → (if b then ok [] else o) ≡ o
not_inhibited b o h = rw h refl

module _ (st : Settings) (env : Env) (f cols : ℕ) (initial : RuleTree) (s : Engine) where
  -- A text that is printed is the wrapped result of the initial rule.
  printed_result :
      (dumped out : Text)
      → st.start_symbol ≡ none
      → st.inhibit ≡ false
      → st.wrapwidth ≡ pos cols
      → 0 < cols
      → env.rules ≢ null
      → use_rtn st env f initial s ≡ ok (dumped, out)
      → (check_rtn env ≡ ok tt)
        × ((x : Text) × (s' : Engine) × (resolve_rule env f initial s ≡ ok (some x, s'))
            × (words out ≡ words x))
  unfolding use_rtn use_grammar start_rule
  printed_result dumped out start loud width positive some_rules e =
      let used =
        sym (with_rules env.rules (ok ([], [])) (use_grammar st env f initial s) some_rules) ∙ e in
      let (d, dump, e0) = bind-eq-ok (rtn_dump st env) _ used in
      let (u, checked, e1) = bind-eq-ok (check_rtn env) _ e0 in
      let (rule, started, e2) = bind-eq-ok (start_rule st env initial) _ e1 in
      let same = ok_inj (sym started ∙ start_rule-initial st env initial start) in
      let (out', e3, last) = bind-eq-ok _ _ e2 in
      let (r, resolved, printed) =
        bind-eq-ok (resolve_rule env f rule s) _ (sym (not_inhibited st.inhibit _ loud) ∙ e3) in
      let (x, text, kept) = print_result-words cols r.0 out positive (
        ap (λ w. print_result w r.0) (sym width) ∙ printed ∙ ap ok (ap (λ p. p.1) (ok_inj last))) in
      (
        checked,
        (
          x,
          r.1,
          ap (λ q. resolve_rule env f q s) (sym same) ∙ resolved ∙ ap (λ y. ok (y, r.1)) text,
          kept,
        ),
      )

-- Let no rule have parameters, variables or code, let the grammar have a rule, let no start
-- symbol be named on the command line, and let the output not be inhibited and be wrapped to some
-- width. If the program prints a text at all, then the grammar passed the check, and the words
-- printed are those of a text in the language of the initial rule.
pub use_rtn_sound :
    (st : Settings) (env : Env) (f cols : ℕ) (initial : RuleTree) (s : Engine) (dumped out : Text)
    → ArePlainRules env.rules
    → ArePlainRules initial
    → st.start_symbol ≡ none
    → st.inhibit ≡ false
    → st.wrapwidth ≡ pos cols
    → 0 < cols
    → env.rules ≢ null
    → use_rtn st env f initial s ≡ ok (dumped, out)
    → (check_rtn env ≡ ok tt) × ((x : Text) × Called env initial (some x) × (words out ≡ words x))
use_rtn_sound st env f cols initial s dumped out rules plain start loud width positive some_rules
      e =
    let (checked, (x, s', resolved, kept)) =
      printed_result st env f cols initial s dumped out start loud width positive some_rules e in
    (checked, (x, resolve_rule_sound env f initial s s' (some x) rules plain resolved, kept))

-- Let the grammar have a rule, let no start symbol be named on the command line, and let the output
-- not be inhibited and be wrapped to some width. If the program prints a text at all, then the
-- grammar passed the check, and the words printed are those of a text that some run of the initial
-- rule gives, from the variables and the stack that there were.
pub use_rtn-Called :
    (st : Settings) (env : Env) (f cols : ℕ) (initial : RuleTree) (s : Engine) (dumped out : Text)
    → st.start_symbol ≡ none
    → st.inhibit ≡ false
    → st.wrapwidth ≡ pos cols
    → 0 < cols
    → env.rules ≢ null
    → use_rtn st env f initial s ≡ ok (dumped, out)
    → (check_rtn env ≡ ok tt)
      × ((x : Text) × (w : World) × Runs.Called env initial nil [] [] (world s) (some x) w
          × (words out ≡ words x))
use_rtn-Called st env f cols initial s dumped out start loud width positive some_rules e =
    let (checked, (x, s', resolved, kept)) =
      printed_result st env f cols initial s dumped out start loud width positive some_rules e in
    (checked, (x, world s', resolve_rule-Called env f initial s s' (some x) resolved, kept))
