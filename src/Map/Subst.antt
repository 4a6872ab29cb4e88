-- ===== src/Map/Subst.antt =====
-- src/map.c, `regex_subst`: the text that it makes, and the room in its buffer.
use mathlib.Core.List.{append_assoc, append-nil}
use dada_engine.Prelude.{
  ℕ, zero, suc, ◌+◌, ◌-◌, ◌≤◌, ◌<◌, ◌≡◌, ◌≢◌, refl, ap, sym, ◌∙◌, inl, inr, Bool, true, false, [],
  ◌++◌, Option, none, some, Option-cases, Outcome, ok, length, take, drop, length-append,
  length-take, length-drop, ◌==◌, arith,
}
use dada_engine.Prelude.Ends.{◌>>=◌}
use dada_engine.Text.{Text, codes, str_eq}
use dada_engine.Map.{Regex, strcat, subst_length, subst_compose, subst_buffer, regex_subst}

suc-eq-zero : (n : ℕ) → (suc n == 0) ≡ false
suc-eq-zero n = ground arith

take_none : (n : ℕ) (s : Text) → n ≤ 0 → take n s ≡ []
take_none zero s h = refl
take_none (suc n) s h = absurd (omega arith)

regroup : (a b c d : Text) → ((a ++ b) ++ c) ++ d ≡ a ++ (b ++ (c ++ d))
regroup a b c d = append_assoc (a ++ b) c d ∙ append_assoc a b (c ++ d)

module _ (re : Regex) (from : Text) where
  -- `regexec` is documented to give the place of a match inside of the text.
  abbrev pub MatchesInside : Type 0
  MatchesInside =
      (s : Text) (b : Bool) (so eo : ℕ)
      → re.regexec from s b ≡ some (so, eo)
      → (so ≤ eo) × (eo ≤ length s)

  -- The pattern does not ask for the beginning of a line.
  abbrev pub IgnoresBol : Type 0
  IgnoresBol = (s : Text) → re.regexec from s true ≡ re.regexec from s false

  module _ (to : Text) where
    -- Each match, from left to right, is replaced by `to`; what follows an empty match at the
    -- beginning of what is left is lost.
    pub data Replaced : Text → Text → Type 0 where
      no_match : {s : Text} → re.regexec from s false ≡ none → Replaced s s
      empty_match : {s : Text} {so : ℕ} → re.regexec from s false ≡ some (so, 0) → Replaced s to
      next_match :
          {s t u : Text} {so eo : ℕ}
          → re.regexec from s false ≡ some (so, suc eo)
          → Replaced (drop (suc eo) s) t
          → u ≡ take so s ++ (to ++ t)
          → Replaced s u

    Replaced-at :
        (n : ℕ) (s : Text) (m : Option (ℕ × ℕ))
        → MatchesInside
        → length s < suc n
        → ((s' : Text) → length s' < n → (t : Text) × Replaced s' t)
        → re.regexec from s false ≡ m
        → (t : Text) × Replaced s t
    Replaced-at n s none h lt ih e = (s, no_match e)
    Replaced-at n s (some (so, zero)) h lt ih e = (to, empty_match e)
    Replaced-at n s (some (so, suc eo)) h lt ih e =
        let (lo, hi) = h s false so (suc eo) e in
        let (t, d) = ih (drop (suc eo) s) (omega (arith, length-drop (suc eo) s)) in
        (take so s ++ (to ++ t), next_match e d refl)

    Replaced-total : (n : ℕ) (s : Text) → MatchesInside → length s < n → (t : Text) × Replaced s t
    Replaced-total zero s h lt = absurd (omega arith)
    Replaced-total (suc n) s h lt =
        Replaced-at n s (re.regexec from s false) h lt (λ s' k. Replaced-total n s' h k) refl

    subst_length_lem :
        (f len : ℕ) {s t : Text}
        → MatchesInside
        → IgnoresBol
        → Replaced s t
        → length s < f
        → length s ≤ len
        → (size : ℕ) × (subst_length re f s (re.regexec from s false) len from to ≡ ok size)
          × (len + length t ≤ size + length s)
    unfolding subst_length
    subst_length_lem zero len h g r lt le = absurd (omega arith)
    subst_length_lem (suc f) len h g (no_match e) lt le = rw e (len, refl, omega arith)
    subst_length_lem (suc f) len {s} h g (empty_match {so} e) lt le =
        rw e (len + length to - (0 - so), refl, omega arith)
    subst_length_lem (suc f) len {s} h g (next_match {t = t'} {so} {eo} e r u) lt le =
        let (lo, hi) = h s false so (suc eo) e in
        let rest : Text = drop (suc eo) s in
        let short = length-drop (suc eo) s in
        let (size, made, enough) =
          subst_length_lem f (len + length to - (suc eo - so)) h g r (omega (arith, short))
            (omega (arith, short)) in
        rw (e, g rest)
          (
            size,
            rw (suc-eq-zero eo) made,
            omega (
              arith,
              ap length u,
              length-append (take so s) (to ++ t'),
              length-append to t',
              length-take so s,
            ),
          )

    fits_strcat :
        (size : ℕ) (r t : Text) → length r + length t ≤ size → strcat size r t ≡ ok (r ++ t)
    fits_strcat size r t h = ground arith

    -- The piece before the next match, and the loop from there on.
    abbrev piece : Text → Option (ℕ × ℕ) → Text
    piece s m = elim m [ none ↦ s | some (so, eo) ↦ take so s ]

    subst_compose_lem :
        (f size : ℕ) {s t : Text} (r : Text)
        → MatchesInside
        → Replaced s t
        → length s < f
        → length r + length t ≤ size
        → (strcat size r (piece s (re.regexec from s false)) >>= λ q.
            subst_compose re f size s (re.regexec from s false) q from to)
          ≡ ok (r ++ t)
    unfolding subst_compose
    subst_compose_lem zero size r h d lt room = absurd (omega arith)
    subst_compose_lem (suc f) size {s} r h (no_match e) lt room =
        rw e (rw (fits_strcat size r s room) refl)
    subst_compose_lem (suc f) size {s} r h (empty_match {so} e) lt room =
        let (lo, hi) = h s false so 0 e in
        rw (
          e,
          take_none so s lo,
          fits_strcat size r [] (omega arith),
          append-nil r,
          fits_strcat size r to room,
        )
    subst_compose_lem (suc f) size {s} r h (next_match {t = t'} {so} {eo} e d u) lt room =
        let (lo, hi) = h s false so (suc eo) e in
        let lu = ap length u in
        let l1 = length-append (take so s) (to ++ t') in
        let l2 = length-append to t' in
        let l3 = length-append r (take so s) in
        let l4 = length-append (r ++ take so s) to in
        rw
          (
            e,
            fits_strcat size r (take so s) (omega arith),
            fits_strcat size (r ++ take so s) to (omega arith),
            suc-eq-zero eo,
          )
          (subst_compose_lem f size ((r ++ take so s) ++ to) h d
              (omega (arith, length-drop (suc eo) s)) (omega arith)
            ∙ ap ok (regroup r (take so s) to t' ∙ ap (λ v. r ++ v) (sym u)))

    subst_buffer-piece :
        (size : ℕ) (input : Text)
        → re.regexec from input false ≢ none
        → subst_buffer re size input from to ≡ (
            strcat size [] (piece input (re.regexec from input false)) >>= λ q.
            subst_compose re
              (suc (length input))
              size
              input
              (re.regexec from input false)
              q
              from
              to)
    unfolding subst_buffer
    subst_buffer-piece size input h = elim (Option-cases (re.regexec from input false)) [
      | inl e ↦ absurd (h e)
      | inr (m, e) ↦ rw (e, subst_buffer) refl
    ]

    -- Let `regexec` give places inside of the text, and let the pattern compile, not ask for the
    -- beginning of a line, not be one of the two special cases, and match somewhere. Then
    -- `regex_subst` comes to an end within its buffer. Its result is the text with the matches
    -- replaced from left to right, as long as none is empty at the beginning of what is left: such a
    -- match is replaced, and all that is left of the text behind it is lost.
    pub regex_subst-Replaced :
        (input : Text)
        → MatchesInside
        → IgnoresBol
        → str_eq from (codes "^") ≡ false
        → str_eq from (codes "$") ≡ false
        → re.regcomp from ≡ true
        → re.regexec from input false ≢ none
        → (t : Text) × (regex_subst re input from to ≡ ok (some t)) × Replaced input t
    unfolding regex_subst subst_buffer
    regex_subst-Replaced input h g caret dollar compiles matches =
        let (t, d) = Replaced-total (suc (length input)) input h (omega arith) in
        let (size, made, enough) =
          subst_length_lem (suc (length input)) (length input) h g d (omega arith) (omega arith) in
        let composed =
          subst_compose_lem (suc (length input)) size [] h d (omega arith) (omega arith) in
        let whole = subst_buffer-piece size input matches ∙ composed in
        (
          t,
          rw (caret, dollar, compiles, made)
              (ap (λ (o : Outcome Text). o >>= λ r. ok (some r)) whole),
          d,
        )
