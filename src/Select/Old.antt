-- ===== src/Select/Old.antt =====
-- src/resolve.c, `select_option` with `old_probability`, and the loop that draws again.
use native.Mathlib.Nat.{mod-lt, add-zero}
use dada_engine.Prelude.{
  ℕ, zero, suc, ◌+◌, ◌%◌, ◌<◌, ◌≡◌, ◌≢◌, inl, inr, Bool, true, false, ◌&&◌, Bool-cases, ok, arith,
  ltb, ◌==◌,
}
use dada_engine.Prelude.Int.{ℤ, pos, negsuc, eqb_ℤ}
use dada_engine.Rtn.{Options, option_length, option_nth}
use dada_engine.Engine.{Env, Engine, update}
use dada_engine.Select.{redraw, select_old}

-- The draw `choice` is taken again: it is the last choice, and there is another one.
abbrev pub again? : ℕ → ℤ → ℕ → Bool
again? n last choice = eqb_ℤ (pos choice) last && ltb 1 n

abbrev IsFresh : ℕ → ℤ → ℕ → Type 0
IsFresh n last c = (c < n) × (1 < n → pos c ≢ last)

fresh : (n : ℕ) (last : ℤ) (r : ℕ) → 0 < n → again? n last (r % n) ≡ false → IsFresh n last (r % n)
fresh n (pos l) r h e = (mod-lt r h, ground arith)
fresh n (negsuc l) r h e = (mod-lt r h, λ _. cc)

abbrev pub Redraws : Env → ℕ → ℕ → ℤ → Engine → Type 0
Redraws env f n last s =
    (c : ℕ) × (j : ℕ) × (c < n)
    × (1 < n → pos c ≢ last)
    × (redraw env f n last s ≡ ok (c, record s { randoms = j }))

redraw_done :
    (env : Env) (f n : ℕ) (last : ℤ) (s : Engine)
    → 0 < n
    → again? n last (env.random s.randoms % n) ≡ false
    → Redraws env (suc f) n last s
unfolding redraw
redraw_done env f n last s h new =
    let r = env.random s.randoms in
    let some_option : (n == 0) ≡ false = ground arith in
    let (in_range, other) = fresh n last r h new in
    (r % n, s.randoms + 1, in_range, other, rw (some_option, new))

redraw_again :
    (env : Env) (f n : ℕ) (last : ℤ) (s : Engine)
    → 0 < n
    → again? n last (env.random s.randoms % n) ≡ true
    → Redraws env f n last (record s { randoms = s.randoms + 1 })
    → Redraws env (suc f) n last s
unfolding redraw
redraw_again env f n last s h stale (c, j, in_range, other, e) =
    let some_option : (n == 0) ≡ false = ground arith in
    (c, j, in_range, other, rw (some_option, stale) e)

-- If one of the next `f` random numbers is not the last choice again, the loop ends, with a choice
-- that is in range, and that is not the last one where there is another; only random numbers are
-- used up.
pub redraw_lem :
    (env : Env) (f n : ℕ) (last : ℤ) (s : Engine) (k : ℕ)
    → 0 < n
    → k < f
    → again? n last (env.random (s.randoms + k) % n) ≡ false
    → Redraws env f n last s
redraw_lem env zero n last s k h lt e = absurd (omega arith)
redraw_lem env (suc f) n last s zero h lt e = redraw_done env f n last s h (rw add-zero at e)
redraw_lem env (suc f) n last s (suc k) h lt e =
    let shift : s.randoms + suc k ≡ s.randoms + 1 + k = omega arith in
    elim (Bool-cases (again? n last (env.random s.randoms % n))) [
      | inl stale ↦ redraw_again env f n last s h stale (
          redraw_lem env f n last (record s { randoms = s.randoms + 1 }) k h (omega arith)
            (rw shift at e))
      | inr new ↦ redraw_done env f n last s h new
    ]

-- Let a rule have an option, and let one of the next `f` random numbers not be the last choice
-- again. Then the old choice succeeds with fuel `f`: it gives one of the options, which is not the
-- last one taken where there is another, and notes which one it took. Besides that note and the
-- random numbers used up nothing changes.
pub select_old_lem :
    (env : Env) (f : ℕ) (options : Options) (last : ℕ) (s : Engine) (k : ℕ)
    → 0 < option_length options
    → k < f
    → again?
        (option_length options)
        (s.last_choice last)
        (env.random (s.randoms + k) % option_length options)
      ≡ false
    → (c : ℕ) × (j : ℕ) × (c < option_length options)
      × (1 < option_length options → pos c ≢ s.last_choice last)
      × (select_old env f options last s
          ≡ ok (
            option_nth options c,
            record s { randoms = j; last_choice = update s.last_choice last (pos c) },
          ))
unfolding select_old
select_old_lem env f options last s k h lt e =
    let (c, j, in_range, other, drawn) =
      redraw_lem env f (option_length options) (s.last_choice last) s k h lt e in
    (c, j, in_range, other, rw drawn)
