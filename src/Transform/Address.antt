-- ===== src/Transform/Address.antt =====
-- src/transform.c: the address that a command is given, and the delete command.
use dada_engine.Prelude.{
  ℕ, zero, suc, ◌+◌, ◌-◌, ◌%◌, ◌≤◌, ◌<◌, ◌≡◌, ◌⊎◌, refl, ap, sym, ◌∙◌, inl, inr, false, Bool-cases,
  [], ◌∷◌, Option, none, some, ok, fault, leb, ◌==◌, length, drop, length-take, length-drop, arith,
}
use native.Mathlib.Nat.{mod-eq-sub-mod, mod-eq_of_lt, mod-lt}
use dada_engine.Prelude.Ends.{◌>>=◌}
use dada_engine.Prelude.Int.{ℤ, pos, negsuc}
use dada_engine.Text.{Text}
use dada_engine.Map.{Regex}
use dada_engine.Transform.{
  TransCmd, raise, addr_normalise, clear, strncpy, strncat, delete_range, cmd_range, xform_switch,
  apply_xform_cmd, first_char,
}

-- The place of an address in a text of length `l`, counted from its end if it is negative.
abbrev pub place : ℤ → ℕ → ℕ
place (pos a) l = a % l
place (negsuc n) l = l - suc (n % l)

mod-sub : (n l : ℕ) → l ≤ n → (n - l) % l ≡ n % l
mod-sub n l h = sym (mod-eq-sub-mod h)

below : (n l : ℕ) → n < l → l - (n + 1) ≡ l - suc (n % l)
below n l h = omega (arith, mod-eq_of_lt h)

raise-place : (f n l : ℕ) → n < f → 0 < l → raise f n l ≡ ok (l - suc (n % l))
unfolding raise
raise-place zero n l h k = absurd (omega arith)
raise-place (suc f) n l h k = elim (Bool-cases (leb l n)) [
  | inl far ↦ rw far (
      raise-place f (n - l) l (ground arith) k
      ∙ ap (λ m. ok (l - suc m)) (mod-sub n l (ground arith)))
  | inr near ↦ rw near (ap ok (below n l (ground arith)))
]

raised :
    (n : ℕ) (input : Text)
    → 0 < length input
    → (length input == 0) ≡ false
    → addr_normalise (negsuc n) input ≡ ok (place (negsuc n) (length input))
unfolding addr_normalise
raised n input h z = rw z (
    ap (λ o. o >>= λ a. ok (a % length input))
      (raise-place (suc n) n (length input) (omega arith) h)
    ∙ ap ok (mod-eq_of_lt (omega arith)))

-- The loop that makes an address positive comes to an end, and in a text that is not empty gives the
-- address's place: a % l for an address a that is not negative, and l - 1 - n % l for -(n + 1), which
-- is less than the length l.
pub addr_normalise_lem :
    (addr : ℤ) (input : Text)
    → 0 < length input
    → (addr_normalise addr input ≡ ok (place addr (length input)))
      × (place addr (length input) < length input)
unfolding addr_normalise
addr_normalise_lem (pos a) input h = (ground arith, mod-lt a h)
addr_normalise_lem (negsuc n) input h = (raised n input h (ground arith), omega arith)

delete_range-fault :
    (from stop : ℕ) (input : Text)
    → (from < length input) ⊎ (from ≡ 0)
    → delete_range from stop input ≡ fault
unfolding delete_range clear strncpy strncat
delete_range-fault zero stop input h =
    ground (arith, length-take (length input - stop) (drop stop input), length-drop stop input)
delete_range-fault (suc n) stop input (inl h) = ground arith
delete_range-fault (suc n) stop input (inr h) = absurd (omega arith)

pub addr_normalise_nil : (a : ℤ) → addr_normalise a [] ≡ ok 0
unfolding addr_normalise
addr_normalise_nil (pos n) = refl
addr_normalise_nil (negsuc n) = refl

range-inside :
    (addr : Option (ℤ × ℤ)) (input : Text)
    → (from : ℕ) × (stop : ℕ) × (cmd_range addr input ≡ ok (from, stop))
      × ((from < length input) ⊎ (from ≡ 0))
unfolding cmd_range addr_normalise
range-inside none input = (0, length input, refl, inr refl)
range-inside (some (a, b)) [] =
    (0, 1, rw (addr_normalise_nil a, addr_normalise_nil b) refl, inr refl)
range-inside (some (a, b)) (c ∷ s) =
    let (ea, la) = addr_normalise_lem a (c ∷ s) (omega arith) in
    let (eb, lb) = addr_normalise_lem b (c ∷ s) (omega arith) in
    (place a (length (c ∷ s)), place b (length (c ∷ s)) + 1, rw (ea, eb) refl, inl la)

-- The delete command never succeeds: on every text and with every address it writes out of bounds
-- or looks for a NUL that is not there.
pub delete-fault :
    (re : Regex) (input : Text) (cmd : TransCmd)
    → first_char cmd.cmdname ≡ b'd'
    → apply_xform_cmd re (some input) cmd ≡ fault
unfolding apply_xform_cmd xform_switch
delete-fault re input cmd h =
    let (from, stop, e, inside) = range-inside cmd.addr input in
    rw (e, h, delete_range-fault from stop input inside) refl
