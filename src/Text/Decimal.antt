-- ===== src/Text/Decimal.antt =====
-- `sprintf("%i")` and `atoi` of the C library, on values that an `int` holds.
use dada_engine.Prelude.{
  ℕ, zero, suc, ◌+◌, ◌-◌, ◌*◌, ◌/◌, ◌%◌, ◌≤◌, ◌<◌, ◌≡◌, ap, ◌∙◌, inl, inr, Bool-cases, [], ◌∷◌,
  Bool, ◌&&◌, ◌||◌, arith, leb, ◌==◌, if◌then◌else◌,
}
use dada_engine.Prelude.Int.{ℤ, pos, negsuc, neg}
use dada_engine.Text.{Text}

-- The decimal digits of `n`, in front of `out`.
unfoldable pub digits : ℕ → ℕ → Text → Text
digits zero n out = out
digits (suc f) n out =
    let more = digits f (n / 10) ((b'0' + n % 10) ∷ out) in
    if n / 10 == 0 then (b'0' + n % 10) ∷ out else more

unfoldable pub decimal : ℕ → Text
unfolding digits
decimal n = digits (suc n) n []

unfoldable pub print_int : ℤ → Text
unfolding decimal
print_int (pos n) = decimal n
print_int (negsuc n) = b'-' ∷ decimal (suc n)

abbrev is_digit : ℕ → Bool
is_digit c = leb b'0' c && leb c b'9'

-- The value of the digits that `s` begins with, behind `n`.
scan : Text → ℕ → ℕ
scan [] n = n
scan (c ∷ s) n = let rest = scan s (n * 10 + (c - b'0')) in if is_digit c then rest else n

abbrev is_space : ℕ → Bool
is_space c = c == 32 || (leb 9 c && leb c 13)

unfoldable pub atoi : Text → ℤ
unfolding scan
atoi [] = pos 0
atoi (c ∷ s) =
    let skipped = atoi s in
    if is_space c
    then skipped
    else if c == b'-'
    then neg (scan s 0)
    else if c == b'+'
    then pos (scan s 0)
    else pos (scan (c ∷ s) 0)

scan-digits : (f n : ℕ) (out : Text) → n < f → scan (digits f n out) 0 ≡ scan out n
unfolding digits scan
scan-digits zero n out h = absurd (omega arith)
scan-digits (suc f) n out h = ground (arith, scan-digits f (n / 10) ((b'0' + n % 10) ∷ out))

abbrev BeginsWithDigit : Text → Type 0
BeginsWithDigit [] = ⊥
BeginsWithDigit (c ∷ s) = (b'0' ≤ c) × (c ≤ b'9')

digits-BeginsWithDigit : (f n : ℕ) (out : Text) → n < f → BeginsWithDigit (digits f n out)
unfolding digits
digits-BeginsWithDigit zero n out h = absurd (omega arith)
digits-BeginsWithDigit (suc f) n out h = elim (Bool-cases (n / 10 == 0)) [
  | inl e ↦ rw e (omega arith)
  | inr e ↦ rw e (digits-BeginsWithDigit f (n / 10) ((b'0' + n % 10) ∷ out) (ground arith))
]

atoi-digits : (s : Text) → BeginsWithDigit s → atoi s ≡ pos (scan s 0)
unfolding atoi
atoi-digits [] h = absurd h
atoi-digits (c ∷ s) h = ground arith

scan-decimal : (n : ℕ) → scan (decimal n) 0 ≡ n
unfolding decimal scan
scan-decimal n = scan-digits (suc n) n [] (omega arith)

-- A printed number reads back.
pub atoi-print_int : (z : ℤ) → atoi (print_int z) ≡ z
unfolding atoi print_int
atoi-print_int (negsuc n) = ground (arith, scan-decimal (suc n))
atoi-print_int (pos n) =
    atoi-digits (decimal n) (digits-BeginsWithDigit (suc n) n [] (omega arith))
    ∙ ap pos (scan-decimal n)
