-- ===== src/Resstack/History.antt =====
-- src/resstack.c: histories as sets of bits.
use Prim.Native.Nat.{bit_and, bit_or}
use dada_engine.Prelude.{
  sym, ℕ, zero, suc, ◌/◌, ◌%◌, ◌^◌, ◌<◌, ◌≡◌, ◌≢◌, refl, ap, ◌∙◌, inl, inr, Bool-cases, fault, Bool,
  true, false, ◌&&◌, ◌||◌, not, [], ◌∷◌, some, Outcome, ok, get_elem?, length, ◌==◌, ltb, arith,
  if◌then◌else◌,
}
use dada_engine.Resstack.{
  hist_clear, replicate, ResHistory, hist_test, hist_set, or_byte, max_options,
}

-- The test holds of each of the first numbers, which is found out by running it on them.
holds_to : (ℕ → Bool) → ℕ → Bool
holds_to test zero = true
holds_to test (suc last) = holds_to test last && test last

holds_to-lt : (test : ℕ → Bool) (n k : ℕ) → holds_to test n ≡ true → k < n → test k ≡ true
unfolding holds_to
holds_to-lt test zero k h lt = absurd (omega arith)
holds_to-lt test (suc last) k h lt = ground (arith, holds_to-lt test last k)

abbrev is_set : ℕ → Bool
is_set bit = not (bit == 0)

abbrev same_bool : Bool → Bool → Bool
same_bool true b = b
same_bool false b = not b

abbrev or_law : ℕ → ℕ → ℕ → Bool
or_law x a b =
    ltb (bit_or x (2 ^ a)) 256
    && same_bool (is_set (bit_and (bit_or x (2 ^ a)) (2 ^ b)))
        ((a == b) || is_set (bit_and x (2 ^ b)))

-- `or_law` for all masks over one byte.
abbrev or_row : ℕ → Bool
or_row x = holds_to (λ a. holds_to (or_law x a) 8) 8

or_rows : holds_to or_row 256 ≡ true
unfolding holds_to
or_rows = refl

bits_of_or : (x a b : ℕ) → x < 256 → a < 8 → b < 8 → or_law x a b ≡ true
bits_of_or x a b hx ha hb =
    let row = holds_to-lt or_row 256 x or_rows hx in
    let masks = holds_to-lt (λ c. holds_to (or_law x c) 8) 8 a row ha in
    holds_to-lt (or_law x a) 8 b masks hb

abbrev Bytes : ResHistory → Type 0
Bytes [] = Unit
Bytes (x ∷ r) = (x < 256) × Bytes r

-- A history has one bit for each option.
abbrev pub IsHistory : ResHistory → Type 0
IsHistory r = (length r ≡ 32) × Bytes r

abbrev byte_at : ResHistory → ℕ → ℕ
byte_at [] n = 0
byte_at (x ∷ r) zero = x
byte_at (x ∷ r) (suc n) = byte_at r n

get_elem?-byte_at : (r : ResHistory) (n : ℕ) → n < length r → get_elem? r n ≡ some (byte_at r n)
get_elem?-byte_at [] n h = absurd (omega arith)
get_elem?-byte_at (x ∷ r) zero h = refl
get_elem?-byte_at (x ∷ r) (suc n) h = get_elem?-byte_at r n (omega arith)

byte_at-lt : (r : ResHistory) (n : ℕ) → Bytes r → byte_at r n < 256
byte_at-lt [] n h = omega arith
byte_at-lt (x ∷ r) zero h = h.0
byte_at-lt (x ∷ r) (suc n) h = byte_at-lt r n h.1

or_byte_lem :
    (r : ResHistory) (k m : ℕ)
    → k < length r
    → Bytes r
    → bit_or (byte_at r k) m < 256
    → (r' : ResHistory) × (or_byte r k m ≡ ok r')
      × (length r' ≡ length r)
      × Bytes r'
      × ((n : ℕ) → byte_at r' n ≡ (if n == k then bit_or (byte_at r k) m else byte_at r n))
unfolding or_byte
or_byte_lem [] k m h b o = absurd (omega arith)
or_byte_lem (x ∷ r) zero m h b o = (bit_or x m ∷ r, refl, refl, (o, b.1), here)
  where
    here : (n : ℕ) → byte_at (bit_or x m ∷ r) n ≡ (if n == 0 then bit_or x m else byte_at (x ∷ r) n)
    here zero = refl
    here (suc n) = ground arith
or_byte_lem (x ∷ r) (suc k) m h b o =
    let (r', e, len, bytes, at) = or_byte_lem r k m (omega arith) b.1 o in
    (x ∷ r', rw e refl, ap suc len, (b.0, bytes), there r' at)
  where
    there :
        (r' : ResHistory)
        → ((n : ℕ) → byte_at r' n ≡ (if n == k then bit_or (byte_at r k) m else byte_at r n))
        → (n : ℕ)
        → byte_at (x ∷ r') n ≡ (if n == suc k then bit_or (byte_at r k) m else byte_at (x ∷ r) n)
    there r' at zero = ground arith
    there r' at (suc n) = ground (arith, at n)

zeros-Bytes : (n : ℕ) → Bytes (replicate n 0)
zeros-Bytes zero = tt
zeros-Bytes (suc n) = (omega arith, zeros-Bytes n)

pub hist_clear-IsHistory : IsHistory hist_clear
unfolding hist_clear
hist_clear-IsHistory = (refl, zeros-Bytes 32)

hist_test-byte_at :
    (r : ResHistory) (j : ℕ)
    → IsHistory r
    → j < 256
    → hist_test r j ≡ ok (bit_and (byte_at r (j / 8)) (2 ^ (j % 8)))
unfolding hist_test
hist_test-byte_at r j h lt = rw (get_elem?-byte_at r (j / 8) (omega (arith, h.0)), hist_test) refl

-- Whether the bit is found set.
abbrev pub tested : Outcome ℕ → Bool
tested (ok bit) = is_set bit
tested other = false

both : (a b : Bool) → (a && b) ≡ true → (a ≡ true) × (b ≡ true)
both true b h = (refl, h)
both false b h = ground arith

lt_of : (a b : ℕ) → ltb a b ≡ true → a < b
lt_of a b h = ground arith

eq_of : (a b : ℕ) → (a == b) ≡ true → a ≡ b
eq_of a b h = ground arith

same_bool-eq : (a b : Bool) → same_bool a b ≡ true → a ≡ b
same_bool-eq true b h = sym h
same_bool-eq false true h = ground arith
same_bool-eq false false h = refl

or_lt : (x a : ℕ) → x < 256 → a < 8 → bit_or x (2 ^ a) < 256
or_lt x a hx ha = lt_of _ _ ((both _ _ (bits_of_or x a 0 hx ha (omega arith))).0)

or_bit :
    (x a b : ℕ)
    → x < 256
    → a < 8
    → b < 8
    → is_set (bit_and (bit_or x (2 ^ a)) (2 ^ b)) ≡ ((a == b) || is_set (bit_and x (2 ^ b)))
or_bit x a b hx ha hb = same_bool-eq _ _ (both _ _ (bits_of_or x a b hx ha hb)).1

same_bit : (i j : ℕ) → j / 8 ≡ i / 8 → (i % 8 == j % 8) ≡ (i == j)
same_bit i j e = ground arith

bit_after :
    (r r' : ResHistory) (i j : ℕ)
    → Bytes r
    → byte_at r' (j / 8)
      ≡ (if j / 8 == i / 8 then bit_or (byte_at r (i / 8)) (2 ^ (i % 8)) else byte_at r (j / 8))
    → is_set (bit_and (byte_at r' (j / 8)) (2 ^ (j % 8)))
      ≡ ((i == j) || is_set (bit_and (byte_at r (j / 8)) (2 ^ (j % 8))))
bit_after r r' i j b e = elim (Bool-cases (j / 8 == i / 8)) [
  | inl same ↦ rw (e, same, eq_of _ _ same) (within (eq_of _ _ same))
  | inr apart ↦ rw (e, apart, other apart) refl
]
  where
    within :
        j / 8 ≡ i / 8
        → is_set (bit_and (bit_or (byte_at r (i / 8)) (2 ^ (i % 8))) (2 ^ (j % 8)))
          ≡ ((i == j) || is_set (bit_and (byte_at r (i / 8)) (2 ^ (j % 8))))
    within same =
        or_bit (byte_at r (i / 8)) (i % 8) (j % 8) (byte_at-lt r (i / 8) b) (omega arith)
          (omega arith)
        ∙ ap (λ t. t || is_set (bit_and (byte_at r (i / 8)) (2 ^ (j % 8)))) (same_bit i j same)

    other : (j / 8 == i / 8) ≡ false → (i == j) ≡ false
    other apart = ground arith

-- In a history of 32 bytes, setting the bit of an option below 256 succeeds and leaves a history;
-- afterwards the test of any option below 256 succeeds, and finds the bit set if it is that option's
-- or was found set before.
pub hist_test-hist_set :
    (r : ResHistory) (i j : ℕ)
    → IsHistory r
    → i < max_options
    → j < max_options
    → (r' : ResHistory) × (hist_set r i ≡ ok r')
      × IsHistory r'
      × (hist_test r' j ≢ fault)
      × (tested (hist_test r' j) ≡ ((i == j) || tested (hist_test r j)))
unfolding hist_set
hist_test-hist_set r i j h hi hj =
    let x = byte_at r (i / 8) in
    let (r', e, len, bytes, at) =
      or_byte_lem r (i / 8) (2 ^ (i % 8)) (omega (arith, h.0)) h.1
        (or_lt x (i % 8) (byte_at-lt r (i / 8) h.1) (omega arith)) in
    let valid : IsHistory r' = (len ∙ h.0, bytes) in
    let after = hist_test-byte_at r' j valid hj in
    (
      r',
      e,
      valid,
      λ f. cc,
      rw (after, hist_test-byte_at r j h hj) (bit_after r r' i j h.1 (at (j / 8))),
    )
