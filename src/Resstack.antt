-- ===== src/Resstack.antt =====
-- src/resstack.c: which options of a rule were taken, as bits, and the stack of such histories.
-- A `char` of a history is a byte; an access out of bounds is a fault.
pub mod History
use Prim.Native.Nat.{bit_and, bit_or}
use dada_engine.Prelude.{
  ℕ, zero, suc, ◌/◌, ◌%◌, ◌^◌, List, [], ◌∷◌, Option, none, some, Outcome, ok, fault, get_elem?,
}
use dada_engine.Dict
use dada_engine.Dict.{Dict}
use dada_engine.Ptrlist.{list_cons}

-- `MAX_OPTIONS` of src/limits.h
abbrev pub max_options : ℕ
max_options = 256

-- `res_history`
abbrev pub ResHistory : Type 0
ResHistory = List ℕ

abbrev pub replicate : ℕ → ℕ → List ℕ
replicate zero x = []
replicate (suc n) x = x ∷ replicate n x

unfoldable pub hist_clear : ResHistory
hist_clear = replicate (max_options / 8) 0

-- The bit itself, which is not 0 if it is set.
unfoldable pub hist_test : ResHistory → ℕ → Outcome ℕ
hist_test r bitpos = elim (get_elem? r (bitpos / 8)) [
  | none ↦ fault
  | some byte ↦ ok (bit_and byte (2 ^ (bitpos % 8)))
]

-- `r[i] |= mask`
unfoldable pub or_byte : ResHistory → ℕ → ℕ → Outcome ResHistory
or_byte [] i mask = fault
or_byte (x ∷ r) zero mask = ok (bit_or x mask ∷ r)
or_byte (x ∷ r) (suc i) mask = elim (or_byte r i mask) [ ok r' ↦ ok (x ∷ r') | other ↦ other ]

unfoldable pub hist_set : ResHistory → ℕ → Outcome ResHistory
unfolding or_byte
hist_set r bitpos = or_byte r (bitpos / 8) (2 ^ (bitpos % 8))

-- `struct hist_item`
pub record HistItem : Type 0 where
  pub num_opts : ℕ
  pub hist : ResHistory

-- A frame of the stack is the dictionary of a list node; a new one is empty.
abbrev pub ResStack : Type 0
ResStack = List (Dict HistItem)

unfoldable pub resstack_push_new : ResStack → ResStack
unfolding list_cons
resstack_push_new stack = list_cons Dict.null stack

unfoldable pub resstack_pop : ResStack → ResStack
resstack_pop [] = []
resstack_pop (frame ∷ next) = next
