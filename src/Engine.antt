-- ===== src/Engine.antt =====
-- The state that the engine keeps in global variables and in the fields of the grammar that it
-- changes, and the actions on it. What it only reads while it resolves is `Env`.
-- `random()` and `rand()` of the C library are two sequences of numbers, given in advance.
use dada_engine.Prelude.{
  ℕ, ◌+◌, Bool, List, Outcome, ok, exited, fault, timeout, ◌==◌, if◌then◌else◌,
}
use dada_engine.Prelude.Int.{ℤ, fits_int}
use dada_engine.Variables.{Value, Vars}
use dada_engine.Map.{Regex, Mapping}
use dada_engine.Transform.{Transformation}
use dada_engine.Text.{Text}
use dada_engine.Rtn.{Node, RuleTree}

-- `raw` gives the bytes, up to the first that is zero, at the address in a node's `data`, for a node
-- that has the address of a structure there.
pub record Env : Type 0 where
  pub random : ℕ → ℕ
  pub rand : ℕ → ℕ
  pub rules : RuleTree
  pub mappings : List Mapping
  pub transformations : List Transformation
  pub old_probability : Bool
  pub regex : Regex
  pub raw : Node → Text

-- `stack` has its top first. `randoms` and `rands` count the calls of `random` and `rand`.
pub record Engine : Type 0 where
  pub vars : Vars
  pub stack : List Value
  pub randweight : ℕ → ℕ
  pub last_choice : ℕ → ℤ
  pub randoms : ℕ
  pub rands : ℕ

abbrev pub M {ℓ} : Type ℓ → Type ℓ
M A = Engine → Outcome (A × Engine)

abbrev pub pure {ℓ} : {A : Type ℓ} → A → M A
pure a s = ok (a, s)

-- What follows a first action, by how that ended.
abbrev pub then_do {ℓ κ} :
    {A : Type ℓ} {B : Type κ} → Outcome (A × Engine) → (A → M B) → Outcome (B × Engine)
then_do (ok (a, s)) f = f a s
then_do (exited n) f = exited n
then_do fault f = fault
then_do timeout f = timeout

infixl 5 ◌>>=◌ ◌>>◌
abbrev pub ◌>>=◌ {ℓ κ} : {A : Type ℓ} {B : Type κ} → M A → (A → M B) → M B
◌>>=◌ m f s = then_do (m s) f

abbrev pub ◌>>◌ {ℓ κ} : {A : Type ℓ} {B : Type κ} → M A → M B → M B
m >> k = m >>= λ _. k

-- An outcome that does not touch the state.
abbrev pub lift {ℓ} : {A : Type ℓ} → Outcome A → M A
lift (ok a) s = ok (a, s)
lift (exited n) s = exited n
lift fault s = fault
lift timeout s = timeout

abbrev pub crash {ℓ} : {A : Type ℓ} → M A
crash s = fault

abbrev pub quit {ℓ} : {A : Type ℓ} → ℕ → M A
quit n s = exited n

abbrev pub get : M Engine
get s = ok (s, s)

abbrev pub put : Engine → M (Unit {0})
put t s = ok (tt, t)

abbrev pub update {ℓ} : {A : Type ℓ} → (ℕ → A) → ℕ → A → ℕ → A
update f x a y = if y == x then a else f y

-- A signed overflow is a fault.
abbrev pub checked : ℤ → M ℤ
checked z s = if fits_int z then ok (z, s) else fault

abbrev pub next_random : Env → M ℕ
next_random env s = ok (env.random s.randoms, record s { randoms = s.randoms + 1 })

abbrev pub next_rand : Env → M ℕ
next_rand env s = ok (env.rand s.rands, record s { rands = s.rands + 1 })
