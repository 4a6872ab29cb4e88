-- ===== src/Select.antt =====
-- src/resolve.c, `select_option`: the choice of an option. `do … while` loops run on fuel.
pub mod Walk
pub mod Weights
pub mod Crowded
pub mod Old
pub mod Valid
use dada_engine.Prelude.{
  ℕ, zero, suc, ◌+◌, ◌-◌, ◌*◌, ◌/◌, ◌%◌, ◌^◌, Bool, true, false, ◌&&◌, Outcome, ok, fault, timeout,
  ltb, ◌==◌, if◌then◌else◌,
}
use dada_engine.Prelude.Int.{ℤ, pos, eqb_ℤ}
use dada_engine.Rtn.{ResMode, plain, Options, end, option, option_map, option_length, option_nth}
use dada_engine.Engine.{Env, M, ◌>>=◌, ◌>>◌, pure, lift, crash, get, put, update, next_random}

-- A weight is an `int` that is never negative; one that does not fit is a signed overflow.
abbrev pub int_limit : ℕ
int_limit = 2 ^ 31

abbrev pub checked_ℕ : ℕ → Outcome ℕ
checked_ℕ n = if ltb n int_limit then ok n else fault

unfoldable pub sum_option_weights : (ℕ → ℕ) → ℕ → ℕ → Outcome ℕ
sum_option_weights weight o s = checked_ℕ (s + weight o)

unfoldable pub incr_option_weight : ℕ → (ℕ → ℕ) → Outcome (ℕ → ℕ)
incr_option_weight o weight =
    if ltb ((weight o + 1) * 3) int_limit
    then ok (update weight o ((weight o + 1) * 3 / 2))
    else fault

-- `while(ch>o->randweight) { ch -= o->randweight; o=o->next; }`
unfoldable pub walk : (ℕ → ℕ) → Options → ℕ → Outcome Options
walk weight end ch = fault
walk weight (option o atoms next) ch =
    let rest = walk weight next (ch - weight o) in
    if ltb (weight o) ch then rest else ok (option o atoms next)

-- `o->randweight = 1`, and then every option's weight goes up.
unfoldable pub reweight : Options → Options → (ℕ → ℕ) → Outcome (ℕ → ℕ)
reweight options end weight = fault
reweight options (option o atoms next) weight =
    option_map options incr_option_weight (update weight o 1)

-- `ch=sum?random()%sum:0;`
unfoldable pub draw : Env → ℕ → M ℕ
draw env sum = if sum == 0 then pure 0 else (next_random env >>= λ r. pure (r % sum))

-- `do { choice = random()%n; } while ((choice==last) && (n>1));`
unfoldable pub redraw : Env → ℕ → ℕ → ℤ → M ℕ
redraw env zero n last = λ s. timeout
redraw env (suc f) n last = do
  let again = redraw env f n last
  r ← next_random env
  if n == 0 then crash else (if eqb_ℤ (pos (r % n)) last && ltb 1 n then again else pure (r % n))

abbrev pub is_plain : ResMode → Bool
is_plain plain = true
is_plain _ = false

-- The old way: any option but the last one taken. `last` is the address of `last_choice`.
unfoldable pub select_old : Env → ℕ → Options → ℕ → M Options
select_old env f options last = do
  s ← get
  choice ← redraw env f (option_length options) (s.last_choice last)
  t ← get
  put (record t { last_choice = update t.last_choice last (pos choice) })
  pure (option_nth options choice)

-- The new way: by weight.
unfoldable pub select_new : Env → Options → M Options
select_new env options = do
  s ← get
  sum ← lift (option_map options (sum_option_weights s.randweight) 0)
  ch ← draw env sum
  o ← lift (walk s.randweight options ch)
  weight ← lift (reweight options o s.randweight)
  t ← get
  put (record t { randweight = weight })
  pure o

unfoldable pub select_option : Env → ℕ → Options → ℕ → ResMode → M Options
select_option env f options last mode =
    if env.old_probability && is_plain mode
    then select_old env f options last
    else select_new env options
