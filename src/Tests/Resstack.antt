-- ===== src/Tests/Resstack.antt =====
-- A history of two options.
use dada_engine.Prelude.{◌≡◌, ◌≢◌, refl, ◌||◌, ◌==◌, ok, fault, arith, []}
use dada_engine.Resstack.{
  ResHistory, hist_clear, hist_set, hist_test, or_byte, max_options, resstack_push_new,
  resstack_pop,
}
use dada_engine.Resstack.History.{IsHistory, hist_clear-IsHistory, tested, hist_test-hist_set}
use dada_engine.Ptrlist.{list_cons}

outside : hist_set hist_clear max_options ≡ fault
unfolding hist_clear hist_set or_byte
outside = refl

pushed_popped : resstack_pop (resstack_push_new []) ≡ []
unfolding resstack_pop resstack_push_new list_cons
pushed_popped = refl

hist_test-hist_set_example :
    (r' : ResHistory) × (hist_set hist_clear 9 ≡ ok r')
    × IsHistory r'
    × (hist_test r' 9 ≢ fault)
    × (tested (hist_test r' 9) ≡ ((9 == 9) || tested (hist_test hist_clear 9)))
hist_test-hist_set_example =
    hist_test-hist_set hist_clear 9 9 hist_clear-IsHistory (omega arith) (omega arith)
