-- ===== src/Queue/Single.antt =====
-- queue/sqlqueue/sqlqueue.go: the operations on a table of one row.
use murlog.Prelude.{ℕ, ◌≡◌, true, arith, some, [], ◌∷◌, String}
use murlog.Domain.{QueueJob, failed, dead}
use murlog.Queue.{ready, pick, claim, start, returned, mark_dead, fail}

module _ (now : ℕ) (j : QueueJob) where
  pub claim_single :
      ready now j ≡ true → claim now (j ∷ []) ≡ (start now j ∷ [], some (returned (start now j)))
  unfolding claim pick
  claim_single h = ground arith

  pub fail_single :
      (error : String)
      → fail j.id now error (j ∷ [])
        ≡ record j { status = failed; next_run_at = now; last_error = error } ∷ []
  unfolding fail
  fail_single error = ground arith

  pub mark_dead_single :
      (error : String)
      → mark_dead now j.id error (j ∷ [])
        ≡ record j { status = dead; last_error = error; completed_at = some now } ∷ []
  unfolding mark_dead
  mark_dead_single error = ground arith
