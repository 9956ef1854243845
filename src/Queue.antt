-- ===== src/Queue.antt =====
-- queue/queue.go and queue/sqlqueue/sqlqueue.go: the job queue over the table `queue_jobs`.
-- Each SQL statement is the function on the rows that it denotes; `now` is the clock of the call.
-- The primary key is checked on insertion, and an insertion that it refuses is `none`.
mod Rows
pub mod Claiming
pub mod Draining
pub mod Holding
pub mod Recovery
pub mod Stats
pub mod Invariant
pub mod Updates
pub mod Single
mod Tests
pub use Rows.*
use Prim.Native.String.{◌++◌ as append}
use murlog.Prelude.{
  ℕ, ◌-◌, ◌+◌, Bool, true, false, not, ◌&&◌, ◌||◌, if◌then◌else◌, ltb, leb, ◌==◌, Option, none,
  some, List, [], ◌∷◌, String,
}
use murlog.Prelude.Tables.{
  select, count_where, find_row, update_where, delete_where, any_row, order_by,
}
use murlog.Domain.{
  QueueJob, JobStatus, pending, running, done, failed, dead, is_pending, is_running, is_done,
  is_failed, is_dead, max_job_attempts,
}

-- HasPending
pub has_pending : ℕ → List QueueJob → Bool
has_pending now q = any_row (ready now) q

-- the columns that an INSERT does not name take their defaults
abbrev pub inserted : QueueJob → QueueJob
inserted j = record j { last_error = ""; completed_at = none }

-- Enqueue
pub enqueue : QueueJob → List QueueJob → Option (List QueueJob)
enqueue j q = if any_row (has_id j.id) q then none else some (inserted j ∷ q)

-- the inserts of EnqueueBatch inside their transaction; an error rolls all of them back
pub enqueue_batch : List QueueJob → List QueueJob → Option (List QueueJob)
unfolding enqueue
enqueue_batch [] q = some q
enqueue_batch (j ∷ js) q = elim (enqueue j q) [ none ↦ none | some q' ↦ enqueue_batch js q' ]

-- the subquery of Claim: ready rows ORDER BY next_run_at LIMIT 1. Of rows with equal times SQL may
-- give any; here the first is taken.
pub pick : ℕ → List QueueJob → Option QueueJob
pick now q = first_row (order_by (λ j. j.next_run_at) (select (ready now) q))

-- what Claim sets in the row
abbrev pub start : ℕ → QueueJob → QueueJob
start now j = record j { status = running; attempts = j.attempts + 1; next_run_at = now }

-- the columns of RETURNING: the job that Claim returns has no completed_at
abbrev pub returned : QueueJob → QueueJob
returned j = record j { completed_at = none }

-- Claim: one UPDATE .. RETURNING
pub claim : ℕ → List QueueJob → List QueueJob × Option QueueJob
claim now q = elim (pick now q) [
  | none ↦ (q, none)
  | some j ↦ (update_where (has_id j.id) (start now) q, some (returned (start now j)))
]

-- Complete
pub complete : ℕ → ℕ → List QueueJob → List QueueJob
complete now id =
    update_where (has_id id)
      (λ j. record j { status = done; completed_at = some now; payload = ""; last_error = "" })

-- Dead
pub mark_dead : ℕ → ℕ → String → List QueueJob → List QueueJob
mark_dead now id error =
    update_where (has_id id)
      (λ j. record j { status = dead; last_error = error; completed_at = some now })

-- Fail
pub fail : ℕ → ℕ → String → List QueueJob → List QueueJob
fail id next_run error =
    update_where (has_id id)
      (λ j. record j { status = failed; next_run_at = next_run; last_error = error })

-- Retry
pub retry : ℕ → ℕ → List QueueJob → List QueueJob
retry now id =
    update_where (has_id id)
      (λ j. record j { status = pending; next_run_at = now; last_error = "" })

-- the conditions of the two statements of RecoverStale
abbrev pub is_stale : ℕ → QueueJob → Bool
is_stale cutoff j = is_running j.status && ltb j.next_run_at cutoff

abbrev pub is_exhausted : ℕ → QueueJob → Bool
is_exhausted cutoff j = is_stale cutoff j && leb max_job_attempts j.attempts

abbrev pub bury : ℕ → QueueJob → QueueJob
bury now j = record j {
  status = dead;
  last_error = "recovered: stale + max attempts";
  completed_at = some now;
}

abbrev pub revive : ℕ → QueueJob → QueueJob
revive now j = record j {
  status = failed;
  last_error = "recovered: stale running job";
  next_run_at = now;
}

-- RecoverStale, with the number of rows that its second statement changes
pub recover_stale : ℕ → ℕ → List QueueJob → List QueueJob × ℕ
recover_stale now stale_after q =
    let cutoff = now - stale_after in
    let q' = update_where (is_exhausted cutoff) (bury now) q in
    (update_where (is_stale cutoff) (revive now) q', count_where (is_stale cutoff) q')

-- the condition of Cleanup
abbrev pub is_old : ℕ → QueueJob → Bool
is_old older_than j = (is_done j.status || is_dead j.status) && ltb j.created_at older_than

-- Cleanup, with the number of rows deleted
pub cleanup : ℕ → List QueueJob → List QueueJob × ℕ
cleanup older_than q = (delete_where (is_old older_than) q, count_where (is_old older_than) q)

-- CancelByDomain; `like text pattern` is the LIKE of the database
abbrev pub is_cancelled : (String → String → Bool) → String → QueueJob → Bool
is_cancelled like domain j =
    (is_pending j.status || is_failed j.status)
    && (like j.payload (append "%://" (append domain "/%"))
        || like j.payload (append "%://" (append domain ":%")))

pub cancel_by_domain : (String → String → Bool) → String → List QueueJob → List QueueJob × ℕ
cancel_by_domain like domain q =
    (delete_where (is_cancelled like domain) q, count_where (is_cancelled like domain) q)
