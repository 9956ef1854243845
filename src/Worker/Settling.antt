-- ===== src/Worker/Settling.antt =====
-- worker/worker.go: what becomes of the row of a job that has run.
use Prim.Native.String.{◌++◌ as append}
use murlog.Prelude.{
  ◌-◌, ℕ, ◌+◌, ◌*◌, ◌^◌, ◌≤◌, ◌≡◌, if◌then◌else◌, ltb, arith, Option, none, some, ◌==◌,
}
use murlog.Domain.{QueueJob, done, failed, dead}
use murlog.Queue.{find_job}
use murlog.Queue.Updates.{find_job-complete, find_job-mark_dead, find_job-fail}
use murlog.Externals.{Externals}
use murlog.Worker.{
  process_with, World, Outcome, success, failure, panic, Handler, Handlers, dispatch, settle,
  recovered, run_job, backoff,
}

-- how a job is meant to end up, by what its handler came back with
abbrev pub settled : ℕ → QueueJob → Outcome → QueueJob → QueueJob
settled now job success r = record r {
  status = done;
  completed_at = some now;
  payload = "";
  last_error = "";
}
settled now job (failure error) r =
    if ltb job.attempts 5
    then record r {
      status = failed;
      next_run_at = now + 30 * 2 ^ (job.attempts - 1);
      last_error = error;
    }
    else record r {
      status = dead;
      last_error = append "max attempts (5) reached: " error;
      completed_at = some now;
    }
settled now job (panic message) r = record r {
  status = failed;
  next_run_at = now + 30;
  last_error = append "panic: " message;
}

-- the world after the handler alone
abbrev pub handled : Option Handler → QueueJob → World → World × Outcome
handled none job w = (w, success)
handled (some handler) job w = handler job w

-- the bookkeeping of failed domains leaves the queue alone
settle_keeps :
    (ext : Externals) (now k : ℕ) (job r : QueueJob) (w : World) (o : Outcome)
    → 1 ≤ job.attempts
    → find_job job.id w.queue ≡ some r
    → find_job k (recovered now job (settle ext now job (w, o))).queue
      ≡ (if k == job.id then some (settled now job o r) else find_job k w.queue)
unfolding settle recovered backoff
settle_keeps ext now k job r w success claimed found =
    ground (arith, find_job-complete now k job.id w.queue r found)
settle_keeps ext now k job r w (failure error) claimed found = ground (
  arith,
  find_job-mark_dead now k job.id w.queue r found (append "max attempts (5) reached: " error),
  find_job-fail (now + 30 * 2 ^ (job.attempts - 1)) k job.id w.queue r found error,
)
settle_keeps ext now k job r w (panic message) claimed found =
    ground (arith, find_job-fail (now + 30) k job.id w.queue r found (append "panic: " message))

handled_keeps :
    (ext : Externals) (now k : ℕ) (job r : QueueJob) (w : World) (handler : Option Handler)
    → 1 ≤ job.attempts
    → find_job job.id (handled handler job w).0.queue ≡ some r
    → find_job k (recovered now job (process_with ext now job handler w)).queue ≡ (
        if k == job.id
        then some (settled now job (handled handler job w).1 r)
        else find_job k (handled handler job w).0.queue)
unfolding process_with recovered
handled_keeps ext now k job r w none claimed found = find_job-complete now k job.id w.queue r found
handled_keeps ext now k job r w (some handler) claimed found =
    settle_keeps ext now k job r (handler job w).0 (handler job w).1 claimed found

-- A job that was claimed is settled by its handler's outcome: done after a success (and where its
-- type is unknown), due again after 30 * 2 ^ (attempts - 1) seconds after a failure, dead after the
-- failure of the fifth attempt or a later one, and due again after 30 seconds after a panic. No
-- other row of the table that the handler left changes.
pub find_job-run_job :
    (ext : Externals) (h : Handlers) (now k : ℕ) (job r : QueueJob) (w : World)
    → 1 ≤ job.attempts
    → find_job job.id (handled (dispatch h job.kind) job w).0.queue ≡ some r
    → find_job k (run_job ext h now job w).queue ≡ (
        if k == job.id
        then some (settled now job (handled (dispatch h job.kind) job w).1 r)
        else find_job k (handled (dispatch h job.kind) job w).0.queue)
unfolding run_job
find_job-run_job ext h now k job r w claimed found =
    handled_keeps ext now k job r w (dispatch h job.kind) claimed found
