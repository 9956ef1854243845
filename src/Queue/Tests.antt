-- ===== src/Queue/Tests.antt =====
-- Test tables for the queue, and the theorems about it at concrete inputs.
use murlog.Prelude.{arith, length, ℕ, ◌≢◌, ◌≡◌, refl, none, some, List, [], ◌∷◌}
use murlog.Domain.{QueueJob, JobStatus, JobType, pending, running, failed}
use murlog.Prelude.Keys.{IdsUnique}
use murlog.Queue.Claiming.{Claims, claim-Claims}
use murlog.Queue.Holding.{begin, step, claim-held}
use murlog.Queue.Draining.{claim_all, claim_all-drained}
use murlog.Prelude.Tables.{count_where}
use murlog.Queue.Recovery.{recovered, find_job-recover_stale}
use murlog.Queue.Invariant.{Inv, here, next, enqueues, claims, completes, Reach-Inv}
use murlog.Queue.{key, ready, enqueue, claim, complete, pick, recover_stale, find_job, start}

abbrev job : ℕ → JobStatus → ℕ → ℕ → QueueJob
job id status attempts next_run = record {
  id = id;
  kind = JobType.deliver_note;
  payload = "{}";
  status = status;
  attempts = attempts;
  last_error = "";
  next_run_at = next_run;
  created_at = 0;
  completed_at = none;
}

abbrev table : List QueueJob
table = job 1 failed 2 50 ∷ job 2 pending 0 30 ∷ job 3 running 1 5 ∷ job 4 running 5 6 ∷ []

table-IdsUnique : IdsUnique key table
table-IdsUnique = (refl, (refl, (refl, (refl, tt))))

claim_second : (claim 60 table).1 ≡ some (start 60 (job 2 pending 0 30))
unfolding claim pick
claim_second = refl

recover_two : (recover_stale 1000 300 table).1 ≡ 1
unfolding recover_stale
recover_two = refl

claim-Claims_example : Claims 60 table (claim 60 table)
claim-Claims_example = claim-Claims 60 table table-IdsUnique

-- the third job is completed, and then the first one is claimed
claim_first : (claim 70 (complete 61 3 (claim 60 table).0)).1 ≡ some (start 70 (job 1 failed 2 50))
unfolding claim pick complete
claim_first = refl

claim-held_example : (start 70 (job 1 failed 2 50)).id ≢ (start 60 (job 2 pending 0 30)).id
claim-held_example =
    claim-held 60 70 table (complete 61 3 (claim 60 table).0) (start 60 (job 2 pending 0 30))
      (start 70 (job 1 failed 2 50)) claim_second (step begin (completes 61 3) refl) claim_first

claim_all-drained_example :
    (count_where (ready 60) (claim_all 5 60 table).0 ≡ 0) × (length (claim_all 5 60 table).1 ≡ 2)
claim_all-drained_example = claim_all-drained 5 60 table table-IdsUnique (omega arith)

find_job-recover_stale_example :
    find_job 4 (recover_stale 1000 300 table).0 ≡ some (recovered 1000 700 (job 4 running 5 6))
find_job-recover_stale_example = find_job-recover_stale 1000 300 4 table

one_enqueued : enqueue (job 7 pending 0 0) [] ≡ some (job 7 pending 0 0 ∷ [])
unfolding enqueue
one_enqueued = refl

Reach-Inv_example : Inv (claim 9 (job 7 pending 0 0 ∷ [])).0
Reach-Inv_example =
    Reach-Inv (next (next here (enqueues (job 7 pending 0 0) refl one_enqueued)) (claims 9))
