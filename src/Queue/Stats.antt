-- ===== src/Queue/Stats.antt =====
-- queue/sqlqueue/sqlqueue.go: Stats.
use murlog.Prelude.{ℕ, ◌+◌, Bool, ◌≡◌, if◌then◌else◌, ltb, arith, List, [], ◌∷◌, length}
use murlog.Prelude.Tables.{count_where}
use murlog.Domain.{
  QueueJob, JobStatus, pending, running, done, failed, dead, is_pending, is_running, is_done,
  is_failed, is_dead,
}

-- QueueStats
pub record QueueStats : Type 0 where
  pub pending_count : ℕ
  pub running_count : ℕ
  pub done_count : ℕ
  pub failed_count : ℕ
  pub dead_count : ℕ

has_status : JobStatus → QueueJob → Bool
has_status pending j = is_pending j.status
has_status running j = is_running j.status
has_status done j = is_done j.status
has_status failed j = is_failed j.status
has_status dead j = is_dead j.status

-- SELECT status, COUNT(*) .. GROUP BY status: a row for each of the statuses that occurs
groups : List QueueJob → List JobStatus → List (JobStatus × ℕ)
unfolding has_status
groups q [] = []
groups q (s ∷ ss) =
    let rest = groups q ss in
    let n = count_where (has_status s) q in if ltb 0 n then (s, n) ∷ rest else rest

-- the switch in the loop over the rows
set_count : QueueStats → JobStatus × ℕ → QueueStats
set_count s (pending, n) = record s { pending_count = n }
set_count s (running, n) = record s { running_count = n }
set_count s (done, n) = record s { done_count = n }
set_count s (failed, n) = record s { failed_count = n }
set_count s (dead, n) = record s { dead_count = n }

scan_rows : QueueStats → List (JobStatus × ℕ) → QueueStats
unfolding set_count
scan_rows s [] = s
scan_rows s (r ∷ rs) = scan_rows (set_count s r) rs

-- Stats
pub stats : List QueueJob → QueueStats
unfolding groups scan_rows
stats q =
    scan_rows
      (record {
        pending_count = 0;
        running_count = 0;
        done_count = 0;
        failed_count = 0;
        dead_count = 0;
      })
      (groups q (pending ∷ running ∷ done ∷ failed ∷ dead ∷ []))

abbrev all_counts : List QueueJob → QueueStats
all_counts q = record {
  pending_count = count_where (λ j. is_pending j.status) q;
  running_count = count_where (λ j. is_running j.status) q;
  done_count = count_where (λ j. is_done j.status) q;
  failed_count = count_where (λ j. is_failed j.status) q;
  dead_count = count_where (λ j. is_dead j.status) q;
}

-- Stats has the number of jobs in each status, also where there are none.
pub stats_lem : (q : List QueueJob) → stats q ≡ all_counts q
unfolding stats
stats_lem q = ground arith

counts_total :
    (q : List QueueJob)
    → count_where (λ j. is_pending j.status) q
        + count_where (λ j. is_running j.status) q
        + count_where (λ j. is_done j.status) q
        + count_where (λ j. is_failed j.status) q
        + count_where (λ j. is_dead j.status) q
      ≡ length q
counts_total [] = omega arith
counts_total (j ∷ q) = ground (arith, counts_total q)

-- The five numbers of Stats add up to the number of rows.
pub stats_total :
    (q : List QueueJob)
    → (stats q).pending_count
        + (stats q).running_count
        + (stats q).done_count
        + (stats q).failed_count
        + (stats q).dead_count
      ≡ length q
stats_total q = rw (stats_lem q) (counts_total q)
