-- ===== src/Queue/Recovery.antt =====
-- queue/sqlqueue/sqlqueue.go: RecoverStale, and what Cleanup and CancelByDomain may delete.
use mathlib.Core.Option
use murlog.Prelude.{
  ℕ, ◌-◌, false, not, ◌&&◌, ◌≡◌, refl, if◌then◌else◌, leb, arith, List, [], ◌∷◌, All,
}
use murlog.Prelude.Tables.{update_where, count_where}
use murlog.Prelude.Keys.{find_row-update_where}
use murlog.Domain.{QueueJob, max_job_attempts}
use murlog.Queue.{key, find_job, is_stale, is_exhausted, bury, revive, recover_stale}

-- the row after RecoverStale, from the row before it
abbrev pub recovered : ℕ → ℕ → QueueJob → QueueJob
recovered now cutoff j =
    if is_stale cutoff j
    then (if leb max_job_attempts j.attempts then bury now j else revive now j)
    else j

two_updates :
    (now cutoff : ℕ) (j : QueueJob)
    → (let j' = if is_exhausted cutoff j then bury now j else j in
        if is_stale cutoff j' then revive now j' else j')
      ≡ recovered now cutoff j
two_updates now cutoff j = ground arith

-- RecoverStale turns each row that has been running since before the cutoff into a dead row, if
-- its attempts are used up, or else into a failed row that is due now; it changes no other row.
pub find_job-recover_stale :
    (now stale_after k : ℕ) (q : List QueueJob)
    → find_job k (recover_stale now stale_after q).0
      ≡ Option.map (recovered now (now - stale_after)) (find_job k q)
unfolding recover_stale
find_job-recover_stale now stale_after k q = ground (
  arith,
  find_row-update_where key (is_stale (now - stale_after)) (revive now) (λ _. refl) k
      (update_where (is_exhausted (now - stale_after)) (bury now) q),
  find_row-update_where key (is_exhausted (now - stale_after)) (bury now) (λ _. refl) k q,
)

-- the number that it reports is that of the rows it gives another try
pub count-recover_stale :
    (now stale_after : ℕ) (q : List QueueJob)
    → (recover_stale now stale_after q).1
      ≡ count_where (λ j. is_stale (now - stale_after) j && not (leb max_job_attempts j.attempts)) q
unfolding recover_stale
count-recover_stale now stale_after [] = refl
count-recover_stale now stale_after (r ∷ q) = ground (arith, count-recover_stale now stale_after q)

none_stale :
    (now cutoff : ℕ) (q : List QueueJob)
    → All (λ j. is_stale cutoff j ≡ false) (update_where (is_stale cutoff) (revive now) q)
none_stale now cutoff [] = tt
none_stale now cutoff (r ∷ q) = ground (arith, none_stale now cutoff q)

-- After RecoverStale no row is stale.
pub recover_stale-none_stale :
    (now stale_after : ℕ) (q : List QueueJob)
    → All (λ j. is_stale (now - stale_after) j ≡ false) (recover_stale now stale_after q).0
unfolding recover_stale
recover_stale-none_stale now stale_after q = none_stale now (now - stale_after) _
