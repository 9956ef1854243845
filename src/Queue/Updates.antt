-- ===== src/Queue/Updates.antt =====
-- queue/sqlqueue/sqlqueue.go: the lookup of a row after Complete, Dead, Fail and Retry.
use murlog.Prelude.{
  false, [], ◌∷◌, false, [], ℕ, ◌≡◌, refl, inl, inr, if◌then◌else◌, arith, some, List, ◌==◌, ==_iff,
  Bool-cases, String,
}
use murlog.Prelude.Tables.{any_row, any_row, update_where}
use murlog.Prelude.Keys.{find_row-update_key}
use murlog.Domain.{QueueJob, pending, done, failed, dead}
use murlog.Queue.{
  inserted, enqueue, enqueue_batch, enqueue, enqueue_batch, key, has_id, find_job, complete,
  mark_dead, fail, retry,
}

module _ (k id : ℕ) (f : QueueJob → QueueJob) (keep : (j : QueueJob) → (f j).id ≡ j.id) where
  row_set :
      (q : List QueueJob) (r : QueueJob)
      → find_job id q ≡ some r
      → find_job k (update_where (has_id id) f q) ≡ (if k == id then some (f r) else find_job k q)
  row_set q r found = elim (Bool-cases (k == id)) [
    | inl e ↦
        let same : k ≡ id = (==_iff k id).0 e in
        let at_k : find_job k q ≡ some r = rw same found in
        ground (arith, find_row-update_key key k id f keep q)
    | inr e ↦ ground (arith, find_row-update_key key k id f keep q)
  ]

module _ (now k id : ℕ) (q : List QueueJob) (r : QueueJob) (found : find_job id q ≡ some r) where
  pub find_job-complete : find_job k (complete now id q) ≡ (
      if k == id
      then some (record r { status = done; completed_at = some now; payload = ""; last_error = "" })
      else find_job k q)
  unfolding complete
  find_job-complete = row_set k id _ (λ _. refl) q r found

  pub find_job-mark_dead :
      (error : String)
      → find_job k (mark_dead now id error q) ≡ (
          if k == id
          then some (record r { status = dead; last_error = error; completed_at = some now })
          else find_job k q)
  unfolding mark_dead
  find_job-mark_dead error = row_set k id _ (λ _. refl) q r found

  pub find_job-fail :
      (error : String)
      → find_job k (fail id now error q) ≡ (
          if k == id
          then some (record r { status = failed; next_run_at = now; last_error = error })
          else find_job k q)
  unfolding fail
  find_job-fail error = row_set k id _ (λ _. refl) q r found

  pub find_job-retry : find_job k (retry now id q) ≡ (
      if k == id
      then some (record r { status = pending; next_run_at = now; last_error = "" })
      else find_job k q)
  unfolding retry
  find_job-retry = row_set k id _ (λ _. refl) q r found

-- a batch whose first job has a new id
pub enqueue_batch-cons :
    (j : QueueJob) (js q : List QueueJob)
    → any_row (has_id j.id) q ≡ false
    → enqueue_batch (j ∷ js) q ≡ enqueue_batch js (inserted j ∷ q)
unfolding enqueue_batch enqueue
enqueue_batch-cons j js q h = ground (arith, h)

pub enqueue_batch-nil : (q : List QueueJob) → enqueue_batch [] q ≡ some q
unfolding enqueue_batch
enqueue_batch-nil q = refl

pub enqueue-new :
    (j : QueueJob) (q : List QueueJob)
    → any_row (has_id j.id) q ≡ false
    → enqueue j q ≡ some (inserted j ∷ q)
unfolding enqueue
enqueue-new j q h = rw h refl
