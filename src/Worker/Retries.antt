-- ===== src/Worker/Retries.antt =====
-- worker/worker.go: a job whose handler keeps failing, and the delays between its attempts.
use Prim.Native.String.{◌++◌ as append}
use mathlib.Core.Option.{some-injective}
use native.Mathlib.Nat.{pow-suc}
use murlog.Prelude.{
  ap, ℕ, suc, ◌+◌, ◌*◌, ◌^◌, ◌≤◌, ◌≡◌, refl, ◌∙◌, ◌||◌, true, if◌then◌else◌, ltb, arith, Option,
  some, List, [], ◌∷◌, String, length,
}
use murlog.Domain.{QueueJob, failed, dead, is_pending, is_failed}
use murlog.Queue.{ready, start, returned, claim}
use murlog.Queue.Single.{claim_single, fail_single, mark_dead_single}
use murlog.Externals.{Externals}
use murlog.Worker.{World, failure, Handler, Handlers, dispatch, settle, run_once, backoff}

-- the row after a failure of the job that was claimed at `now`
abbrev pub after_failure : ℕ → String → QueueJob → QueueJob
after_failure now error j =
    let s = start now j in
    if ltb j.attempts 4
    then record s { status = failed; next_run_at = now + 30 * 2 ^ j.attempts; last_error = error }
    else record s {
      status = dead;
      last_error = append "max attempts (5) reached: " error;
      completed_at = some now;
    }

module _ (ext : Externals) (h : Handlers) (handler : Handler) (error : String)
    (fails : (j : QueueJob) (w : World) → handler j w ≡ (w, failure error)) where
  settle_single :
      (now : ℕ) (j : QueueJob) (w : World)
      → w.queue ≡ start now j ∷ []
      → (settle ext now (returned (start now j)) (w, failure error)).0.queue
        ≡ after_failure now error j ∷ []
  unfolding settle backoff
  settle_single now j w e = ground (
    arith,
    fail_single (now + 30 * 2 ^ j.attempts) (start now j) error,
    mark_dead_single now (start now j) (append "max attempts (5) reached: " error),
  )

  -- one round of RunOnce on a table that holds the job alone
  run_once_single :
      (now : ℕ) (j : QueueJob) (w : World)
      → dispatch h j.kind ≡ some handler
      → w.queue ≡ j ∷ []
      → ready now j ≡ true
      → (run_once ext h now w).0.queue ≡ after_failure now error j ∷ []
  unfolding run_once
  run_once_single now j w d e r =
      let w' : World = record w { queue = start now j ∷ [] } in
      let claimed = ap (claim now) e ∙ claim_single now j r in
      rw (claimed, d, fails (returned (start now j)) w') (settle_single now j w' refl)

  -- RunOnce again and again, each time some seconds after the first job of the table is due
  due : List QueueJob → ℕ
  due [] = 0
  due (j ∷ js) = j.next_run_at

  pub rounds : List ℕ → World → World
  unfolding due
  rounds [] w = w
  rounds (wait ∷ waits) w = rounds waits (run_once ext h (due w.queue + wait) w).0

  round_single :
      (wait : ℕ) (j : QueueJob) (w : World)
      → dispatch h j.kind ≡ some handler
      → w.queue ≡ j ∷ []
      → (is_pending j.status || is_failed j.status) ≡ true
      → (run_once ext h (due w.queue + wait) w).0.queue
        ≡ after_failure (j.next_run_at + wait) error j ∷ []
  unfolding due
  round_single wait j w d e live =
      ap (λ (q : List QueueJob). (run_once ext h (due q + wait) w).0.queue) e
      ∙ run_once_single (j.next_run_at + wait) j w d e (ground arith)

  -- A job that always fails, on a table of its own: it is tried at every round, and is failed and
  -- due again until its fifth attempt, which makes it dead.
  pub rounds_lem :
      (waits : List ℕ) (wait : ℕ) (j : QueueJob) (w : World)
      → dispatch h j.kind ≡ some handler
      → w.queue ≡ j ∷ []
      → (is_pending j.status || is_failed j.status) ≡ true
      → j.attempts + length (wait ∷ waits) ≤ 5
      → (r : QueueJob) × ((rounds (wait ∷ waits) w).queue ≡ r ∷ [])
        × (r.id ≡ j.id)
        × (r.attempts ≡ j.attempts + length (wait ∷ waits))
        × (r.status ≡ (if ltb r.attempts 5 then failed else dead))
  unfolding rounds
  rounds_lem [] wait j w d e live small =
      let j' = after_failure (j.next_run_at + wait) error j in
      (j', round_single wait j w d e live, ground arith, ground arith, ground arith)
  rounds_lem (next ∷ waits) wait j w d e live small =
      let now = j.next_run_at + wait in
      let j' = after_failure now error j in
      let w' = (run_once ext h (due w.queue + wait) w).0 in
      let same_kind : j'.kind ≡ j.kind = ground arith in
      let live' : (is_pending j'.status || is_failed j'.status) ≡ true = ground arith in
      let tried : j'.attempts ≡ j.attempts + 1 = ground arith in
      let same_id : j'.id ≡ j.id = ground arith in
      let (r, queue, id, attempts, status) =
        rounds_lem waits next j' w' (ap (dispatch h) same_kind ∙ d) (round_single wait j w d e live)
          live' (omega (arith, tried)) in
      (r, queue, id ∙ same_id, omega (arith, attempts, tried), status)

-- From the first attempt on, each attempt that fails doubles the delay of the one before.
pub backoff_double : (n d : ℕ) → backoff (suc n) ≡ some d → backoff (suc (suc n)) ≡ some (2 * d)
unfolding backoff
backoff_double n d h =
    let delay : 30 * 2 ^ n ≡ d = some-injective (30 * 2 ^ n) d h in
    ap {B = Option ℕ} some (omega (arith, delay, pow-suc 2 n))
