-- ===== src/Queue/Holding.antt =====
-- queue/sqlqueue/sqlqueue.go: how long a claimed job stays with its worker.
use murlog.Prelude.{
  ℕ, ◌-◌, Bool, true, false, ◌&&◌, ◌||◌, ◌==◌, ltb, ◌≡◌, ◌≢◌, refl, inl, inr, arith, none, some,
  List, [], ◌∷◌, All, Bool-cases, Option-cases,
}
use murlog.Prelude.Tables.{update_where, any_row, All-In}
use murlog.Domain.{QueueJob, is_running, is_done, is_dead}
use murlog.Queue.{
  returned, has_id, enqueue, inserted, pick, claim, start, complete, mark_dead, fail, retry,
  recover_stale, cleanup, cancel_by_domain, is_stale, is_exhausted, bury, revive,
}
use murlog.Queue.Claiming.{pick-IsNext}
use murlog.Queue.Invariant.{
  Step, enqueues, claims, completes, kills, fails, retries, recovers, cleans, cancels,
  delete_where-All,
}

-- the steps that give the job `id`, claimed at `since`, back to the queue: Fail and Retry of this
-- job, a RecoverStale for which the claim is too old, and an Enqueue of another job under its id
abbrev pub frees : ℕ → ℕ → {q q' : List QueueJob} → Step q q' → Bool
frees id since (enqueues j new e) = j.id == id
frees id since (claims now) = false
frees id since (completes now i) = false
frees id since (kills now i error) = false
frees id since (fails i next error) = i == id
frees id since (retries now i) = i == id
frees id since (recovers now age) = ltb since (now - age)
frees id since (cleans older_than) = false
frees id since (cancels like domain) = false

-- operations on the queue, by any workers, none of which frees the job
pub data Keeping (id since : ℕ) (q : List QueueJob) : List QueueJob → Type 0 where
  begin : Keeping id since q q
  step :
      {r s : List QueueJob}
      → Keeping id since q r
      → (e : Step r s) → frees id since e ≡ false
      → Keeping id since q s

-- a row that no worker may claim: running since the time, or finished
abbrev is_taken : ℕ → QueueJob → Bool
is_taken since r =
    (is_running r.status && r.next_run_at == since) || (is_done r.status || is_dead r.status)

abbrev Taken : ℕ → ℕ → QueueJob → Type 0
Taken id since r = r.id ≡ id → is_taken since r ≡ true

update_where-Taken :
    (id since : ℕ) (p : QueueJob → Bool) (f : QueueJob → QueueJob)
    → ((r : QueueJob) → p r ≡ true → Taken id since r → Taken id since (f r))
    → (q : List QueueJob) → All (Taken id since) q
    → All (Taken id since) (update_where p f q)
update_where-Taken id since p f keep [] h = tt
update_where-Taken id since p f keep (r ∷ q) h = elim (Bool-cases (p r)) [
  | inl e ↦ rw e (keep r e h.0, update_where-Taken id since p f keep q h.1)
  | inr e ↦ rw e (h.0, update_where-Taken id since p f keep q h.1)
]

-- a job that is chosen is not the one that is taken
pick-other :
    (id since now : ℕ) (q : List QueueJob) (j : QueueJob)
    → pick now q ≡ some j
    → All (Taken id since) q
    → j.id ≢ id
pick-other id since now q j e h = λ same.
    let next = pick-IsNext now q j e in
    let taken = All-In (Taken id since) j q h next.stored same in
    let rdy = next.is_ready in ground arith

enqueue-Taken :
    (id since : ℕ) (j : QueueJob) (q q' : List QueueJob)
    → (j.id == id) ≡ false
    → enqueue j q ≡ some q'
    → All (Taken id since) q
    → All (Taken id since) q'
unfolding enqueue
enqueue-Taken id since j q q' other e h = elim (Bool-cases (any_row (has_id j.id) q)) [
  | inl clash ↦ ground arith
  | inr fresh ↦
      let result : inserted j ∷ q ≡ q' = ground arith in
      rw (← result) ((λ same. ground (arith, other), h))
]

claim-Taken :
    (id since now : ℕ) (q : List QueueJob)
    → All (Taken id since) q
    → All (Taken id since) (claim now q).0
unfolding claim
claim-Taken id since now q h = elim (Option-cases (pick now q)) [
  | inl e ↦ rw (e, claim) h
  | inr (j, e) ↦
      let other = pick-other id since now q j e h in
      rw (e, claim)
        (update_where-Taken id since (has_id j.id) (start now)
          (λ r at t same. ground (arith, other)) q h)
]

recover_stale-Taken :
    (id since now age : ℕ) (q : List QueueJob)
    → ltb since (now - age) ≡ false
    → All (Taken id since) q
    → All (Taken id since) (recover_stale now age q).0
unfolding recover_stale
recover_stale-Taken id since now age q f h =
    let cutoff = now - age in
    update_where-Taken id since (is_stale cutoff) (revive now)
      (λ r at t same. let taken = t same in ground (arith, taken, f))
      (update_where (is_exhausted cutoff) (bury now) q)
      (update_where-Taken id since (is_exhausted cutoff) (bury now) (λ r at t same. ground arith) q
        h)

-- one operation that does not free the job leaves it taken
Step-Taken :
    (id since : ℕ) {q q' : List QueueJob} (e : Step q q')
    → frees id since e ≡ false
    → All (Taken id since) q
    → All (Taken id since) q'
unfolding complete mark_dead fail retry cleanup cancel_by_domain
Step-Taken id since (enqueues j new e) f h = enqueue-Taken id since j _ _ f e h
Step-Taken id since (claims now) f h = claim-Taken id since now _ h
Step-Taken id since (completes now i) f h =
    update_where-Taken id since (has_id i) _ (λ r at t same. ground arith) _ h
Step-Taken id since (kills now i error) f h =
    update_where-Taken id since (has_id i) _ (λ r at t same. ground arith) _ h
Step-Taken id since (fails i next error) f h =
    update_where-Taken id since (has_id i) _ (λ r at t same. ground arith) _ h
Step-Taken id since (retries now i) f h =
    update_where-Taken id since (has_id i) _ (λ r at t same. ground arith) _ h
Step-Taken id since (recovers now age) f h = recover_stale-Taken id since now age _ f h
Step-Taken id since (cleans older_than) f h = delete_where-All (Taken id since) _ _ h
Step-Taken id since (cancels like domain) f h = delete_where-All (Taken id since) _ _ h

Keeping-Taken :
    (id since : ℕ) {q q' : List QueueJob}
    → Keeping id since q q'
    → All (Taken id since) q
    → All (Taken id since) q'
Keeping-Taken id since begin h = h
Keeping-Taken id since (step k e f) h = Step-Taken id since e f (Keeping-Taken id since k h)

started-Taken :
    (id now : ℕ) (q : List QueueJob) → All (Taken id now) (update_where (has_id id) (start now) q)
started-Taken id now [] = tt
started-Taken id now (r ∷ q) =
    let rest = started-Taken id now q in
    elim (Bool-cases (r.id == id)) [
      | inl e ↦ rw e (λ same. ground arith, rest)
      | inr e ↦ rw e (λ same. ground (arith, e), rest)
    ]

-- a Claim that hands out a job has picked it
claim-pick :
    (now : ℕ) (q : List QueueJob) (j : QueueJob)
    → (claim now q).1 ≡ some j
    → (r : QueueJob) × (pick now q ≡ some r)
      × (j.id ≡ r.id)
      × ((claim now q).0 ≡ update_where (has_id r.id) (start now) q)
unfolding claim
claim-pick now q j h = elim (Option-cases (pick now q)) [
  | inl e ↦ let clash : none ≡ some j = rw (e, claim) at h in cc
  | inr (r, e) ↦
      let handed : some (returned (start now r)) ≡ some j = rw (e, claim) at h in
      (r, e, ground arith, rw (e, claim) refl)
]

-- After a Claim has handed out a job, no Claim hands it out again before a Fail or a Retry of this
-- job, a RecoverStale whose cutoff lies behind the time of the first Claim, or an Enqueue of another
-- job under the same id, whatever else all workers do with the queue in between.
pub claim-held :
    (now later : ℕ) (q r : List QueueJob) (j k : QueueJob)
    → (claim now q).1 ≡ some j
    → Keeping j.id now (claim now q).0 r
    → (claim later r).1 ≡ some k
    → k.id ≢ j.id
claim-held now later q r j k first between second =
    let (row, at, same, table) = claim-pick now q j first in
    let (next, next_at, next_same, next_table) = claim-pick later r k second in
    let start_taken : All (Taken j.id now) (claim now q).0 =
      rw (table, same) (started-Taken row.id now q) in
    let taken = Keeping-Taken j.id now between start_taken in
    rw next_same (pick-other j.id now later r next next_at taken)
