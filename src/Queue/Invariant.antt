-- ===== src/Queue/Invariant.antt =====
-- queue/sqlqueue/sqlqueue.go: an invariant of the table under every operation that changes it.
use murlog.Prelude.{
  ℕ, ◌≤◌, Bool, true, ◌||◌, ◌≡◌, ◌≢◌, refl, inl, inr, arith, none, some, List, [], ◌∷◌, All, String,
  Bool-cases, Option-cases,
}
use murlog.Prelude.Tables.{update_where, delete_where, any_row}
use murlog.Domain.{QueueJob, pending, is_running, is_done, is_dead}
use murlog.Prelude.Keys.{IdsUnique, update_where-IdsUnique, delete_where-IdsUnique}
use murlog.Queue.{
  key, has_id, enqueue, inserted, pick, claim, start, complete, mark_dead, fail, retry,
  recover_stale, cleanup, cancel_by_domain,
}

-- a row that is running has been claimed, and one that is finished has its time
pub record IsSound (j : QueueJob) : Type 0 where
  pub counted : is_running j.status ≡ true → 1 ≤ j.attempts
  pub stamped : (is_done j.status || is_dead j.status) ≡ true → j.completed_at ≢ none

pub record Inv (q : List QueueJob) : Type 0 where
  pub unique : IdsUnique key q
  pub sound : All IsSound q

update_where-All :
    (P : QueueJob → Type 0) (p : QueueJob → Bool) (f : QueueJob → QueueJob)
    → ((j : QueueJob) → P j → P (f j))
    → (q : List QueueJob) → All P q
    → All P (update_where p f q)
update_where-All P p f keep [] h = tt
update_where-All P p f keep (r ∷ q) h = elim (Bool-cases (p r)) [
  | inl e ↦ rw e (keep r h.0, update_where-All P p f keep q h.1)
  | inr e ↦ rw e (h.0, update_where-All P p f keep q h.1)
]

pub delete_where-All :
    (P : QueueJob → Type 0) (p : QueueJob → Bool) (q : List QueueJob)
    → All P q
    → All P (delete_where p q)
delete_where-All P p [] h = tt
delete_where-All P p (r ∷ q) h = elim (Bool-cases (p r)) [
  | inl e ↦ rw e (delete_where-All P p q h.1)
  | inr e ↦ rw e (h.0, delete_where-All P p q h.1)
]

update_where-Inv :
    (p : QueueJob → Bool) (f : QueueJob → QueueJob)
    → ((j : QueueJob) → (f j).id ≡ j.id)
    → ((j : QueueJob) → IsSound j → IsSound (f j))
    → (q : List QueueJob) → Inv q
    → Inv (update_where p f q)
update_where-Inv p f keep sound q v = record {
  unique = update_where-IdsUnique key p f keep q v.unique;
  sound = update_where-All IsSound p f sound q v.sound;
}

delete_where-Inv : (p : QueueJob → Bool) (q : List QueueJob) → Inv q → Inv (delete_where p q)
delete_where-Inv p q v = record {
  unique = delete_where-IdsUnique key p q v.unique;
  sound = delete_where-All IsSound p q v.sound;
}

pub enqueue-Inv :
    (j : QueueJob) (q q' : List QueueJob)
    → j.status ≡ pending
    → Inv q
    → enqueue j q ≡ some q'
    → Inv q'
unfolding enqueue
enqueue-Inv j q q' new v h = elim (Bool-cases (any_row (has_id j.id) q)) [
  | inl e ↦ ground arith
  | inr e ↦
      let result : inserted j ∷ q ≡ q' = ground arith in
      rw (← result) (record {
        unique = (e, v.unique);
        sound = (record { counted = λ h. ground arith; stamped = λ h. ground arith }, v.sound);
      })
]

-- the operations as steps; the arguments are what the environment chooses
pub data Step : List QueueJob → List QueueJob → Type 0 where
  enqueues :
      {q q' : List QueueJob} (j : QueueJob) → j.status ≡ pending → enqueue j q ≡ some q' → Step q q'
  claims : {q : List QueueJob} (now : ℕ) → Step q (claim now q).0
  completes : {q : List QueueJob} (now id : ℕ) → Step q (complete now id q)
  kills : {q : List QueueJob} (now id : ℕ) (error : String) → Step q (mark_dead now id error q)
  fails : {q : List QueueJob} (id next : ℕ) (error : String) → Step q (fail id next error q)
  retries : {q : List QueueJob} (now id : ℕ) → Step q (retry now id q)
  recovers : {q : List QueueJob} (now age : ℕ) → Step q (recover_stale now age q).0
  cleans : {q : List QueueJob} (older_than : ℕ) → Step q (cleanup older_than q).0
  cancels :
      {q : List QueueJob} (like : String → String → Bool) (domain : String)
      → Step q (cancel_by_domain like domain q).0

claim-Inv : (now : ℕ) (q : List QueueJob) → Inv q → Inv (claim now q).0
unfolding claim
claim-Inv now q v = elim (Option-cases (pick now q)) [
  | inl e ↦ rw (e, claim) v
  | inr (j, e) ↦
      rw (e, claim)
        (update_where-Inv (has_id j.id) (start now) (λ _. refl) (λ r s. ground arith) q v)
]

recover_stale-Inv : (now age : ℕ) (q : List QueueJob) → Inv q → Inv (recover_stale now age q).0
unfolding recover_stale
recover_stale-Inv now age q v =
    update_where-Inv _ _ (λ _. refl) (λ r s. ground arith) _
      (update_where-Inv _ _ (λ _. refl) (λ r s. ground arith) q v)

-- Every operation keeps the ids unique, an attempt counted for each running job, and a time of
-- completion on each finished one.
pub Step-Inv : {q q' : List QueueJob} → Step q q' → Inv q → Inv q'
unfolding complete mark_dead fail retry cleanup cancel_by_domain
Step-Inv (enqueues j new e) v = enqueue-Inv j _ _ new v e
Step-Inv (claims now) v = claim-Inv now _ v
Step-Inv (completes now id) v = update_where-Inv _ _ (λ _. refl) (λ r s. ground arith) _ v
Step-Inv (kills now id error) v = update_where-Inv _ _ (λ _. refl) (λ r s. ground arith) _ v
Step-Inv (fails id next error) v = update_where-Inv _ _ (λ _. refl) (λ r s. ground arith) _ v
Step-Inv (retries now id) v = update_where-Inv _ _ (λ _. refl) (λ r s. ground arith) _ v
Step-Inv (recovers now age) v = recover_stale-Inv now age _ v
Step-Inv (cleans older_than) v = delete_where-Inv _ _ v
Step-Inv (cancels like domain) v = delete_where-Inv _ _ v

pub data Reach (q : List QueueJob) : List QueueJob → Type 0 where
  here : Reach q q
  next : {r s : List QueueJob} → Reach q r → Step r s → Reach q s

-- In every table that the queue operations reach from the empty one, in any order, ids are unique, a
-- running row has been claimed at least once, and a finished row has its completion time.
pub Reach-Inv : {q : List QueueJob} → Reach [] q → Inv q
Reach-Inv here = record { unique = tt; sound = tt }
Reach-Inv (next r s) = Step-Inv s (Reach-Inv r)
