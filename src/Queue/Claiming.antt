-- ===== src/Queue/Claiming.antt =====
-- queue/sqlqueue/sqlqueue.go: what Claim hands out, and to whom.
use murlog.Prelude.{
  ℕ, ◌≤◌, ◌↔◌, Bool, true, false, ◌≡◌, refl, ap, ◌∙◌, inl, inr, ◌==◌, if◌then◌else◌, arith,
  Bool-cases, Option-cases, ==_iff, Option, none, some, List, [], ◌∷◌, All,
}
use murlog.Prelude.Tables.{
  select, update_where, any_row, order_by, In, In-select, All-select, order_by-head, order_by-nil,
}
use murlog.Domain.{QueueJob}
use murlog.Prelude.Keys.{IdsUnique, find_row_of_In, find_row-update_key}
use murlog.Queue.{
  key, ready, has_id, find_job, first_row, pick, claim, start, returned, has_pending,
}

-- a row that Claim may choose: it is ready, and no ready row is due earlier
pub record IsNext (now : ℕ) (q : List QueueJob) (j : QueueJob) : Type 0 where
  pub stored : In j q
  pub is_ready : ready now j ≡ true
  pub earliest : All (λ r. ready now r ≡ true → j.next_run_at ≤ r.next_run_at) q

module _ (now : ℕ) (q : List QueueJob) (j : QueueJob) where
  pick-IsNext_of_sorted :
      (rows : List QueueJob)
      → order_by (λ r. r.next_run_at) (select (ready now) q) ≡ rows
      → first_row rows ≡ some j
      → IsNext now q j
  pick-IsNext_of_sorted [] e h = cc
  pick-IsNext_of_sorted (r ∷ rest) e h =
      let same : r ≡ j = cc in
      let head =
        order_by-head (λ (x : QueueJob). x.next_run_at) (select (ready now) q) j rest
          (e ∙ ap (λ (z : QueueJob). z ∷ rest) same) in
      let member = In-select (ready now) j q head.0 in
      record {
        stored = member.0;
        is_ready = member.1;
        earliest = All-select (λ x. j.next_run_at ≤ x.next_run_at) (ready now) q head.1;
      }

  pub pick-IsNext : pick now q ≡ some j → IsNext now q j
  unfolding pick
  pick-IsNext h = pick-IsNext_of_sorted _ refl h

select-nil : (p : QueueJob → Bool) (q : List QueueJob) → select p q ≡ [] → any_row p q ≡ false
select-nil p [] h = refl
select-nil p (r ∷ q) h = ground (arith, select-nil p q)

nil-select : (p : QueueJob → Bool) (q : List QueueJob) → any_row p q ≡ false → select p q ≡ []
nil-select p [] h = refl
nil-select p (r ∷ q) h = ground (arith, nil-select p q)

first_row-none : (rows : List QueueJob) → first_row rows ≡ none → rows ≡ []
first_row-none [] h = refl
first_row-none (r ∷ rows) h = cc

-- `pick` finds nothing exactly when no row is ready.
pub pick-none : (now : ℕ) (q : List QueueJob) → (pick now q ≡ none) ↔ (has_pending now q ≡ false)
unfolding pick has_pending
pick-none now q = (
  λ h. select-nil (ready now) q (order_by-nil (λ j. j.next_run_at) _ (first_row-none _ h)),
  λ h. rw (nil-select (ready now) q h),
)

-- What Claim does: with no ready job it returns none and changes nothing; otherwise it returns a
-- job that was next, started, and the table differs in that row only.
pub data Claims (now : ℕ) (q : List QueueJob) (r : List QueueJob × Option QueueJob) : Type 0 where
  nothing : has_pending now q ≡ false → r ≡ (q, none) → Claims now q r
  claimed :
      (j : QueueJob)
      → IsNext now q j
      → r.1 ≡ some (returned (start now j))
      → ((k : ℕ) → find_job k r.0 ≡ (if k == j.id then some (start now j) else find_job k q))
      → Claims now q r

find_job-start :
    (now k : ℕ) (q : List QueueJob) (j : QueueJob)
    → find_job j.id q ≡ some j
    → find_job k (update_where (has_id j.id) (start now) q)
      ≡ (if k == j.id then some (start now j) else find_job k q)
find_job-start now k q j h = elim (Bool-cases (k == j.id)) [
  | inl e ↦
      let same : k ≡ j.id = (==_iff k j.id).0 e in
      let found : find_job k q ≡ some j = rw same h in
      ground (arith, find_row-update_key key k j.id (start now) (λ _. refl) q)
  | inr e ↦ ground (arith, find_row-update_key key k j.id (start now) (λ _. refl) q)
]

-- On a table with unique ids, Claim returns a ready job that no ready job precedes in next_run_at,
-- started and without its completion time, and changes its row alone; with no ready job it returns
-- none and changes nothing.
pub claim-Claims : (now : ℕ) (q : List QueueJob) → IdsUnique key q → Claims now q (claim now q)
unfolding claim
claim-Claims now q u = elim (Option-cases (pick now q)) [
  | inl e ↦ nothing ((pick-none now q).0 e) (rw (e, claim))
  | inr (j, e) ↦
      let next = pick-IsNext now q j e in
      claimed j next (rw (e, claim))
        (λ k. rw (e, claim) (find_job-start now k q j (find_row_of_In key j q u next.stored)))
]
