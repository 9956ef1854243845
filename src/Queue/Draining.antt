-- ===== src/Queue/Draining.antt =====
-- worker/worker.go: the Claims of RunBatch, one after the other, until the queue has no ready job or
-- the limit is reached. The jobs that it hands out are still running.
use murlog.Prelude.{
  ℕ, zero, suc, ◌≤◌, false, ◌≡◌, refl, sym, arith, Option, none, some, List, [], ◌∷◌, length,
  Option-cases, inl, inr,
}
use murlog.Prelude.Tables.{count_where, any_row, update_where}
use murlog.Prelude.Keys.{IdsUnique, count_where-update_key, update_where-IdsUnique}
use murlog.Domain.{QueueJob}
use murlog.Queue.{returned, key, ready, has_id, claim, pick, start, has_pending}
use murlog.Queue.Claiming.{IsNext, pick-IsNext, pick-none}

hand_out :
    List QueueJob → Option QueueJob → List QueueJob × List QueueJob → List QueueJob × List QueueJob
hand_out q none rest = (q, [])
hand_out q (some j) rest = (rest.0, j ∷ rest.1)

-- the loop, with the number of jobs that it may still claim: the table and the jobs handed out
pub claim_all : ℕ → ℕ → List QueueJob → List QueueJob × List QueueJob
unfolding hand_out
claim_all zero now q = (q, [])
claim_all (suc limit) now q = let r = claim now q in hand_out r.0 r.1 (claim_all limit now r.0)

-- a Claim that hands out a job takes it out of the ready ones
claim-ready :
    (now : ℕ) (q : List QueueJob) (j : QueueJob)
    → IdsUnique key q
    → IsNext now q j
    → suc (count_where (ready now) (update_where (has_id j.id) (start now) q))
      ≡ count_where (ready now) q
claim-ready now q j u next =
    count_where-update_key key (ready now) (start now) j q u next.stored next.is_ready refl

any_row-count :
    (now : ℕ) (q : List QueueJob) → any_row (ready now) q ≡ false → count_where (ready now) q ≡ 0
any_row-count now [] h = refl
any_row-count now (r ∷ q) h = ground (arith, any_row-count now q)

any_ready :
    (now : ℕ) (q : List QueueJob) → has_pending now q ≡ false → any_row (ready now) q ≡ false
unfolding has_pending
any_ready now q h = h

claim-none : (now : ℕ) (q : List QueueJob) → pick now q ≡ none → claim now q ≡ (q, none)
unfolding claim
claim-none now q e = rw (e, claim) refl

claim-some :
    (now : ℕ) (q : List QueueJob) (j : QueueJob)
    → pick now q ≡ some j
    → claim now q ≡ (update_where (has_id j.id) (start now) q, some (returned (start now j)))
unfolding claim
claim-some now q j e = rw (e, claim) refl

-- On a table with unique ids, as many Claims as there are ready jobs hand out that many jobs and
-- leave no job ready.
pub claim_all-drained :
    (limit now : ℕ) (q : List QueueJob)
    → IdsUnique key q
    → count_where (ready now) q ≤ limit
    → (count_where (ready now) (claim_all limit now q).0 ≡ 0)
      × (length (claim_all limit now q).1 ≡ count_where (ready now) q)
unfolding claim_all hand_out
claim_all-drained zero now q u h = (omega arith, omega arith)
claim_all-drained (suc limit) now q u h = elim (Option-cases (pick now q)) [
  | inl e ↦
      let none_ready = any_row-count now q (any_ready now q ((pick-none now q).0 e)) in
      rw (claim-none now q e) (none_ready, sym none_ready)
  | inr (j, e) ↦
      let rest = update_where (has_id j.id) (start now) q in
      let fewer = claim-ready now q j u (pick-IsNext now q j e) in
      let unique = update_where-IdsUnique key (has_id j.id) (start now) (λ _. refl) q u in
      let ih = claim_all-drained limit now rest unique (omega (arith, fewer)) in
      rw (claim-some now q j e) (ih.0, omega (arith, ih.1, fewer))
]
