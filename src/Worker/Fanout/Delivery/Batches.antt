-- ===== src/Worker/Fanout/Delivery/Batches.antt =====
-- worker/worker.go: the batch that fanoutToFollowers makes of one page.
use mathlib.Core.Path.{subst}
use murlog.Prelude.{
  ℕ, suc, Bool, true, false, not, ◌≡◌, refl, ap, ◌∙◌, sym, arith, Option, none, some, List, [], ◌∷◌,
  ◌++◌, String,
}
use murlog.Domain.{QueueJob, JobType}
use murlog.Domain.Social.{Follower, DomainFailure}
use murlog.Queue.Updates.{enqueue_batch-cons, enqueue_batch-nil}
use murlog.Queue.{enqueue_batch}
use murlog.Externals.{Externals}
use murlog.Worker.Fanout.{
  MakeJob, Cache, Fan, new_job, make_batch, unless_dead, consider, page_jobs,
}
use murlog.Worker.Fanout.Delivery.Cached.{Truthful, skips_lem}
use murlog.Worker.Fanout.Delivery.{
  is_live, Sent, add_job, add_if, deliver_one, deliver_each, Fresh, add_job-Fresh,
}

module _ (ext : Externals) (now : ℕ) (make : MakeJob) (failures : List DomainFailure) where
  -- the state of the fan-out agrees with the plain loop's
  pub record Agrees (st : Fan) (s : Sent) : Type 0 where
    pub delivered_same : st.delivered ≡ s.delivered
    pub draws_same : st.draws ≡ s.draws
    pub truthful : Truthful now failures st.dead_cache
    pub fresh : Fresh ext now make failures s

  module _ (injective : (m n : ℕ) → ext.new_id m ≡ ext.new_id n → m ≡ n) where
    -- the job of a fresh identifier is always accepted
    enqueue_made :
        (m : List String × Option (JobType × List (String × String))) (st : Fan) (s : Sent)
        (js : List QueueJob)
        → Fresh ext now make failures s
        → st.draws ≡ s.draws
        → (enqueue_batch ((make_batch ext now make st m).1 ++ js) s.queue
            ≡ enqueue_batch js (add_job ext now make failures m s).queue)
          × ((make_batch ext now make st m).0.delivered
              ≡ (add_job ext now make failures m s).delivered)
          × ((make_batch ext now make st m).0.draws ≡ (add_job ext now make failures m s).draws)
          × ((make_batch ext now make st m).0.dead_cache ≡ st.dead_cache)
    unfolding make_batch add_job
    enqueue_made (delivered, none) st s js fresh same = (refl, refl, same, refl)
    enqueue_made (delivered, some (kind, payload)) st s js fresh same = (
      ap (λ (n : ℕ). enqueue_batch (new_job ext now n kind payload ∷ js) s.queue) same
          ∙ enqueue_batch-cons (new_job ext now s.draws kind payload) js s.queue
              (fresh s.draws (omega arith)),
      refl,
      ap suc same,
      refl,
    )

    -- one follower of a page
    unless_dead_lem :
        (st : Fan) (f : Follower) (s : Sent) (js : List QueueJob) (r : Cache × Bool) (live : Bool)
        → r.1 ≡ not live
        → Truthful now failures r.0
        → Agrees st s
        → (enqueue_batch ((unless_dead ext now make st f r).1 ++ js) s.queue
            ≡ enqueue_batch js (add_if ext now make failures live f s).queue)
          × Agrees (unless_dead ext now make st f r).0 (add_if ext now make failures live f s)
    unfolding unless_dead add_if
    unless_dead_lem st f s js (c, true) true h t a = cc
    unless_dead_lem st f s js (c, false) false h t a = cc
    unless_dead_lem st f s js (c, true) false h t a = (
      refl,
      record {
        delivered_same = a.delivered_same;
        draws_same = a.draws_same;
        truthful = t;
        fresh = a.fresh;
      },
    )
    unless_dead_lem st f s js (c, false) true h t a =
        let m = make s.delivered f in
        let st' : Fan = record st { dead_cache = c } in
        let asked : make st.delivered f ≡ m = ap (λ (d : List String). make d f) a.delivered_same in
        let (queue, delivered, draws, cache) = enqueue_made m st' s js a.fresh a.draws_same in
        rw asked (
          queue,
          record {
            delivered_same = delivered;
            draws_same = draws;
            truthful = subst (Truthful now failures) (sym cache) t;
            fresh = add_job-Fresh ext now make failures injective m s a.fresh;
          },
        )

    consider_lem :
        (st : Fan) (f : Follower) (s : Sent) (js : List QueueJob)
        → Agrees st s
        → (enqueue_batch ((consider ext now make failures st f).1 ++ js) s.queue
            ≡ enqueue_batch js (deliver_one ext now make failures f s).queue)
          × Agrees (consider ext now make failures st f).0 (deliver_one ext now make failures f s)
    unfolding consider deliver_one
    consider_lem st f s js a =
        let (answer, truthful) = skips_lem now failures ext f st.dead_cache a.truthful in
        unless_dead_lem st f s js _ (is_live ext now failures f) answer truthful a

    -- one page
    pub page_jobs_lem :
        (fs : List Follower) (st : Fan) (s : Sent)
        → Agrees st s
        → (enqueue_batch (page_jobs ext now make failures st fs).1 s.queue
            ≡ some (deliver_each ext now make failures fs s).queue)
          × Agrees
              (page_jobs ext now make failures st fs).0
              (deliver_each ext now make failures fs s)
    unfolding page_jobs deliver_each
    page_jobs_lem [] st s a = (enqueue_batch-nil s.queue, a)
    page_jobs_lem (f ∷ fs) st s a =
        let c = consider ext now make failures st f in
        let rest = page_jobs ext now make failures c.0 fs in
        let (queue, agrees) = consider_lem st f s rest.1 a in
        let (queues, agree) = page_jobs_lem fs c.0 (deliver_one ext now make failures f s) agrees in
        (queue ∙ queues, agree)
