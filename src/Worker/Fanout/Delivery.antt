-- ===== src/Worker/Fanout/Delivery.antt =====
-- worker/worker.go: what fanoutToFollowers is for, as a plain loop over the whole audience.
pub mod Cached
pub mod Batches
pub mod Complete
use mathlib.Core.Path.{subst}
use murlog.Prelude.{
  inr, eq_iff, inl, ℕ, suc, ◌+◌, ◌≤◌, ◌<◌, ◌*◌, Bool, true, false, not, ◌||◌, ◌≡◌, ◌≢◌, refl, ap,
  ◌∙◌, sym, arith, if◌then◌else◌, Option, none, some, List, [], ◌∷◌, ◌++◌, String, str_eq, length,
  take, drop, Option-cases, Bool-cases,
}
use murlog.Prelude.Tables.{any_row, select}
use murlog.Prelude.Keys.{IdsUnique}
use murlog.Prelude.Paging.{beyond, next_page, last_key}
use murlog.Domain.{QueueJob, JobType}
use murlog.Domain.Social.{Follower, DomainFailure}
use murlog.Queue.Updates.{enqueue_batch-cons, enqueue_batch-nil}
use murlog.Queue.{has_id, enqueue, enqueue_batch, inserted}
use murlog.Store.Circuit.{is_dead_domain}
use murlog.Externals.{Externals}
use murlog.Worker.{World, Outcome, success, domain_from_actor_uri}
use murlog.Worker.Fanout.{
  MakeJob, Cache, cached, is_dead, skips, Fan, new_job, make_batch, unless_dead, consider,
  page_jobs, fanout_loop, fanout_to_followers, follower_id, list_followers_paged,
}
use murlog.Worker.Fanout.Pages.{audience, audience-Ascending, list_followers_paged_lem}

-- a follower whose domain is unknown or not dead
abbrev pub is_live : Externals → ℕ → List DomainFailure → Follower → Bool
is_live ext now failures f =
    let domain = domain_from_actor_uri ext f.actor_uri in
    str_eq domain "" || not (is_dead_domain now domain failures)

-- what a delivery changes
pub record Sent : Type 0 where
  pub delivered : List String
  pub draws : ℕ
  pub queue : List QueueJob

module _ (ext : Externals) (now : ℕ) (make : MakeJob) (failures : List DomainFailure) where
  -- what one follower that is not skipped adds
  pub add_job : List String × Option (JobType × List (String × String)) → Sent → Sent
  add_job (delivered, none) s = record s { delivered = delivered }
  add_job (delivered, some (kind, payload)) s = record {
    delivered = delivered;
    draws = suc s.draws;
    queue = inserted (new_job ext now s.draws kind payload) ∷ s.queue;
  }

  pub add_if : Bool → Follower → Sent → Sent
  add_if true f s = add_job (make s.delivered f) s
  add_if false f s = s

  pub deliver_one : Follower → Sent → Sent
  deliver_one f s = add_if (is_live ext now failures f) f s

  -- The plain loop: each follower of the list whose domain is not dead gets its job at once, and the
  -- table of failed domains is asked every time.
  pub deliver_each : List Follower → Sent → Sent
  deliver_each [] s = s
  deliver_each (f ∷ fs) s = deliver_each fs (deliver_one f s)

  pub deliver_each-nil : (s : Sent) → deliver_each [] s ≡ s
  unfolding deliver_each
  deliver_each-nil s = refl

  module _ (f : Follower) (fs : List Follower) (s : Sent) where
    pub deliver_each-dead :
        is_live ext now failures f ≡ false → deliver_each (f ∷ fs) s ≡ deliver_each fs s
    unfolding deliver_each deliver_one add_if
    deliver_each-dead h = ap (λ (live : Bool). deliver_each fs (add_if live f s)) h

    pub deliver_each-none :
        (delivered : List String)
        → is_live ext now failures f ≡ true
        → make s.delivered f ≡ (delivered, none)
        → deliver_each (f ∷ fs) s ≡ deliver_each fs (record s { delivered = delivered })
    unfolding deliver_each deliver_one add_if add_job
    deliver_each-none delivered h e =
        ap (λ (live : Bool). deliver_each fs (add_if live f s)) h
        ∙ ap
            (λ (m : List String × Option (JobType × List (String × String))).
              deliver_each fs (add_job m s))
            e

    pub deliver_each-some :
        (delivered : List String) (kind : JobType) (payload : List (String × String))
        → is_live ext now failures f ≡ true
        → make s.delivered f ≡ (delivered, some (kind, payload))
        → deliver_each (f ∷ fs) s
          ≡ deliver_each fs (record {
            delivered = delivered;
            draws = suc s.draws;
            queue = inserted (new_job ext now s.draws kind payload) ∷ s.queue;
          })
    unfolding deliver_each deliver_one add_if add_job
    deliver_each-some delivered kind payload h e =
        ap (λ (live : Bool). deliver_each fs (add_if live f s)) h
        ∙ ap
            (λ (m : List String × Option (JobType × List (String × String))).
              deliver_each fs (add_job m s))
            e

  pub deliver_each-append :
      (fs gs : List Follower) (s : Sent)
      → deliver_each (fs ++ gs) s ≡ deliver_each gs (deliver_each fs s)
  unfolding deliver_each
  deliver_each-append [] gs s = refl
  deliver_each-append (f ∷ fs) gs s = deliver_each-append fs gs (deliver_one f s)

  -- identifiers that are still to be drawn are not in the queue
  abbrev pub Fresh : Sent → Type 0
  Fresh s = (n : ℕ) → s.draws ≤ n → any_row (has_id (ext.new_id n)) s.queue ≡ false

  module _ (injective : (m n : ℕ) → ext.new_id m ≡ ext.new_id n → m ≡ n) where
    pub add_job-Fresh :
        (m : List String × Option (JobType × List (String × String))) (s : Sent)
        → Fresh s
        → Fresh (add_job m s)
    unfolding add_job
    add_job-Fresh (delivered, none) s fresh n le = fresh n le
    add_job-Fresh (delivered, some (kind, payload)) s fresh n le =
        ground (arith, fresh n, injective s.draws n)

    pub deliver_one-Fresh :
        (live : Bool) (f : Follower) (s : Sent) → Fresh s → Fresh (add_if live f s)
    unfolding add_if
    deliver_one-Fresh true f s fresh = add_job-Fresh (make s.delivered f) s fresh
    deliver_one-Fresh false f s fresh = fresh

    pub deliver_each-Fresh : (fs : List Follower) (s : Sent) → Fresh s → Fresh (deliver_each fs s)
    unfolding deliver_each deliver_one
    deliver_each-Fresh [] s fresh = fresh
    deliver_each-Fresh (f ∷ fs) s fresh =
        deliver_each-Fresh fs (deliver_one f s)
          (deliver_one-Fresh (is_live ext now failures f) f s fresh)
