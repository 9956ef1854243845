-- ===== src/Worker/Fanout.antt =====
-- worker/worker.go: fanoutToFollowers, which gives every approved follower of a persona a job, and
-- the handlers that are no more than a fan-out. ListFollowersPaged is of store/sqlite/follow.go.
pub mod Pages
pub mod Delivery
pub mod Announce
mod Tests
use murlog.Prelude.{
  ℕ, zero, suc, ◌+◌, ◌/◌, Bool, true, false, not, ◌&&◌, ◌||◌, if◌then◌else◌, ◌==◌, ltb, Option,
  none, some, List, [], ◌∷◌, String, str_eq, length, take, ◌++◌,
}
use murlog.Prelude.Tables.{select, order_by, any_row}
use murlog.Prelude.Paging.{last_key}
use murlog.Domain.{QueueJob, JobType, pending}
use murlog.Domain.Social.{Follower, DomainFailure}
use murlog.Queue.{enqueue_batch}
use murlog.Store.Circuit.{is_dead_domain}
use murlog.Id.{parse_id}
use murlog.Externals.{Externals}
use murlog.Worker.{World, Outcome, success, failure, domain_from_actor_uri, field_of, Handler}

abbrev pub follower_id : Follower → ℕ
follower_id f = f.id

-- ListFollowersPaged; a cursor of 0 is id.Nil
pub list_followers_paged : ℕ → ℕ → ℕ → List Follower → List Follower
list_followers_paged persona cursor limit fs = take limit (
    order_by follower_id
      (select (λ f. f.persona_id == persona && f.approved && (cursor == 0 || ltb cursor f.id)) fs))

-- murlog.NewJob, with the number of the identifier that it draws
abbrev pub new_job : Externals → ℕ → ℕ → JobType → List (String × String) → QueueJob
new_job ext now draw kind payload = record {
  id = ext.new_id draw;
  kind = kind;
  payload = ext.marshal payload;
  status = pending;
  attempts = 0;
  last_error = "";
  next_run_at = now;
  created_at = now;
  completed_at = none;
}

-- The callback of a fan-out: from the set `delivered` that it captures and a follower, the set
-- afterwards and the job to make, or `none` to skip the follower.
abbrev pub MakeJob : Type 0
MakeJob = List String → Follower → List String × Option (JobType × List (String × String))

-- deadCache
abbrev pub Cache : Type 0
Cache = List (String × Bool)

pub cached : String → Cache → Option Bool
cached domain [] = none
cached domain ((d, v) ∷ c) = let rest = cached domain c in if str_eq d domain then some v else rest

-- isDead
pub is_dead : ℕ → List DomainFailure → String → Cache → Cache × Bool
is_dead now failures domain c = elim (cached domain c) [
  | some v ↦ (c, v)
  | none ↦ let dead = is_dead_domain now domain failures in ((domain, dead) ∷ c, dead)
]

-- what the loop carries from follower to follower, and from page to page
pub record Fan : Type 0 where
  pub dead_cache : Cache
  pub delivered : List String
  pub draws : ℕ

-- the test of the circuit breaker on one follower; `true` skips it
pub skips : Externals → ℕ → List DomainFailure → String → Cache → Cache × Bool
unfolding is_dead
skips ext now failures actor c =
    let domain = domain_from_actor_uri ext actor in
    if str_eq domain "" then (c, false) else is_dead now failures domain c

module _ (ext : Externals) (now : ℕ) (make : MakeJob) where
  -- a follower that is not skipped
  make_batch : Fan → List String × Option (JobType × List (String × String)) → Fan × List QueueJob
  make_batch st (delivered, none) = (record st { delivered = delivered }, [])
  make_batch st (delivered, some (kind, payload)) = (
    record st { delivered = delivered; draws = suc (st.draws) },
    new_job ext now st.draws kind payload ∷ [],
  )

  unless_dead : Fan → Follower → Cache × Bool → Fan × List QueueJob
  unfolding make_batch
  unless_dead st f (c, true) = (record st { dead_cache = c }, [])
  unless_dead st f (c, false) = make_batch (record st { dead_cache = c }) (make st.delivered f)

  consider : List DomainFailure → Fan → Follower → Fan × List QueueJob
  unfolding skips unless_dead
  consider failures st f = unless_dead st f (skips ext now failures f.actor_uri st.dead_cache)

  -- the batch of one page
  pub page_jobs : List DomainFailure → Fan → List Follower → Fan × List QueueJob
  unfolding consider
  page_jobs failures st [] = (st, [])
  page_jobs failures st (f ∷ fs) =
      let c = consider failures st f in
      let rest = page_jobs failures c.0 fs in (rest.0, c.1 ++ rest.1)

  -- The loop, with fuel for the number of pages; `none` is a lack of fuel. An error of EnqueueBatch
  -- ends it, and the batches of the pages before stay.
  pub fanout_loop : ℕ → ℕ → ℕ → Fan → World → Option (World × Outcome)
  unfolding page_jobs
  fanout_loop zero persona cursor st w = none
  fanout_loop (suc fuel) persona cursor st w =
      let page = list_followers_paged persona cursor 100 w.store.followers in
      let r = page_jobs w.store.failures st page in
      let st' = r.0 in
      elim (enqueue_batch r.1 w.queue) [
        | none ↦ some (record w { draws = st'.draws }, failure "enqueue batch")
        | some q ↦
            let w' : World = record w { queue = q; draws = st'.draws } in
            let rest = fanout_loop fuel persona (last_key follower_id 0 page) st' w' in
            if ltb (length page) 100 then some (w', success) else rest
      ]

  -- fanoutToFollowers: a page more than the followers fill is always enough
  pub fanout_to_followers : ℕ → List String → World → Option (World × Outcome)
  fanout_to_followers persona delivered w =
      fanout_loop (suc (length w.store.followers / 100)) persona 0
        (record { dead_cache = []; delivered = delivered; draws = w.draws }) w

pub or_stuck : World → Option (World × Outcome) → World × Outcome
or_stuck w none = (w, failure "out of fuel")
or_stuck w (some r) = r

module _ (ext : Externals) (now : ℕ) where
  -- the callback of handleUpdateActor
  abbrev pub make_update : String → MakeJob
  make_update persona delivered f = (
    delivered,
    some (JobType.deliver_update, ("persona_id", persona) ∷ ("actor_uri", f.actor_uri) ∷ []),
  )

  -- handleUpdateActor
  pub handle_update_actor : Handler
  unfolding or_stuck
  handle_update_actor job w = elim (ext.unmarshal job.payload) [
    | none ↦ (w, failure "parse payload")
    | some p ↦
        let text = field_of "persona_id" p in
        elim (parse_id text) [
          | none ↦ (w, failure "parse persona_id")
          | some persona ↦ or_stuck w (fanout_to_followers ext now (make_update text) persona [] w)
        ]
  ]

  -- the callback of handleDeliverDelete
  abbrev pub make_delete : String → String → MakeJob
  make_delete persona post delivered f = (
    delivered,
    some (
      JobType.deliver_delete_note,
      ("persona_id", persona) ∷ ("post_id", post) ∷ ("actor_uri", f.actor_uri) ∷ [],
    ),
  )

  -- handleDeliverDelete
  pub handle_deliver_delete : Handler
  unfolding or_stuck
  handle_deliver_delete job w = elim (ext.unmarshal job.payload) [
    | none ↦ (w, failure "parse payload")
    | some p ↦
        let text = field_of "persona_id" p in
        elim (parse_id text) [
          | none ↦ (w, failure "parse persona_id")
          | some persona ↦
              or_stuck w
                (fanout_to_followers ext now (make_delete text (field_of "post_id" p)) persona [] w)
        ]
  ]
