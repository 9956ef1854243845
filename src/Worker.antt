-- ===== src/Worker.antt =====
-- worker/worker.go: the worker's settings, and how one job is settled after its handler has run.
pub mod Fanout
pub mod Retries
pub mod Settling
pub mod Concurrency
mod Tests
use Prim.Native.String.{◌++◌ as append}
use murlog.Prelude.{
  ℕ, zero, suc, ◌+◌, ◌*◌, ◌^◌, if◌then◌else◌, leb, Option, none, some, List, [], ◌∷◌, String,
  str_eq,
}
use murlog.Domain.{QueueJob, JobType, max_job_attempts}
use murlog.Queue.{claim, complete, mark_dead, fail}
use murlog.Store.{Store}
use murlog.Store.Circuit
use murlog.Externals.{Externals}

-- The database as the worker sees it, and the number of identifiers drawn so far.
pub record World : Type 0 where
  pub queue : List QueueJob
  pub store : Store
  pub draws : ℕ

-- what a handler comes back with: its error, or a panic
pub data Outcome : Type 0 where
  success : Outcome
  failure : String → Outcome
  panic : String → Outcome

abbrev pub Handler : Type 0
Handler = QueueJob → World → World × Outcome

-- the handlers of the switch in `process`
pub record Handlers : Type 0 where
  pub accept_follow : Handler
  pub reject_follow : Handler
  pub deliver_post : Handler
  pub deliver_note : Handler
  pub update_post : Handler
  pub deliver_update_note : Handler
  pub send_follow : Handler
  pub update_actor : Handler
  pub deliver_update : Handler
  pub deliver_delete : Handler
  pub deliver_delete_note : Handler
  pub send_undo_follow : Handler
  pub send_like : Handler
  pub send_undo_like : Handler
  pub send_announce : Handler
  pub send_undo_announce : Handler
  pub deliver_announce : Handler
  pub send_block : Handler
  pub send_undo_block : Handler
  pub fetch_remote_actor : Handler

-- the switch; `none` is its default
pub dispatch : Handlers → JobType → Option Handler
dispatch h JobType.accept_follow = some h.accept_follow
dispatch h JobType.reject_follow = some h.reject_follow
dispatch h JobType.deliver_post = some h.deliver_post
dispatch h JobType.deliver_note = some h.deliver_note
dispatch h JobType.update_post = some h.update_post
dispatch h JobType.deliver_update_note = some h.deliver_update_note
dispatch h JobType.send_follow = some h.send_follow
dispatch h JobType.update_actor = some h.update_actor
dispatch h JobType.deliver_update = some h.deliver_update
dispatch h JobType.deliver_delete = some h.deliver_delete
dispatch h JobType.deliver_delete_note = some h.deliver_delete_note
dispatch h JobType.send_undo_follow = some h.send_undo_follow
dispatch h JobType.send_like = some h.send_like
dispatch h JobType.send_undo_like = some h.send_undo_like
dispatch h JobType.send_announce = some h.send_announce
dispatch h JobType.send_undo_announce = some h.send_undo_announce
dispatch h JobType.deliver_announce = some h.deliver_announce
dispatch h JobType.send_block = some h.send_block
dispatch h JobType.send_undo_block = some h.send_undo_block
dispatch h JobType.fetch_remote_actor = some h.fetch_remote_actor
dispatch h (JobType.other n) = none

-- a field of a decoded payload, "" where it is missing
pub field_of : String → List (String × String) → String
field_of k [] = ""
field_of k ((j, v) ∷ m) = if str_eq j k then v else field_of k m

-- the first of three texts that is not empty
first_text : String → String → String → String
first_text a b c = if str_eq a "" then (if str_eq b "" then c else b) else a

or_empty : Option String → String
or_empty none = ""
or_empty (some s) = s

-- domainFromPayload
pub domain_from_payload : Externals → String → String
unfolding first_text or_empty field_of
domain_from_payload ext payload = elim (ext.unmarshal payload) [
  | none ↦ ""
  | some p ↦
      let uri =
        first_text (field_of "actor_uri" p) (field_of "target_actor_uri" p)
          (field_of "target_uri" p) in
      if str_eq uri "" then "" else or_empty (ext.hostname uri)
]

-- domainFromActorURI
pub domain_from_actor_uri : Externals → String → String
unfolding or_empty
domain_from_actor_uri ext uri = or_empty (ext.hostname uri)

-- the seconds of the delay `30<<(attempts-1)`; Go panics at a negative count
pub backoff : ℕ → Option ℕ
backoff zero = none
backoff (suc n) = some (30 * 2 ^ n)

-- what process does with the store before it settles a job that failed
record_failure : ℕ → String → String → World → World
record_failure now domain error w = if str_eq domain "" then w else record w {
  store = record (w.store) { failures = Circuit.increment now domain error w.store.failures };
}

clear_failure : String → World → World
clear_failure domain w =
    if str_eq domain ""
    then w
    else record w { store = record (w.store) { failures = Circuit.reset domain w.store.failures } }

-- process behind the switch: the handler has changed the world to `w` and come back with an error
settle_failure : Externals → ℕ → QueueJob → String → World → World × Outcome
settle_failure ext now job error w =
    let w' = record_failure now (domain_from_payload ext job.payload) error w in
    if leb max_job_attempts job.attempts
    then (
      record w' {
        queue = mark_dead now job.id (append "max attempts (5) reached: " error) w'.queue;
      },
      success,
    )
    else elim (backoff job.attempts) [
      | none ↦ (w', panic "negative shift amount")
      | some delay ↦ (record w' { queue = fail job.id (now + delay) error w'.queue }, success)
    ]

settle : Externals → ℕ → QueueJob → World × Outcome → World × Outcome
unfolding clear_failure settle_failure record_failure
settle ext now job (w, panic message) = (w, panic message)
settle ext now job (w, failure error) = settle_failure ext now job error w
settle ext now job (w, success) =
    let w' = clear_failure (domain_from_payload ext job.payload) w in
    (record w' { queue = complete now job.id w'.queue }, success)

process_with : Externals → ℕ → QueueJob → Option Handler → World → World × Outcome
unfolding settle
process_with ext now job none w = (record w { queue = complete now job.id w.queue }, success)
process_with ext now job (some handler) w = settle ext now job (handler job w)

-- process, at the time `now`; its own outcome is a success or a panic
pub process : Externals → Handlers → ℕ → QueueJob → World → World × Outcome
unfolding process_with
process ext h now job w = process_with ext now job (dispatch h job.kind) w

-- the deferred recover of the goroutines in Run and RunBatch
pub recovered : ℕ → QueueJob → World × Outcome → World
recovered now job (w, success) = w
recovered now job (w, failure error) = w
recovered now job (w, panic message) = record w {
  queue = fail job.id (now + 30) (append "panic: " message) w.queue;
}

-- one goroutine
pub run_job : Externals → Handlers → ℕ → QueueJob → World → World
unfolding process recovered
run_job ext h now job w = recovered now job (process ext h now job w)

-- RunOnce behind its Claim
run_claimed :
    Externals → Handlers → ℕ → World → List QueueJob × Option QueueJob → World × Option Outcome
unfolding process
run_claimed ext h now w (q, none) = (record w { queue = q }, none)
run_claimed ext h now w (q, some job) =
    let r = process ext h now job (record w { queue = q }) in (r.0, some r.1)

-- RunOnce: `none` when it claimed no job, or else how process ended (nothing recovers a panic here)
pub run_once : Externals → Handlers → ℕ → World → World × Option Outcome
unfolding run_claimed
run_once ext h now w = run_claimed ext h now w (claim now w.queue)
