-- ===== src/Worker/Tests.antt =====
-- Concrete workers, and the theorems about the worker on them.
use murlog.Prelude.{
  ◌+◌, ◌<◌, ◌^◌, if◌then◌else◌, ltb, ℕ, ◌≡◌, ◌≤◌, refl, arith, none, some, [], ◌∷◌,
}
use murlog.Domain.{QueueJob, JobStatus, JobType, pending, running, failed, dead}
use murlog.Store.{Store}
use murlog.Externals.{Externals}
use murlog.Queue.{find_job}
use murlog.Queue.Stats.{QueueStats}
use murlog.Worker.{World, Handlers, Handler, failure, panic, dispatch, run_job, backoff}
use murlog.Worker.Settling.{settled, find_job-run_job}
use murlog.Worker.Retries.{rounds, rounds_lem}
use murlog.Worker.Concurrency.{new, decide_concurrency, decide_concurrency_bounds}

abbrev pub no_rows : Store
no_rows = record {
  personas = [];
  posts = [];
  post_tags = [];
  attachments = [];
  follows = [];
  followers = [];
  remote_actors = [];
  favourites = [];
  reblogs = [];
  notifications = [];
  blocks = [];
  domain_blocks = [];
  failures = [];
}

abbrev offline : Externals
offline = record {
  marshal = λ _. "{}";
  unmarshal = λ _. some (("actor_uri", "https://a.example/u") ∷ []);
  hostname = λ _. some "a.example";
  new_id = λ n. n;
}

abbrev unreachable : Handler
unreachable job w = (w, failure "connection refused")

abbrev all : Handler → Handlers
all h = record {
  accept_follow = h;
  reject_follow = h;
  deliver_post = h;
  deliver_note = h;
  update_post = h;
  deliver_update_note = h;
  send_follow = h;
  update_actor = h;
  deliver_update = h;
  deliver_delete = h;
  deliver_delete_note = h;
  send_undo_follow = h;
  send_like = h;
  send_undo_like = h;
  send_announce = h;
  send_undo_announce = h;
  deliver_announce = h;
  send_block = h;
  send_undo_block = h;
  fetch_remote_actor = h;
}

abbrev job : ℕ → JobStatus → ℕ → QueueJob
job id status attempts = record {
  id = id;
  kind = JobType.deliver_note;
  payload = "{}";
  status = status;
  attempts = attempts;
  last_error = "";
  next_run_at = 50;
  created_at = 0;
  completed_at = none;
}

abbrev world : World
world = record { queue = job 4 running 2 ∷ job 5 pending 0 ∷ []; store = no_rows; draws = 0 }

dispatched : dispatch (all unreachable) JobType.deliver_note ≡ some unreachable
unfolding dispatch
dispatched = refl

find_job-run_job_example :
    find_job 4 (run_job offline (all (λ j w. (w, panic "boom"))) 100 (job 4 running 2) world).queue
    ≡ some (settled 100 (job 4 running 2) (panic "boom") (job 4 running 2))
unfolding dispatch
find_job-run_job_example =
    find_job-run_job offline (all (λ j w. (w, panic "boom"))) 100 4 (job 4 running 2)
      (job 4 running 2) world (omega arith) refl

abbrev alone : World
alone = record { queue = job 5 pending 2 ∷ []; store = no_rows; draws = 0 }

rounds_lem_example :
    (r : QueueJob) × ((rounds offline
        (all unreachable)
        unreachable
        "connection refused"
        (λ j w. refl)
        (0 ∷ 7 ∷ 0 ∷ [])
        alone).queue
      ≡ r ∷ [])
    × (r.id ≡ 5)
    × (r.attempts ≡ 5)
    × (r.status ≡ (if ltb r.attempts 5 then failed else dead))
rounds_lem_example =
    rounds_lem offline (all unreachable) unreachable "connection refused" (λ j w. refl) (7 ∷ 0 ∷ [])
      0 (job 5 pending 2) alone dispatched refl refl (omega arith)

third : backoff 3 ≡ some 120
unfolding backoff
third = refl

abbrev busy : ℕ → QueueStats
busy n = record {
  pending_count = n;
  running_count = 0;
  done_count = 0;
  failed_count = 0;
  dead_count = 0;
}

-- New raises the upper bound to the lower one, which is 8 by default
default_sum : (new 0 2 0).min_concurrency + (new 0 2 0).max_concurrency < 2 ^ 63
unfolding new
default_sum = omega arith

decide_concurrency_bounds_example :
    (1 ≤ decide_concurrency (new 0 2 0) (some (busy 200)))
    × ((new 0 2 0).min_concurrency ≤ decide_concurrency (new 0 2 0) (some (busy 200)))
    × (decide_concurrency (new 0 2 0) (some (busy 200)) ≤ (new 0 2 0).max_concurrency)
decide_concurrency_bounds_example = decide_concurrency_bounds 0 2 0 (some (busy 200)) default_sum
