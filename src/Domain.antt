-- ===== src/Domain.antt =====
-- murlog.go: the domain types of the job queue.
pub mod Social
use murlog.Prelude.{ℕ, Bool, true, false, String, Option}

-- JobType; `other` is an integer that names no kind.
pub data JobType : Type 0 where
  accept_follow reject_follow deliver_post deliver_note update_post deliver_update_note : JobType
  send_follow update_actor deliver_update deliver_delete deliver_delete_note : JobType
  send_undo_follow send_like send_undo_like send_announce send_undo_announce : JobType
  deliver_announce send_block send_undo_block fetch_remote_actor : JobType
  other : ℕ → JobType

-- JobStatus
pub data JobStatus : Type 0 where
  pending running done failed dead : JobStatus

abbrev pub is_pending : JobStatus → Bool
is_pending pending = true
is_pending _ = false

abbrev pub is_running : JobStatus → Bool
is_running running = true
is_running _ = false

abbrev pub is_done : JobStatus → Bool
is_done done = true
is_done _ = false

abbrev pub is_failed : JobStatus → Bool
is_failed failed = true
is_failed _ = false

abbrev pub is_dead : JobStatus → Bool
is_dead dead = true
is_dead _ = false

-- MaxJobAttempts
abbrev pub max_job_attempts : ℕ
max_job_attempts = 5

-- QueueJob. An id is the number that its 16 bytes spell, so `id <` is the order of the bytes. A
-- time is in seconds, as `FormatTime` stores it; a zero `CompletedAt` is `none`.
pub record QueueJob : Type 0 where
  pub id : ℕ
  pub kind : JobType
  pub payload : String
  pub status : JobStatus
  pub attempts : ℕ
  pub last_error : String
  pub next_run_at : ℕ
  pub created_at : ℕ
  pub completed_at : Option ℕ
