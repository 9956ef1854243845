-- ===== src/Queue/Rows.antt =====
-- queue/sqlqueue/sqlqueue.go: the conditions on one row that the statements share.
use murlog.Prelude.{ℕ, Bool, ◌&&◌, ◌||◌, leb, ◌==◌, Option, none, some, List, [], ◌∷◌}
use murlog.Prelude.Tables.{find_row}
use murlog.Domain.{QueueJob, is_pending, is_failed}

-- status IN (pending, failed) AND next_run_at <= now
abbrev pub ready : ℕ → QueueJob → Bool
ready now j = (is_pending j.status || is_failed j.status) && leb j.next_run_at now

-- the primary key
abbrev pub key : QueueJob → ℕ
key j = j.id

-- id = ?
abbrev pub has_id : ℕ → QueueJob → Bool
has_id id j = j.id == id

-- the row with an id
abbrev pub find_job : ℕ → List QueueJob → Option QueueJob
find_job id = find_row (has_id id)

-- LIMIT 1
abbrev pub first_row {ℓ} : {A : Type ℓ} → List A → Option A
first_row [] = none
first_row (r ∷ rs) = some r
