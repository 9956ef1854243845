-- ===== src/Worker/Concurrency.antt =====
-- worker/worker.go: New and decideConcurrency. An int is its 64 bits in two's complement, below
-- 2 ^ 64; one from 2 ^ 63 on is negative.
use murlog.Prelude.{
  ◌≡◌, ℕ, ◌+◌, ◌-◌, ◌/◌, ◌%◌, ◌^◌, ◌<◌, ◌≤◌, ◌||◌, Bool, ◌==◌, if◌then◌else◌, leb, ltb, arith,
  Option, none, some,
}
use murlog.Queue.Stats.{QueueStats}

pub record Settings : Type 0 where
  pub min_concurrency : ℕ
  pub max_concurrency : ℕ
  pub job_retention_days : ℕ

-- n < 0 of an int
abbrev pub is_negative : ℕ → Bool
is_negative n = leb (2 ^ 63) n

-- a < b of two ints
abbrev pub int_lt : ℕ → ℕ → Bool
int_lt a b =
    if is_negative a
    then (if is_negative b then ltb a b else Bool.true)
    else (if is_negative b then Bool.false else ltb a b)

-- a + b of two ints, which wraps around
abbrev pub int_add : ℕ → ℕ → ℕ
int_add a b = (a + b) % 2 ^ 64

-- n / 2 of an int, rounded towards zero
abbrev pub int_half : ℕ → ℕ
int_half n = if is_negative n then (2 ^ 64 - (2 ^ 64 - n) / 2) % 2 ^ 64 else n / 2

-- if n <= 0 { n = d }
or_default : ℕ → ℕ → ℕ
or_default n d = if is_negative n || n == 0 then d else n

-- New
unfoldable pub new : ℕ → ℕ → ℕ → Settings
unfolding or_default
new min max days =
    let min_c = or_default min 8 in
    let max_c = or_default max 32 in
    record {
      min_concurrency = min_c;
      max_concurrency = if int_lt max_c min_c then min_c else max_c;
      job_retention_days = or_default days 7;
    }

-- decideConcurrency; `none` is an error of Stats
pub decide_concurrency : Settings → Option QueueStats → ℕ
decide_concurrency w none = w.min_concurrency
decide_concurrency w (some stats) =
    let mid = int_half (int_add w.min_concurrency w.max_concurrency) in
    if leb 500 stats.pending_count
    then w.max_concurrency
    else if leb 100 stats.pending_count
    then mid
    else w.min_concurrency

-- A worker made by New from any two ints, negative ones and zero included, runs at least one job at a
-- time, and its concurrency always lies between its two bounds, as long as the sum of the bounds is
-- an int.
pub decide_concurrency_bounds :
    (min max days : ℕ) (stats : Option QueueStats)
    → (new min max days).min_concurrency + (new min max days).max_concurrency < 2 ^ 63
    → (1 ≤ decide_concurrency (new min max days) stats)
      × ((new min max days).min_concurrency ≤ decide_concurrency (new min max days) stats)
      × (decide_concurrency (new min max days) stats ≤ (new min max days).max_concurrency)
unfolding new decide_concurrency
decide_concurrency_bounds min max days none h = ground arith
decide_concurrency_bounds min max days (some stats) h = ground arith

-- The sum of the bounds wraps around to a negative int when it is not an int, and then the
-- concurrency under a moderate load is negative.
pub decide_concurrency_wraps :
    (min max days : ℕ) (stats : QueueStats)
    → min < 2 ^ 64
    → max < 2 ^ 64
    → 2 ^ 63 ≤ (new min max days).min_concurrency + (new min max days).max_concurrency
    → 100 ≤ stats.pending_count
    → stats.pending_count < 500
    → is_negative (decide_concurrency (new min max days) (some stats)) ≡ Bool.true
unfolding new decide_concurrency
decide_concurrency_wraps min max days stats a b h low high = ground arith

-- More pending jobs never lower the concurrency of such a worker.
pub decide_concurrency_mono :
    (min max days : ℕ) (s t : QueueStats)
    → (new min max days).min_concurrency + (new min max days).max_concurrency < 2 ^ 63
    → s.pending_count ≤ t.pending_count
    → decide_concurrency (new min max days) (some s)
      ≤ decide_concurrency (new min max days) (some t)
unfolding new decide_concurrency
decide_concurrency_mono min max days s t b h = ground arith
