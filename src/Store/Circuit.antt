-- ===== src/Store/Circuit.antt =====
-- store/sqlite/domain_failure.go: the failures of a domain, and when it counts as dead.
pub mod Bursts
use murlog.Prelude.{
  ℕ, ◌+◌, ◌-◌, Bool, false, ◌&&◌, ◌≡◌, if◌then◌else◌, leb, ltb, arith, Option, none, some, List, [],
  ◌∷◌, String, str_eq, eq_iff,
}
use murlog.Prelude.Tables.{delete_where, find_row}
use murlog.Domain.Social.{DomainFailure}

-- deadThreshold and deadWindow
abbrev pub dead_threshold : ℕ
dead_threshold = 10

abbrev pub dead_window : ℕ
dead_window = 3600

abbrev has_domain : String → DomainFailure → Bool
has_domain domain f = str_eq f.domain domain

-- IncrementDomainFailure: an INSERT with ON CONFLICT(domain) DO UPDATE
pub increment : ℕ → String → String → List DomainFailure → List DomainFailure
increment now domain error [] =
    record {
      domain = domain;
      failure_count = 1;
      last_error = error;
      first_failure_at = now;
      last_failure_at = now;
    }
    ∷ []
increment now domain error (f ∷ fs) =
    let rest = increment now domain error fs in
    if has_domain domain f
    then record f { failure_count = f.failure_count + 1; last_error = error; last_failure_at = now }
      ∷ fs
    else f ∷ rest

-- ResetDomainFailure
pub reset : String → List DomainFailure → List DomainFailure
reset domain = delete_where (has_domain domain)

-- the row that the SELECT of IsDomainDead reads
abbrev recent : ℕ → String → DomainFailure → Bool
recent now domain f = has_domain domain f && ltb (now - dead_window) f.last_failure_at

-- IsDomainDead
pub is_dead_domain : ℕ → String → List DomainFailure → Bool
is_dead_domain now domain fs = elim (find_row (recent now domain) fs) [
  | none ↦ false
  | some f ↦ leb dead_threshold f.failure_count
]

abbrev pub find_failure : String → List DomainFailure → Option DomainFailure
find_failure domain = find_row (has_domain domain)

pub find_failure-increment :
    (now : ℕ) (domain k error : String) (fs : List DomainFailure)
    → find_failure k (increment now domain error fs) ≡ (
        if str_eq domain k
        then elim (find_failure k fs) [
          | none ↦ some (record {
            domain = domain;
            failure_count = 1;
            last_error = error;
            first_failure_at = now;
            last_failure_at = now;
          })
          | some f ↦ some (record f {
            failure_count = f.failure_count + 1;
            last_error = error;
            last_failure_at = now;
          })
        ]
        else find_failure k fs)
unfolding increment
find_failure-increment now domain k error [] = ground arith
find_failure-increment now domain k error (f ∷ fs) = ground (
  arith,
  eq_iff domain k,
  eq_iff f.domain k,
  eq_iff f.domain domain,
  find_failure-increment now domain k error fs,
)
