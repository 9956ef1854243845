-- ===== src/Store/Circuit/Bursts.antt =====
-- store/sqlite/domain_failure.go: when runs of failures open the circuit, and what closes it.
use murlog.Prelude.{
  ℕ, ◌+◌, ◌-◌, false, ◌&&◌, ◌≡◌, refl, ◌∙◌, if◌then◌else◌, leb, ltb, arith, none, some, List, [],
  ◌∷◌, String, str_eq, eq_iff, length,
}
use murlog.Prelude.Tables.{any_row, find_row}
use murlog.Domain.Social.{DomainFailure}
use murlog.Store.Circuit.{
  increment, reset, is_dead_domain, find_failure, find_failure-increment, has_domain, recent,
  dead_threshold, dead_window,
}

-- The primary key of `domain_failures`.
abbrev pub DomainsUnique : List DomainFailure → Type 0
DomainsUnique [] = Unit {0}
DomainsUnique (f ∷ fs) = (any_row (has_domain f.domain) fs ≡ false) × DomainsUnique fs

any_row-increment :
    (now : ℕ) (domain k error : String) (fs : List DomainFailure)
    → str_eq domain k ≡ false
    → any_row (has_domain k) (increment now domain error fs) ≡ any_row (has_domain k) fs
unfolding increment
any_row-increment now domain k error [] h = ground arith
any_row-increment now domain k error (f ∷ fs) h =
    ground (arith, any_row-increment now domain k error fs h, eq_iff f.domain domain)

pub increment-DomainsUnique :
    (now : ℕ) (domain error : String) (fs : List DomainFailure)
    → DomainsUnique fs
    → DomainsUnique (increment now domain error fs)
unfolding increment
increment-DomainsUnique now domain error [] u = (refl, tt)
increment-DomainsUnique now domain error (f ∷ fs) u = ground (
  arith,
  eq_iff f.domain domain,
  eq_iff domain f.domain,
  any_row-increment now domain f.domain error fs,
  increment-DomainsUnique now domain error fs u.1,
)

recent-none :
    (now : ℕ) (domain : String) (fs : List DomainFailure)
    → any_row (has_domain domain) fs ≡ false
    → find_row (recent now domain) fs ≡ none
recent-none now domain [] h = refl
recent-none now domain (f ∷ fs) h = ground (arith, recent-none now domain fs)

-- With one row for a domain, IsDomainDead reads that row: many failures, the last one recent.
pub is_dead_domain_lem :
    (now : ℕ) (domain : String) (fs : List DomainFailure)
    → DomainsUnique fs
    → is_dead_domain now domain fs ≡ elim (find_failure domain fs) [
      | none ↦ false
      | some f ↦ ltb (now - dead_window) f.last_failure_at && leb dead_threshold f.failure_count
    ]
unfolding is_dead_domain
is_dead_domain_lem now domain [] u = refl
is_dead_domain_lem now domain (f ∷ fs) u =
    ground (
      arith,
      eq_iff f.domain domain,
      recent-none now domain fs,
      is_dead_domain_lem now domain fs u.1,
    )

-- failures of one domain at the given times
pub fail_at : String → String → List ℕ → List DomainFailure → List DomainFailure
fail_at domain error [] fs = fs
fail_at domain error (t ∷ ts) fs = fail_at domain error ts (increment t domain error fs)

unfoldable pub last_of : ℕ → List ℕ → ℕ
last_of t [] = t
last_of t (u ∷ ts) = last_of u ts

module _ (domain error : String) where
  fail_at-DomainsUnique :
      (ts : List ℕ) (fs : List DomainFailure)
      → DomainsUnique fs
      → DomainsUnique (fail_at domain error ts fs)
  unfolding fail_at
  fail_at-DomainsUnique [] fs u = u
  fail_at-DomainsUnique (t ∷ ts) fs u =
      fail_at-DomainsUnique ts (increment t domain error fs)
        (increment-DomainsUnique t domain error fs u)

  counted :
      (ts : List ℕ) (fs : List DomainFailure) (f : DomainFailure)
      → find_failure domain fs ≡ some f
      → (g : DomainFailure) × (find_failure domain (fail_at domain error ts fs) ≡ some g)
        × (g.failure_count ≡ f.failure_count + length ts)
        × (g.last_failure_at ≡ last_of f.last_failure_at ts)
  unfolding fail_at last_of
  counted [] fs f h = (f, h, omega arith, refl)
  counted (t ∷ ts) fs f h =
      let f' : DomainFailure = record f {
        failure_count = f.failure_count + 1;
        last_error = error;
        last_failure_at = t;
      } in
      let step : find_failure domain (increment t domain error fs) ≡ some f' =
        ground (arith, find_failure-increment t domain domain error fs, eq_iff domain domain) in
      let (g, found, count, last) = counted ts (increment t domain error fs) f' step in
      (g, found, omega (arith, count), last)

  -- A domain with no recorded failure that fails at the times `t ∷ ts` is dead exactly when these
  -- are ten or more and the last of them lies within the window before `now`.
  pub is_dead_domain-burst :
      (now t : ℕ) (ts : List ℕ) (fs : List DomainFailure)
      → DomainsUnique fs
      → find_failure domain fs ≡ none
      → is_dead_domain now domain (fail_at domain error (t ∷ ts) fs)
        ≡ (ltb (now - dead_window) (last_of t ts) && leb dead_threshold (length (t ∷ ts)))
  unfolding fail_at
  is_dead_domain-burst now t ts fs u h =
      let first : DomainFailure = record {
        domain = domain;
        failure_count = 1;
        last_error = error;
        first_failure_at = t;
        last_failure_at = t;
      } in
      let start : find_failure domain (increment t domain error fs) ≡ some first =
        ground (arith, find_failure-increment t domain domain error fs, eq_iff domain domain) in
      let (g, found, count, last) = counted ts (increment t domain error fs) first start in
      let unique = fail_at-DomainsUnique (t ∷ ts) fs u in
      let one : g.failure_count ≡ length (t ∷ ts) = omega (arith, count) in
      is_dead_domain_lem now domain (fail_at domain error (t ∷ ts) fs) unique
      ∙ rw (found, one, last)

  -- A success closes the circuit of its domain and of no other.
  find_failure-reset :
      (k : String) (fs : List DomainFailure)
      → find_failure k (reset domain fs) ≡ (if str_eq domain k then none else find_failure k fs)
  unfolding reset
  find_failure-reset k [] = ground arith
  find_failure-reset k (f ∷ fs) =
      ground
        (arith, eq_iff domain k, eq_iff f.domain k, eq_iff f.domain domain, find_failure-reset k fs)
