-- ===== src/Worker/Fanout/Delivery/Cached.antt =====
-- worker/worker.go: the cache of dead domains in fanoutToFollowers says what the table says.
use murlog.Prelude.{
  [], inr, eq_iff, inl, ℕ, Bool, not, ◌≡◌, refl, ap, ◌∙◌, sym, arith, some, List, ◌∷◌, String,
  str_eq, Option-cases, Bool-cases,
}
use murlog.Domain.Social.{Follower, DomainFailure}
use murlog.Store.Circuit.{is_dead_domain}
use murlog.Externals.{Externals}
use murlog.Worker.{domain_from_actor_uri}
use murlog.Worker.Fanout.{Cache, cached, is_dead, skips}
use murlog.Worker.Fanout.Delivery.{is_live}

-- every entry of the cache is what the table says
abbrev pub Truthful : ℕ → List DomainFailure → Cache → Type 0
Truthful now failures c =
    (d : String) (v : Bool) → cached d c ≡ some v → v ≡ is_dead_domain now d failures

module _ (now : ℕ) (failures : List DomainFailure) where
  pub nothing_cached : Truthful now failures []
  unfolding cached
  nothing_cached d v h = cc

  remember :
      (d : String) (c : Cache)
      → Truthful now failures c
      → Truthful now failures ((d, is_dead_domain now d failures) ∷ c)
  unfolding cached
  remember d c t e v h = elim (Bool-cases (str_eq d e)) [
    | inl same_text ↦
        let same : d ≡ e = (eq_iff d e).0 same_text in
        let found : some (is_dead_domain now d failures) ≡ some v = rw same_text at h in
        let value : is_dead_domain now d failures ≡ v = ground arith in
        sym value ∙ ap (λ (x : String). is_dead_domain now x failures) same
    | inr differ ↦ let found : cached e c ≡ some v = rw differ at h in t e v found
  ]

  is_dead_lem :
      (d : String) (c : Cache)
      → Truthful now failures c
      → ((is_dead now failures d c).1 ≡ is_dead_domain now d failures)
        × Truthful now failures (is_dead now failures d c).0
  unfolding is_dead
  is_dead_lem d c t = elim (Option-cases (cached d c)) [
    | inl e ↦ rw (e, is_dead) (refl, remember d c t)
    | inr (v, e) ↦ rw (e, is_dead) (t d v e, t)
  ]

  pub skips_lem :
      (ext : Externals) (f : Follower) (c : Cache)
      → Truthful now failures c
      → ((skips ext now failures f.actor_uri c).1 ≡ not (is_live ext now failures f))
        × Truthful now failures (skips ext now failures f.actor_uri c).0
  unfolding skips
  skips_lem ext f c t = elim (Bool-cases (str_eq (domain_from_actor_uri ext f.actor_uri) "")) [
    | inl e ↦ rw e (refl, t)
    | inr e ↦
        let r = is_dead_lem (domain_from_actor_uri ext f.actor_uri) c t in
        rw e (r.0 ∙ ground arith, r.1)
  ]
