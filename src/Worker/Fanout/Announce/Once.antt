-- ===== src/Worker/Fanout/Announce/Once.antt =====
-- worker/worker.go: who is told of an announcement.
use mathlib.Core.Path.{subst}
use murlog.Prelude.{
  ℕ, suc, true, false, ◌≡◌, inl, inr, refl, sym, arith, none, some, List, [], ◌∷◌, All, String,
  eq_iff, Bool-cases,
}
use murlog.Domain.{QueueJob, JobType}
use murlog.Domain.Social.{Follower, DomainFailure}
use murlog.Queue.{inserted}
use murlog.Externals.{Externals}
use murlog.Worker.Fanout.{new_job}
use murlog.Worker.Fanout.Delivery.{
  Sent, is_live, deliver_each, deliver_each-dead, deliver_each-nil, deliver_each-none,
  deliver_each-some,
}
use murlog.Worker.Fanout.Announce.{member, make_announce, announce_payload}

-- no actor twice
abbrev pub Distinct : List String → Type 0
Distinct [] = Unit {0}
Distinct (a ∷ bs) = (member a bs ≡ false) × Distinct bs

module _ (ext : Externals) (now : ℕ) (persona post activity : String)
    (failures : List DomainFailure) where
  abbrev announcement : ℕ → String → QueueJob
  announcement draw actor =
      inserted (
        new_job ext now draw JobType.deliver_announce
          (announce_payload persona post activity actor))

  abbrev pub each : List Follower → Sent → Sent
  each = deliver_each ext now (make_announce persona post activity) failures

  -- What telling followers does: the actors `news` are told, in this order, by one job each.
  pub data Tells : List String → Sent → Sent → Type 0 where
    nobody : {s : Sent} → Tells [] s s
    next :
        {s s' : Sent} {news : List String} (actor : String)
        → member actor s.delivered ≡ false
        → Tells news
            (record {
              delivered = actor ∷ s.delivered;
              draws = suc s.draws;
              queue = announcement s.draws actor ∷ s.queue;
            })
            s'
        → Tells (actor ∷ news) s s'

  Tells-kept :
      {s s' : Sent} {news : List String} (a : String)
      → Tells news s s'
      → member a s.delivered ≡ true
      → member a s'.delivered ≡ true
  unfolding member
  Tells-kept a nobody h = h
  Tells-kept a (next actor fresh t) h = Tells-kept a t (ground arith)

  Tells-Distinct :
      {s s' : Sent} {news : List String}
      → Tells news s s'
      → Distinct s.delivered
      → Distinct s'.delivered
  Tells-Distinct nobody h = h
  Tells-Distinct (next actor fresh t) h = Tells-Distinct t (fresh, h)

  -- a delivery that tells actors of whom every live follower is one
  abbrev pub IsComplete : List Follower → Sent → Sent → Type 0
  IsComplete fs s s' =
      (news : List String) × Tells news s s'
      × All (λ f. is_live ext now failures f ≡ true → member f.actor_uri s'.delivered ≡ true) fs

  told_first :
      (f : Follower) (fs : List Follower) (s s' : Sent)
      → (is_live ext now failures f ≡ true → member f.actor_uri s.delivered ≡ true)
      → IsComplete fs s s'
      → IsComplete (f ∷ fs) s s'
  told_first f fs s s' h (news, t, rest) =
      (news, t, (λ live. Tells-kept f.actor_uri t (h live), rest))

  member-head : (a : String) (bs : List String) → member a (a ∷ bs) ≡ true
  unfolding member
  member-head a bs = ground (arith, eq_iff a a)

  new_first :
      (f : Follower) (fs : List Follower) (s s' : Sent)
      → member f.actor_uri s.delivered ≡ false
      → IsComplete fs
          (record {
            delivered = f.actor_uri ∷ s.delivered;
            draws = suc s.draws;
            queue = announcement s.draws f.actor_uri ∷ s.queue;
          })
          s'
      → IsComplete (f ∷ fs) s s'
  new_first f fs s s' new (news, t, rest) = (
    f.actor_uri ∷ news,
    next f.actor_uri new t,
    (λ live. Tells-kept f.actor_uri t (member-head f.actor_uri s.delivered), rest),
  )

  make_told :
      (f : Follower) (delivered : List String)
      → member f.actor_uri delivered ≡ true
      → make_announce persona post activity delivered f ≡ (delivered, none)
  unfolding make_announce
  make_told f delivered h = rw h refl

  make_new :
      (f : Follower) (delivered : List String)
      → member f.actor_uri delivered ≡ false
      → make_announce persona post activity delivered f ≡ (
        f.actor_uri ∷ delivered,
        some (JobType.deliver_announce, announce_payload persona post activity f.actor_uri),
      )
  unfolding make_announce
  make_new f delivered h = rw h refl

  each-IsComplete : (fs : List Follower) (s : Sent) → IsComplete fs s (each fs s)
  each-IsComplete [] s =
      subst (IsComplete [] s)
        (sym (deliver_each-nil ext now (make_announce persona post activity) failures s))
        ([], nobody, tt)
  each-IsComplete (f ∷ fs) s = elim (Bool-cases (is_live ext now failures f)) [
    | inr dead ↦
        let same =
          deliver_each-dead ext now (make_announce persona post activity) failures f fs s dead in
        subst (IsComplete (f ∷ fs) s) (sym same)
          (told_first f fs s (each fs s) (λ live. ground (arith, live)) (each-IsComplete fs s))
    | inl live ↦ elim (Bool-cases (member f.actor_uri s.delivered)) [
      | inl told ↦
          let same =
            deliver_each-none ext now (make_announce persona post activity) failures f fs s
              s.delivered live (make_told f s.delivered told) in
          subst (IsComplete (f ∷ fs) s) (sym same)
            (told_first f fs s (each fs s) (λ _. told) (each-IsComplete fs s))
      | inr new ↦
          let same =
            deliver_each-some ext now (make_announce persona post activity) failures f fs s
              (f.actor_uri ∷ s.delivered) JobType.deliver_announce
              (announce_payload persona post activity f.actor_uri) live
              (make_new f s.delivered new) in
          subst (IsComplete (f ∷ fs) s) (sym same) (new_first f fs s _ new (each-IsComplete fs _))
    ]
  ]

  -- An announcement to followers tells each actor at most once, and nobody that was told before, by
  -- one new job each; every follower of a live domain has been told in the end, and the record of
  -- who was told holds no actor twice if it held none twice before.
  pub deliver_each-announce :
      (fs : List Follower) (s : Sent)
      → ((news : List String) × Tells news s
            (deliver_each ext now (make_announce persona post activity) failures fs s)
          × All
              (λ f.
                is_live ext now failures f ≡ true
                → member f.actor_uri
                    (deliver_each ext now
                      (make_announce persona post activity)
                      failures
                      fs
                      s).delivered
                  ≡ true)
              fs)
        × (Distinct s.delivered
            → Distinct
                (deliver_each ext now
                  (make_announce persona post activity)
                  failures
                  fs
                  s).delivered)
  deliver_each-announce fs s =
      let complete = each-IsComplete fs s in (complete, Tells-Distinct complete.1)
