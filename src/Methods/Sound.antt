-- ===== src/Methods/Sound.antt =====
-- handler/api_mur_*.go: the methods keep the invariants of the store.
use murlog.Prelude.{
  ℕ, ◌≡◌, refl, Option, none, some, List, String, str_eq, inl, inr, Option-cases, Bool-cases,
}
use murlog.Domain.{JobType}
use murlog.Queue.{enqueue}
use murlog.Id.{parse_id}
use murlog.Rpc.{RpcCode}
use murlog.Store.{Store}
use murlog.Store.Followers.Frames.{SamePosts}
use murlog.Store.Followers.Invariant.{Step}
use murlog.Store.Interactions.Frames.{Same}
use murlog.Worker.{World}
use murlog.Worker.Fanout.{new_job}
use murlog.Inbox.{Site}
use murlog.Inbox.Invariant.{Sound, Held-Same, Held-relations}
use murlog.Methods.{
  Answer, enqueue_job, with_params, with_id, with_persona_id, id_or_refused, primary_persona_id,
}

pub Sound-Same : (s s' : Store) → Same s s' → Sound s → Sound s'
Sound-Same s s' same v = (Held-Same s s' same v).sound

pub Sound-relations : (s s' : Store) → Step s s' → SamePosts s s' → Sound s → Sound s'
Sound-relations s s' step same v = (Held-relations s s' step same v).sound

-- a job changes the queue only
pub enqueue_job-store :
    (site : Site) (kind : JobType) (payload : List (String × String)) (w : World)
    → (enqueue_job site kind payload w).store ≡ w.store
unfolding enqueue_job
enqueue_job-store site kind payload w =
    elim (Option-cases (enqueue (new_job site.ext site.now w.draws kind payload) w.queue)) [
      | inl e ↦ rw (e, enqueue_job) refl
      | inr (q, e) ↦ rw (e, enqueue_job) refl
    ]

-- a method that keeps a sound store sound
abbrev pub Keeps : (World → World × Answer) → Type 0
Keeps call = (w : World) → Sound w.store → Sound (call w).0.store

pub with_params-Keeps :
    {A : Type 0} (o : Option A) (call : A → World → World × Answer)
    → ((a : A) → Keeps (call a))
    → Keeps (with_params o call)
unfolding with_params
with_params-Keeps none call f w v = v
with_params-Keeps (some a) call f w v = f a w v

id_or_refused-Keeps :
    (code : RpcCode) (o : Option ℕ) (call : ℕ → World → World × Answer)
    → ((id : ℕ) → Keeps (call id))
    → Keeps (id_or_refused code o call)
unfolding id_or_refused
id_or_refused-Keeps code none call f w v = v
id_or_refused-Keeps code (some id) call f w v = f id w v

pub with_id-Keeps :
    (raw : String) (call : ℕ → World → World × Answer)
    → ((id : ℕ) → Keeps (call id))
    → Keeps (with_id raw call)
unfolding with_id
with_id-Keeps raw call f w v = id_or_refused-Keeps _ (parse_id raw) call f w v

pub with_persona_id-Keeps :
    (raw : String) (call : ℕ → World → World × Answer)
    → ((id : ℕ) → Keeps (call id))
    → Keeps (with_persona_id raw call)
unfolding with_persona_id
with_persona_id-Keeps raw call f w v = elim (Bool-cases (str_eq raw "")) [
  | inl e ↦ rw e (id_or_refused-Keeps _ (primary_persona_id w.store) call f w v)
  | inr e ↦ rw e (id_or_refused-Keeps _ (parse_id raw) call f w v)
]
