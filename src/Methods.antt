-- ===== src/Methods.antt =====
-- handler/api_mur_*.go: methods of the JSON-RPC interface that change the tables of follows,
-- followers, blocks, favourites, reblogs and notifications. Parameters are the fields of their
-- decoded struct, and `none` is what does not decode; of an answer only its error is kept.
pub mod Follows
pub mod Blocks
pub mod Favourites
pub mod Reblogs
pub mod Notifications
pub mod Sound
use murlog.Prelude.{ℕ, suc, ◌==◌, if◌then◌else◌, Option, none, some, List, [], ◌∷◌, String, str_eq}
use murlog.Prelude.Tables.{find_row, order_by}
use murlog.Domain.{JobType}
use murlog.Domain.Social.{Persona}
use murlog.Queue.{enqueue}
use murlog.Rpc.{RpcCode, invalid_params, internal_error}
use murlog.Id.{parse_id}
use murlog.Store.{Store}
use murlog.Worker.{World}
use murlog.Worker.Fanout.{new_job}
use murlog.Inbox.{Site}

pub data Answer : Type 0 where
  ok : Answer
  refused : RpcCode → Answer

-- NewJob and Enqueue, whose error is dropped
pub enqueue_job : Site → JobType → List (String × String) → World → World
enqueue_job site kind payload w =
    elim (enqueue (new_job site.ext site.now w.draws kind payload) w.queue) [
      | none ↦ record w { draws = suc (w.draws) }
      | some q ↦ record w { queue = q; draws = suc (w.draws) }
    ]

-- GetPersona
abbrev pub get_persona : ℕ → Store → Option Persona
get_persona id s = find_row (λ p. p.id == id) s.personas

first_id : List Persona → Option ℕ
first_id [] = none
first_id (p ∷ ps) = some p.id

-- primaryPersonaID; id.Nil is none
pub primary_persona_id : Store → Option ℕ
unfolding first_id
primary_persona_id s = first_id (order_by (λ p. p.created_at) s.personas)

id_or_refused : RpcCode → Option ℕ → (ℕ → World → World × Answer) → World → World × Answer
id_or_refused code none call w = (w, refused code)
id_or_refused code (some id) call w = call id w

-- resolvePersonaID in front of the rest of a method
pub with_persona_id : String → (ℕ → World → World × Answer) → World → World × Answer
unfolding id_or_refused
with_persona_id raw call w =
    if str_eq raw ""
    then id_or_refused internal_error (primary_persona_id w.store) call w
    else id_or_refused invalid_params (parse_id raw) call w

-- id.Parse of a parameter in front of the rest of a method
pub with_id : String → (ℕ → World → World × Answer) → World → World × Answer
unfolding id_or_refused
with_id raw call w = id_or_refused invalid_params (parse_id raw) call w

-- parseParams in front of a method
pub with_params : {A : Type 0} → Option A → (A → World → World × Answer) → World → World × Answer
with_params none call w = (w, refused invalid_params)
with_params (some params) call w = call params w
