-- ===== src/Traffic.antt =====
-- handler/: requests to the inbox and calls of the modelled JSON-RPC methods in any order, each with
-- the site as it is at that time.
mod Tests
use murlog.Prelude.{ℕ, Bool, Option, List, [], ◌∷◌, String}
use murlog.Signature.{Crypto}
use murlog.Worker.{World}
use murlog.Inbox.{Activity, Site}
use murlog.Inbox.Requests.{Delivery, handle_inbox}
use murlog.Inbox.Invariant.{Sound, handle_inbox-Sound}
use murlog.Methods.{Answer}
use murlog.Methods.Follows.{
  FollowParams, ActionParams, follows_create, follows_delete, followers_delete, followers_approve,
  followers_reject,
}
use murlog.Methods.Follows.Kept.{
  follows_create-Keeps, follows_delete-Keeps, followers_delete-Keeps, followers_approve-Keeps,
  followers_reject-Keeps,
}
use murlog.Methods.Blocks.{blocks_create, blocks_delete, domain_blocks_create, domain_blocks_delete}
use murlog.Methods.Blocks.Kept.{
  blocks_create-Keeps, blocks_delete-Keeps, domain_blocks_create-Keeps, domain_blocks_delete-Keeps,
}
use murlog.Methods.Favourites.{InteractionParams, favourites_create, favourites_delete}
use murlog.Methods.Reblogs.{reblogs_create, reblogs_delete}
use murlog.Methods.Reblogs.Kept.{reblogs_create-Keeps, reblogs_delete-Keeps}
use murlog.Methods.Notifications.{notifications_read, notifications_read_all, notifications_delete}
use murlog.Methods.Notifications.Kept.{
  notifications_read-Keeps, notifications_read_all-Keeps, notifications_delete-Keeps,
}
use murlog.Methods.Favourites.Kept.{favourites_create-Keeps, favourites_delete-Keeps}

-- the names that registerRPCMethods gives to these methods, with their parameters
pub data Method : Type 0 where
  create_follow : Option FollowParams → Method
  delete_follow delete_follower : Option String → Method
  approve_follower reject_follower : Option ActionParams → Method
  create_block delete_block create_domain_block delete_domain_block : Option String → Method
  create_favourite delete_favourite create_reblog delete_reblog : Option InteractionParams → Method
  read_notification read_notifications delete_notification : Option String → Method

pub data Event : Type 0 where
  received : Site → ℕ → Delivery → Event
  called : Site → Method → Event

module _ (crypto : Crypto) (decode : String → Option Activity) (like : String → String → Bool) where
  pub call_method : Site → Method → World → World × Answer
  call_method site (create_follow params) = follows_create site params
  call_method site (delete_follow params) = follows_delete site params
  call_method site (delete_follower params) = followers_delete site params
  call_method site (approve_follower params) = followers_approve site params
  call_method site (reject_follower params) = followers_reject site params
  call_method site (create_block params) = blocks_create site params
  call_method site (delete_block params) = blocks_delete site params
  call_method site (create_domain_block params) = domain_blocks_create site like params
  call_method site (delete_domain_block params) = domain_blocks_delete site params
  call_method site (create_favourite params) = favourites_create site params
  call_method site (delete_favourite params) = favourites_delete site params
  call_method site (create_reblog params) = reblogs_create site params
  call_method site (delete_reblog params) = reblogs_delete site params
  call_method site (read_notification params) = notifications_read params
  call_method site (read_notifications params) = notifications_read_all params
  call_method site (delete_notification params) = notifications_delete params

  pub serve : Event → World → World
  unfolding call_method
  serve (received site clock d) w = (handle_inbox site crypto decode clock d w).1
  serve (called site method) w = (call_method site method w).0

  pub serve_all : List Event → World → World
  unfolding serve
  serve_all [] w = w
  serve_all (e ∷ es) w = serve_all es (serve e w)

  call_method-Sound :
      (site : Site) (method : Method) (w : World)
      → Sound w.store
      → Sound (call_method site method w).0.store
  unfolding call_method
  call_method-Sound site (create_follow params) = follows_create-Keeps site params
  call_method-Sound site (delete_follow params) = follows_delete-Keeps site params
  call_method-Sound site (delete_follower params) = followers_delete-Keeps site params
  call_method-Sound site (approve_follower params) = followers_approve-Keeps site params
  call_method-Sound site (reject_follower params) = followers_reject-Keeps site params
  call_method-Sound site (create_block params) = blocks_create-Keeps site params
  call_method-Sound site (delete_block params) = blocks_delete-Keeps site params
  call_method-Sound site (create_domain_block params) = domain_blocks_create-Keeps site like params
  call_method-Sound site (delete_domain_block params) = domain_blocks_delete-Keeps site params
  call_method-Sound site (create_favourite params) = favourites_create-Keeps site params
  call_method-Sound site (delete_favourite params) = favourites_delete-Keeps site params
  call_method-Sound site (create_reblog params) = reblogs_create-Keeps site params
  call_method-Sound site (delete_reblog params) = reblogs_delete-Keeps site params
  call_method-Sound site (read_notification params) = notifications_read-Keeps params
  call_method-Sound site (read_notifications params) = notifications_read_all-Keeps params
  call_method-Sound site (delete_notification params) = notifications_delete-Keeps params

  -- Whatever requests the inbox gets and whichever of these methods are called, in any order, every
  -- persona's cached numbers of followers, follows and posts stay equal to the rows that they count,
  -- and the ids of these tables stay unique.
  pub serve_all-Sound : (es : List Event) (w : World) → Sound w.store → Sound (serve_all es w).store
  unfolding serve_all serve
  serve_all-Sound [] w v = v
  serve_all-Sound (received site clock d ∷ es) w v =
      serve_all-Sound es _ (handle_inbox-Sound site crypto decode clock d w v)
  serve_all-Sound (called site method ∷ es) w v =
      serve_all-Sound es _ (call_method-Sound site method w v)
