-- ===== src/Store/Interactions.antt =====
-- store/sqlite/favourite.go, reblog.go, notification.go, block.go and remote_actor.go.
pub mod Frames
use murlog.Prelude.{
  ℕ, Bool, true, false, ◌&&◌, ◌||◌, not, ◌==◌, if◌then◌else◌, ltb, Option, none, some, List, [],
  ◌∷◌, String, str_eq,
}
use murlog.Prelude.Tables.{any_row, count_where, find_row, update_where, delete_where}
use murlog.Domain.Social.{
  Interaction, Notification, NotificationType, follow, mention, reblog, favourite, Block,
  DomainBlock, RemoteActor,
}
use murlog.Store.{Store}

abbrev pub same_interaction : ℕ → String → Interaction → Bool
same_interaction post actor r = r.post_id == post && str_eq r.actor_uri actor

-- what the constraints of `favourites` and `reblogs` refuse
abbrev pub refused_interaction : Interaction → List Interaction → Store → Bool
refused_interaction r rows s =
    any_row (λ q. q.id == r.id) rows
    || any_row (same_interaction r.post_id r.actor_uri) rows
    || not (any_row (λ p. p.id == r.post_id) s.posts)

-- CreateFavourite
pub create_favourite : Interaction → Store → Option Store
create_favourite r s =
    if refused_interaction r s.favourites s
    then none
    else some (record s { favourites = r ∷ s.favourites })

-- DeleteFavourite
pub delete_favourite : ℕ → String → Store → Store
delete_favourite post actor s = record s {
  favourites = delete_where (same_interaction post actor) s.favourites;
}

-- HasFavourited
pub has_favourited : ℕ → String → Store → Bool
has_favourited post actor s = any_row (same_interaction post actor) s.favourites

-- CreateReblog
pub create_reblog : Interaction → Store → Option Store
create_reblog r s =
    if refused_interaction r s.reblogs s then none else some (record s { reblogs = r ∷ s.reblogs })

-- DeleteReblog
pub delete_reblog : ℕ → String → Store → Store
delete_reblog post actor s = record s {
  reblogs = delete_where (same_interaction post actor) s.reblogs;
}

-- HasReblogged
pub has_reblogged : ℕ → String → Store → Bool
has_reblogged post actor s = any_row (same_interaction post actor) s.reblogs

abbrev pub same_kind : NotificationType → NotificationType → Bool
same_kind follow follow = true
same_kind mention mention = true
same_kind reblog reblog = true
same_kind favourite favourite = true
same_kind _ _ = false

-- CreateNotification
pub create_notification : Notification → Store → Option Store
create_notification n s =
    if any_row (λ m. m.id == n.id) s.notifications
      || not (any_row (λ p. p.id == n.persona_id) s.personas)
    then none
    else some (record s { notifications = n ∷ s.notifications })

-- DeleteNotificationByActor; a post_id of 0 is NULL
pub delete_notification_by_actor : ℕ → String → NotificationType → ℕ → Store → Store
delete_notification_by_actor persona actor kind post s = record s {
  notifications =
      delete_where
        (λ n.
          n.persona_id == persona
          && (str_eq n.actor_uri actor && (same_kind n.kind kind && n.post_id == post)))
        s.notifications;
}

-- CountUnreadNotifications
pub count_unread : ℕ → Store → ℕ
count_unread persona s = count_where (λ n. n.persona_id == persona && not n.read) s.notifications

-- MarkNotificationRead
pub mark_notification_read : ℕ → Store → Store
mark_notification_read id s = record s {
  notifications = update_where (λ n. n.id == id) (λ n. record n { read = true }) s.notifications;
}

-- MarkAllNotificationsRead
pub mark_all_read : ℕ → Store → Store
mark_all_read persona s = record s {
  notifications =
      update_where (λ n. n.persona_id == persona && not n.read) (λ n. record n { read = true })
        s.notifications;
}

-- DeleteNotification
pub delete_notification : ℕ → Store → Store
delete_notification id s = record s {
  notifications = delete_where (λ n. n.id == id) s.notifications;
}

-- CleanupNotifications
pub cleanup_notifications : ℕ → Store → Store
cleanup_notifications older_than s = record s {
  notifications = delete_where (λ n. n.read && ltb n.created_at older_than) s.notifications;
}

-- IsBlocked; `hostname` is url.Parse and Hostname, with none for an error
pub is_blocked : (String → Option String) → String → Store → Bool
is_blocked hostname actor s =
    any_row (λ b. str_eq b.actor_uri actor) s.blocks || elim (hostname actor) [
      | none ↦ false
      | some domain ↦
          not (str_eq domain "") && any_row (λ b. str_eq b.domain domain) s.domain_blocks
    ]

-- CreateBlock
pub create_block : Block → Store → Option Store
create_block b s =
    if any_row (λ c. c.id == b.id || str_eq c.actor_uri b.actor_uri) s.blocks
    then none
    else some (record s { blocks = b ∷ s.blocks })

-- DeleteBlock
pub delete_block : String → Store → Store
delete_block actor s = record s { blocks = delete_where (λ b. str_eq b.actor_uri actor) s.blocks }

-- CreateDomainBlock
pub create_domain_block : DomainBlock → Store → Option Store
create_domain_block b s =
    if any_row (λ c. c.id == b.id || str_eq c.domain b.domain) s.domain_blocks
    then none
    else some (record s { domain_blocks = b ∷ s.domain_blocks })

-- DeleteDomainBlock
pub delete_domain_block : String → Store → Store
delete_domain_block domain s = record s {
  domain_blocks = delete_where (λ b. str_eq b.domain domain) s.domain_blocks;
}

-- GetRemoteActor
pub get_remote_actor : String → Store → Option RemoteActor
get_remote_actor uri s = find_row (λ a. str_eq a.uri uri) s.remote_actors

upsert : RemoteActor → List RemoteActor → List RemoteActor
upsert a [] = a ∷ []
upsert a (b ∷ rows) = let rest = upsert a rows in if str_eq b.uri a.uri then a ∷ rows else b ∷ rest

-- UpsertRemoteActor
pub upsert_remote_actor : RemoteActor → Store → Store
unfolding upsert
upsert_remote_actor a s = record s { remote_actors = upsert a s.remote_actors }
