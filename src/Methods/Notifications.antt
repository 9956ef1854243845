-- ===== src/Methods/Notifications.antt =====
-- handler/api_mur_notifications.go: notifications.read, notifications.read_all and
-- notifications.delete.
pub mod Kept
use murlog.Prelude.{ℕ, Option, String}
use murlog.Store.Interactions.{mark_notification_read, mark_all_read, delete_notification}
use murlog.Worker.{World}
use murlog.Inbox.{with_store}
use murlog.Methods.{Answer, ok, with_id, with_params, with_persona_id}

-- rpcNotificationsRead
pub notifications_read : Option String → World → World × Answer
notifications_read params =
    with_params params (λ raw. with_id raw (λ id w. (with_store (mark_notification_read id) w, ok)))

-- rpcNotificationsReadAll
pub notifications_read_all : Option String → World → World × Answer
notifications_read_all params =
    with_params params
      (λ raw. with_persona_id raw (λ persona w. (with_store (mark_all_read persona) w, ok)))

-- rpcNotificationsDelete
pub notifications_delete : Option String → World → World × Answer
notifications_delete params =
    with_params params (λ raw. with_id raw (λ id w. (with_store (delete_notification id) w, ok)))
