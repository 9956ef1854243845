-- ===== src/Methods/Notifications/Kept.antt =====
-- handler/api_mur_notifications.go: the methods keep the invariants of the store.
use murlog.Prelude.{Option, String}
use murlog.Store.Interactions.Frames.{
  mark_notification_read-Same, mark_all_read-Same, delete_notification-Same,
}
use murlog.Methods.Sound.{
  Keeps, Sound-Same, with_params-Keeps, with_id-Keeps, with_persona_id-Keeps,
}
use murlog.Methods.Notifications.{notifications_read, notifications_read_all, notifications_delete}

pub notifications_read-Keeps : (params : Option String) → Keeps (notifications_read params)
unfolding notifications_read
notifications_read-Keeps params = with_params-Keeps params _ (λ raw.
    with_id-Keeps raw _ (λ id w v. Sound-Same w.store _ (mark_notification_read-Same id w.store) v))

pub notifications_read_all-Keeps : (params : Option String) → Keeps (notifications_read_all params)
unfolding notifications_read_all
notifications_read_all-Keeps params = with_params-Keeps params _ (λ raw.
    with_persona_id-Keeps raw _
      (λ persona w v. Sound-Same w.store _ (mark_all_read-Same persona w.store) v))

pub notifications_delete-Keeps : (params : Option String) → Keeps (notifications_delete params)
unfolding notifications_delete
notifications_delete-Keeps params = with_params-Keeps params _ (λ raw.
    with_id-Keeps raw _ (λ id w v. Sound-Same w.store _ (delete_notification-Same id w.store) v))
