-- ===== src/Notifications/Reading.antt =====
-- The reading of notifications: `list_unread_for`, `list_recent_for` and `mark_read` of
-- backend/app/services/notifications.py.
pub mod Marked
use gp_portal.Base.{
  ℕ, Bool, true, false, not, ◌&&◌, Option, none, some, List, ◌==◌, is_some, ltb, where_, sort, take,
  find, update_first, if◌then◌else◌,
}
use gp_portal.Domain.{Uuid, DateTime, InAppNotification}
use gp_portal.Store.{Db, M, pure, gets, modify, commit, ◌>>=◌, ◌>>◌}

abbrev pub created_later : InAppNotification → InAppNotification → Bool
created_later m n = not (ltb m.created_at n.created_at)

unfoldable pub list_unread_for : Uuid → Db → List InAppNotification
list_unread_for user_id db =
    sort created_later
      (where_ (λ n. n.user_id == user_id && not (is_some n.read_at)) db.notifications)

-- The limit is 30 unless the caller states another one.
unfoldable pub list_recent_for : Uuid → ℕ → Db → List InAppNotification
list_recent_for user_id limit db =
    take limit (sort created_later (where_ (λ n. n.user_id == user_id) db.notifications))

abbrev pub get_notification : Uuid → Db → Option InAppNotification
get_notification k db = find (λ n. n.id == k) db.notifications

abbrev pub read_now : DateTime → InAppNotification → InAppNotification
read_now now n = record n { read_at = some now }

unfoldable pub store_read : DateTime → Uuid → InAppNotification → M (Option InAppNotification)
store_read now k n = do
  modify λ db. record db {
    notifications = update_first (λ x. x.id == k) (read_now now) db.notifications;
  }
  commit
  pure (some (read_now now n))

abbrev pub mark_found :
    DateTime → Uuid → Uuid → Option InAppNotification → M (Option InAppNotification)
mark_found now k user_id none = pure none
mark_found now k user_id (some n) =
    if n.user_id == user_id
    then (if is_some n.read_at then pure (some n) else store_read now k n)
    else pure none

unfoldable pub mark_read : DateTime → Uuid → Uuid → M (Option InAppNotification)
unfolding store_read
mark_read now notification_id user_id = do
  found ← gets (get_notification notification_id)
  mark_found now notification_id user_id found
