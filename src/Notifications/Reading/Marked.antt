-- ===== src/Notifications/Reading/Marked.antt =====
-- The notifications under `mark_read`, backend/app/services/notifications.py.
use gp_portal.Base.{
  ◌≡◌, refl, subst, ◌∙◌, true, Option, none, some, ◌==◌, is_some, find_sound, find-update_first,
}
use gp_portal.Domain.{Uuid, DateTime, InAppNotification}
use gp_portal.Store.{
  Db, ok, Ends, Ends-gets, Ends-if, Ends-modify, Ends-commit, Ends-pure, Ends-ok, start, run,
}
use gp_portal.Notifications.Reading.{get_notification, read_now, store_read, mark_found, mark_read}

-- Of whoever else the notification is, or once it is read, nothing is left to do.
record Marked (k user_id : Uuid) (after : Db) (answer : Option InAppNotification) : Type 0 where
  own : (n : InAppNotification) → answer ≡ some n → (n.user_id == user_id) ≡ true
  stands : (n : InAppNotification) → answer ≡ some n → get_notification k after ≡ some n
  read : (n : InAppNotification) → answer ≡ some n → is_some n.read_at ≡ true

module _ (now : DateTime) (k user_id : Uuid) (db : Db) where
  nothing-Marked : Marked k user_id db none
  nothing-Marked = record { own = λ n e. cc; stands = λ n e. cc; read = λ n e. cc }

  marked :
      (after : Db) (x : InAppNotification)
      → (x.user_id == user_id) ≡ true
      → get_notification k after ≡ some x
      → is_some x.read_at ≡ true
      → Marked k user_id after (some x)
  marked after x own stands read = record {
    own = λ n e. subst (λ y. (y.user_id == user_id) ≡ true) (same e) own;
    stands = λ n e. stands ∙ e;
    read = λ n e. subst (λ (y : InAppNotification). is_some y.read_at ≡ true) (same e) read;
  }
    where
      same : {n : InAppNotification} → some x ≡ some n → x ≡ n
      same e = cc

  mark_found-Ends :
      (o : Option InAppNotification)
      → get_notification k db ≡ o
      → Ends
          (λ _. Unit {0})
          (λ r s. Marked k user_id s.store r)
          (mark_found now k user_id o)
          (start db)
  unfolding store_read
  mark_found-Ends none e = Ends-pure _ _ nothing-Marked
  mark_found-Ends (some n) e =
      Ends-if _ _ _ _
        (λ own.
          Ends-if _ _ _ _ (λ read. Ends-pure _ _ (marked db n own e read))
            (λ unread. Ends-modify _ _ _ (
              Ends-commit _ _ λ _. (
                tt,
                Ends-pure _ _ (
                    marked _ (read_now now n) own
                      (find-update_first (λ x. x.id == k) (read_now now) db.notifications e
                        (find_sound (λ x. x.id == k) db.notifications e))
                      refl),
              ))))
        (λ foreign. Ends-pure _ _ nothing-Marked)

  mark_read-Ends :
      Ends (λ _. Unit {0}) (λ r s. Marked k user_id s.store r) (mark_read now k user_id) (start db)
  unfolding mark_read
  mark_read-Ends = Ends-gets _ _ _ (mark_found-Ends (get_notification k db) refl)

  -- A notification that is answered as marked is the user's own, and stands as read from then on.
  mark_read-Marked :
      (answer : Option InAppNotification)
      → (run (mark_read now k user_id) db).0 ≡ ok answer
      → Marked k user_id (run (mark_read now k user_id) db).1 answer
  mark_read-Marked answer e =
      Ends-ok (λ _. Unit {0}) (λ r s. Marked k user_id s.store r) (mark_read now k user_id) db
        answer mark_read-Ends tt e
