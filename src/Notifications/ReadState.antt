-- ===== src/Notifications/ReadState.antt =====
-- Who reads and deletes notifications (app/services/notification_service.py).
use python_fastapi_multiauth.Common.{
  ℕ, ◌≡◌, refl, true, false, [], ◌==◌, ◌&&◌, select-never, arith, ltb, ap, ◌*◌,
}
use Prim.Native.Nat.{◌-◌}
use python_fastapi_multiauth.Notifications.Service.{
  Notification, Db, mark_all_as_read, delete_read_notifications, get_unread_count,
  cleanup_old_notifications, list_user_notifications, mark_each, delete_each, count,
}

-- Whatever notifications there are and whatever was read: marking all of a user's notifications as read,
-- deleting the read ones and deleting the old ones find none and change nothing, no unread notification
-- is counted, and the list of the unread ones is empty.
bulk_operations_idle :
    (now days_old user : ℕ) (db : Db)
    → (mark_all_as_read now user db ≡ (0, db))
      × (delete_read_notifications user db ≡ (0, db))
      × (cleanup_old_notifications now days_old db ≡ (0, db))
      × (get_unread_count user db ≡ 0)
      × (list_user_notifications user true db ≡ ([], 0))
unfolding mark_all_as_read delete_read_notifications cleanup_old_notifications get_unread_count
    list_user_notifications mark_each delete_each count
bulk_operations_idle now days_old user db =
    let none_of_user =
      select-never (λ (n : Notification). n.user_id == user && false) db.notifications
        (λ n. ground arith) in
    let none_old =
      select-never (λ (n : Notification). false && ltb n.created_at (now - days_old * 86400000000))
        db.notifications (λ n. refl) in
    (
      ap (λ rows. (count rows, record db { notifications = mark_each now rows db.notifications }))
          none_of_user,
      ap (λ rows. (count rows, record db { notifications = delete_each rows db.notifications }))
          none_of_user,
      ap (λ rows. (count rows, record db { notifications = delete_each rows db.notifications }))
          none_old,
      ap count none_of_user,
      ap (λ rows. (rows, count rows)) none_of_user,
    )
