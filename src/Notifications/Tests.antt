-- ===== src/Notifications/Tests.antt =====
-- Runs of notifications on small tables.
use python_fastapi_multiauth.Common.{
  ◌+◌, ◌≡◌, refl, true, false, none, some, [], ◌∷◌, ok, err, value_error, only_row,
  only_row-IsOneOrNone, Distinct, arith,
}
use python_fastapi_multiauth.Notifications.Service.{
  Notification, notification_key, info, Db, broadcast_to_users, mark_as_read, delete_notification,
  list_user_notifications,
}
use python_fastapi_multiauth.Notifications.Ownership.{
  Calls, stop, marked, deleted, others_untouched,
}

abbrev unread : Notification
unread = record {
  id = 1;
  user_id = 7;
  type_ = info;
  content = 20;
  is_read = false;
  read_at = none;
  created_at = 100;
}

abbrev read : Notification
read = record unread { id = 2; is_read = true; read_at = some 150 }

abbrev db : Db
db = record { users = 7 ∷ 8 ∷ []; notifications = unread ∷ read ∷ [] }

marks :
    mark_as_read only_row 300 1 7 db
    ≡ ok (
      record unread { is_read = true; read_at = some 300 },
      record db {
        notifications = record unread { is_read = true; read_at = some 300 } ∷ read ∷ [];
      },
    )
unfolding mark_as_read
marks = refl

of_another : mark_as_read only_row 300 1 8 db ≡ err (value_error "Notification not found")
unfolding mark_as_read
of_another = refl

deletes : delete_notification only_row 2 7 db ≡ ok (true, record db { notifications = unread ∷ [] })
unfolding delete_notification
deletes = refl

-- User 9 does not exist and is skipped.
broadcasts :
    broadcast_to_users only_row (λ u. u + 30) 400 (9 ∷ 8 ∷ []) info 21 db
    ≡ ok (
      record unread { id = 38; user_id = 8; content = 21; created_at = 400 } ∷ [],
      record db {
        notifications =
            unread
            ∷ read
            ∷ record unread { id = 38; user_id = 8; content = 21; created_at = 400 }
            ∷ [];
      },
    )
unfolding broadcast_to_users
broadcasts = refl

-- User 7 reads the first and deletes the second.
abbrev of_eight : Notification
of_eight = record unread { id = 3; user_id = 8 }

abbrev before : Db
before = record db { notifications = unread ∷ of_eight ∷ read ∷ [] }

abbrev seen : Notification
seen = record unread { is_read = true; read_at = some 300 }

abbrev middle : Db
middle = record db { notifications = seen ∷ of_eight ∷ read ∷ [] }

abbrev after : Db
after = record db { notifications = seen ∷ of_eight ∷ [] }

abbrev two_calls : Calls only_row 7 before after
unfolding mark_as_read delete_notification
two_calls = deleted 2 true middle after (marked 300 1 seen before middle stop refl) refl

others_untouched_example :
    (list_user_notifications 8 false after ≡ list_user_notifications 8 false before)
    × Distinct notification_key after.notifications
others_untouched_example =
    others_untouched only_row only_row-IsOneOrNone 7 8 before after (omega arith)
      (refl, (refl, (refl, tt))) two_calls
