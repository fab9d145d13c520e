-- ===== src/Notifications/Service.antt =====
-- app/services/notification_service.py and app/models/notification.py. Texts and the extra data are
-- numbers, times are microseconds; `users` is the list of the ids of users. Lists are as the table
-- gives them: the order and the page of `list_user_notifications` are left out.
use python_fastapi_multiauth.Common.{
  ℕ, ◌+◌, ◌*◌, Bool, true, false, Option, none, some, List, [], ◌∷◌, ◌++◌, if◌then◌else◌, ◌==◌, ltb,
  ◌&&◌, ◌||◌, not, Result, ok, err, value_error, ◌>>=◌, OneOrNone, select, save, delete_where,
  has_key,
}
use Prim.Native.Nat.{◌-◌}

-- The argument `notification_type`: one of the four valid types, or another text.
pub data NotificationType : Type 0 where
  info success warning error other : NotificationType

pub record Notification : Type 0 where
  pub id : ℕ
  pub user_id : ℕ
  pub type_ : NotificationType
  pub content : ℕ
  pub is_read : Bool
  pub read_at : Option ℕ
  pub created_at : ℕ

pub record Db : Type 0 where
  pub users : List ℕ
  pub notifications : List Notification

-- `Notification.is_read is False` and `Notification.is_read is True` in a WHERE clause: Python's `is`
-- compares the class attribute with the constant, and the clause is the constant False.
abbrev pub is_read_is_false : Bool
is_read_is_false = false

abbrev pub is_read_is_true : Bool
is_read_is_true = false

abbrev pub notification_key : Notification → ℕ
notification_key n = n.id

unfoldable pub is_valid_type : NotificationType → Bool
is_valid_type info = true
is_valid_type success = true
is_valid_type warning = true
is_valid_type error = true
is_valid_type other = false

-- The number of rows of a query.
unfoldable pub count : List Notification → ℕ
count [] = 0
count (n ∷ ns) = count ns + 1

abbrev pub owned : (notification user : ℕ) → Notification → Bool
owned notification user n = n.id == notification && n.user_id == user

module _ (one : OneOrNone) where
  unfoldable pub create_notification :
      (new_id now user : ℕ) → NotificationType → (content : ℕ) → Db → Result (Notification × Db)
  unfolding is_valid_type
  create_notification new_id now user type_ content db = do
    found ← one ℕ (select (λ u. u == user) db.users)
    let n : Notification = record {
      id = new_id;
      user_id = user;
      type_ = type_;
      content = content;
      is_read = false;
      read_at = none;
      created_at = now;
    }
    elim found [
      | none ↦ err (value_error "User not found")
      | some u ↦
          if is_valid_type type_
          then ok (n, record db { notifications = db.notifications ++ n ∷ [] })
          else err (value_error "Invalid notification type. Must be one of: ")
    ]

  -- The services that change a notification always give the user.
  unfoldable pub get_notification_by_id :
      (notification user : ℕ) → Db → Result (Option Notification)
  get_notification_by_id notification user db =
      one Notification (select (owned notification user) db.notifications)

  unfoldable pub mark_as_read : (now notification user : ℕ) → Db → Result (Notification × Db)
  unfolding get_notification_by_id
  mark_as_read now notification user db = do
    found ← get_notification_by_id notification user db
    elim found [
      | none ↦ err (value_error "Notification not found")
      | some n ↦
          let n' = record n { is_read = true; read_at = some now } in
          if not n.is_read
          then ok (n', record db { notifications = save notification_key n' db.notifications })
          else ok (n, db)
    ]

  unfoldable pub delete_notification : (notification user : ℕ) → Db → Result (Bool × Db)
  unfolding get_notification_by_id
  delete_notification notification user db = do
    found ← get_notification_by_id notification user db
    ok (elim found [
      | none ↦ (false, db)
      | some n ↦ (
        true,
        record db { notifications = delete_where (has_key notification_key n.id) db.notifications },
      )
    ])

  -- One user of `broadcast_to_users`: a ValueError skips the user.
  unfoldable pub skip_errors : Result (Notification × Db) → Db → Result (List Notification × Db)
  skip_errors (ok (n, db')) db = ok (n ∷ [], db')
  skip_errors (err (value_error text)) db = ok ([], db)
  skip_errors (err e) db = err e

  unfoldable pub broadcast_to_users :
      (new_id : ℕ → ℕ)
      → (now : ℕ) → List ℕ
      → NotificationType
      → (content : ℕ) → Db
      → Result (List Notification × Db)
  unfolding create_notification skip_errors
  broadcast_to_users new_id now [] type_ content db = ok ([], db)
  broadcast_to_users new_id now (user ∷ users) type_ content db = do
    (made, db) ← skip_errors (create_notification (new_id user) now user type_ content db) db
    (rest, db) ← broadcast_to_users new_id now users type_ content db
    ok (made ++ rest, db)

-- The rows and their number, which `list_user_notifications` returns.
unfoldable pub list_user_notifications :
    (user : ℕ) → (unread_only : Bool) → Db → List Notification × ℕ
unfolding count
list_user_notifications user unread_only db =
    let rows =
      select (λ n. n.user_id == user && (not unread_only || is_read_is_false)) db.notifications in
    (rows, count rows)

-- `is_read = True` for each row of a query, one after another.
unfoldable pub mark_each : (now : ℕ) → List Notification → List Notification → List Notification
mark_each now [] table = table
mark_each now (n ∷ ns) table =
    mark_each now ns (save notification_key (record n { is_read = true; read_at = some now }) table)

unfoldable pub delete_each : List Notification → List Notification → List Notification
delete_each [] table = table
delete_each (n ∷ ns) table = delete_each ns (delete_where (has_key notification_key n.id) table)

unfoldable pub mark_all_as_read : (now user : ℕ) → Db → ℕ × Db
unfolding count mark_each
mark_all_as_read now user db =
    let rows = select (λ n. n.user_id == user && is_read_is_false) db.notifications in
    (count rows, record db { notifications = mark_each now rows db.notifications })

unfoldable pub delete_read_notifications : (user : ℕ) → Db → ℕ × Db
unfolding count delete_each
delete_read_notifications user db =
    let rows = select (λ n. n.user_id == user && is_read_is_true) db.notifications in
    (count rows, record db { notifications = delete_each rows db.notifications })

unfoldable pub get_unread_count : (user : ℕ) → Db → ℕ
unfolding count
get_unread_count user db =
    count (select (λ n. n.user_id == user && is_read_is_false) db.notifications)

unfoldable pub cleanup_old_notifications : (now days_old : ℕ) → Db → ℕ × Db
unfolding count delete_each
cleanup_old_notifications now days_old db =
    let cutoff = now - days_old * 86400000000 in
    let rows = select (λ n. is_read_is_true && ltb n.created_at cutoff) db.notifications in
    (count rows, record db { notifications = delete_each rows db.notifications })
