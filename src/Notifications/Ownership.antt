-- ===== src/Notifications/Ownership.antt =====
-- Whose notifications a user reads and deletes (app/services/notification_service.py).
use python_fastapi_multiauth.Common.{
  ℕ, ◌≡◌, refl, sym, ap, ◌∙◌, ◌≢◌, inl, inr, Bool, true, false, some, List, [], ◌∷◌, ◌==◌, ◌&&◌,
  ◌||◌, not, ok, ok-injective, if◌then◌else◌, Bool-cases, List-cases, OneOrNone, IsOneOrNone,
  only_row, eq-only_row, select, select-holds, save, select-save_other, select-delete_other,
  Distinct, Distinct-save, Distinct-delete, has_key, delete_where, arith,
}
use mathlib.Core.Path.{subst}
use python_fastapi_multiauth.Notifications.Service.{
  Notification, Db, notification_key, owned, count, get_notification_by_id, mark_as_read,
  delete_notification, list_user_notifications, is_read_is_false,
}

-- The calls of a user on single notifications, one after another.
pub data Calls (one : OneOrNone) (user : ℕ) (db : Db) : Db → Type 0 where
  stop : Calls one user db db
  marked :
      (now id : ℕ) (n : Notification) (db1 db2 : Db)
      → Calls one user db db1
      → mark_as_read one now id user db1 ≡ ok (n, db2)
      → Calls one user db db2
  deleted :
      (id : ℕ) (found : Bool) (db1 db2 : Db)
      → Calls one user db db1
      → delete_notification one id user db1 ≡ ok (found, db2)
      → Calls one user db db2

-- The ids are unique, and the rows of another user are what they were.
pub record Kept (other : ℕ) (db db' : Db) : Type 0 where
  pub distinct : Distinct notification_key db'.notifications
  pub same :
      select (λ n. n.user_id == other) db'.notifications
      ≡ select (λ n. n.user_id == other) db.notifications

module _ (user other : ℕ) (apart : other ≢ user) where
  abbrev theirs : Notification → Bool
  theirs n = n.user_id == other

  found-theirs :
      (id : ℕ) (n : Notification) (rows : List Notification)
      → select (owned id user) rows ≡ n ∷ []
      → theirs n ≡ false
  found-theirs id n rows row =
      let mine = select-holds (owned id user) rows {q = n} {rest = []} row in
      ground (arith, mine, apart)

  -- The changed row, or no row, in place of the one found.
  saved-Kept :
      (id : ℕ) (n n' : Notification) (db : Db)
      → Distinct notification_key db.notifications
      → select (owned id user) db.notifications ≡ n ∷ []
      → (n'.id ≡ n.id) × (n'.user_id ≡ n.user_id)
      → Kept other db (record db { notifications = save notification_key n' db.notifications })
  saved-Kept id n n' db d row (same_id, same_user) =
      let not_theirs = found-theirs id n db.notifications row in
      record {
        distinct = Distinct-save notification_key n' db.notifications d;
        same =
            select-save_other notification_key (owned id user) theirs n n' db.notifications d row
              same_id not_theirs (rw same_user not_theirs);
      }

  deleted-Kept :
      (id : ℕ) (n : Notification) (db : Db)
      → Distinct notification_key db.notifications
      → select (owned id user) db.notifications ≡ n ∷ []
      → Kept other db (record db {
        notifications = delete_where (has_key notification_key n.id) db.notifications;
      })
  deleted-Kept id n db d row = record {
    distinct = Distinct-delete notification_key n.id db.notifications d;
    same =
        select-delete_other notification_key (owned id user) theirs n db.notifications d row
          (found-theirs id n db.notifications row);
  }

  mark-found :
      (now id : ℕ) (n : Notification) (db : Db)
      → select (owned id user) db.notifications ≡ n ∷ []
      → let n' = record n { is_read = true; read_at = some now } in
        mark_as_read only_row now id user db ≡ (
          if not n.is_read
          then ok (n', record db { notifications = save notification_key n' db.notifications })
          else ok (n, db))
  unfolding mark_as_read get_notification_by_id
  mark-found now id n db row = rw row refl

  delete-found :
      (id : ℕ) (n : Notification) (db : Db)
      → select (owned id user) db.notifications ≡ n ∷ []
      → delete_notification only_row id user db
        ≡ ok (
          true,
          record db {
            notifications = delete_where (has_key notification_key n.id) db.notifications;
          },
        )
  unfolding delete_notification get_notification_by_id
  delete-found id n db row = rw row refl

  mark-Kept :
      (now id : ℕ) (n : Notification) (db db' : Db)
      → Distinct notification_key db.notifications
      → mark_as_read only_row now id user db ≡ ok (n, db')
      → Kept other db db'
  unfolding mark_as_read get_notification_by_id
  mark-Kept now id n db db' d e = elim (List-cases (select (owned id user) db.notifications)) [
    | inl absent ↦ absurd (ground arith)
    | inr (m, rest, found) ↦ elim (List-cases rest) [
      | inr (k, more, several) ↦ absurd (ground arith)
      | inl single ↦
          let row = found ∙ ap (λ l. m ∷ l) single in
          let out = sym (mark-found now id m db row) ∙ e in
          elim (Bool-cases m.is_read) [
            | inl read ↦
                let same = ap (λ o. o.1) (ok-injective (rw read at out)) in
                subst (λ t. Kept other db t) same (record { distinct = d; same = refl })
            | inr unread ↦
                let same = ap (λ o. o.1) (ok-injective (rw unread at out)) in
                subst (λ t. Kept other db t) same
                  (saved-Kept id m (record m { is_read = true; read_at = some now }) db d row
                    (refl, refl))
          ]
    ]
  ]

  delete-Kept :
      (id : ℕ) (found : Bool) (db db' : Db)
      → Distinct notification_key db.notifications
      → delete_notification only_row id user db ≡ ok (found, db')
      → Kept other db db'
  unfolding delete_notification get_notification_by_id
  delete-Kept id found db db' d e = elim (List-cases (select (owned id user) db.notifications)) [
    | inl absent ↦
        let same : db ≡ db' = ground arith in
        subst (λ t. Kept other db t) same (record { distinct = d; same = refl })
    | inr (m, rest, several) ↦ elim (List-cases rest) [
      | inr (k, more, two) ↦ absurd (ground arith)
      | inl single ↦
          let row = several ∙ ap (λ l. m ∷ l) single in
          let same = ap (λ o. o.1) (ok-injective (sym (delete-found id m db row) ∙ e)) in
          subst (λ t. Kept other db t) same (deleted-Kept id m db d row)
    ]
  ]

  calls-Kept :
      (db db' : Db)
      → Distinct notification_key db.notifications
      → Calls only_row user db db'
      → Kept other db db'
  calls-Kept db db' d stop = record { distinct = d; same = refl }
  calls-Kept db db' d (marked now id n db1 db2 calls e) =
      let before = calls-Kept db db1 d calls in
      let step = mark-Kept now id n db1 db2 before.distinct e in
      record { distinct = step.distinct; same = step.same ∙ before.same }
  calls-Kept db db' d (deleted id found db1 db2 calls e) =
      let before = calls-Kept db db1 d calls in
      let step = delete-Kept id found db1 db2 before.distinct e in
      record { distinct = step.distinct; same = step.same ∙ before.same }

select-listed :
    (other : ℕ) (rows : List Notification)
    → select (λ n. n.user_id == other && (not false || is_read_is_false)) rows
      ≡ select (λ n. n.user_id == other) rows
select-listed other [] = refl
select-listed other (n ∷ rows) = ground (arith, select-listed other rows)

-- If the ids of the notifications are distinct, then after any sequence of a user's calls that mark single
-- notifications as read or delete them, whatever ids the user names, the list of every other user is what
-- it was, and the ids are distinct.
pub others_untouched :
    (one : OneOrNone) (law : IsOneOrNone one) (user other : ℕ) (db db' : Db)
    → other ≢ user
    → Distinct notification_key db.notifications
    → Calls one user db db'
    → (list_user_notifications other false db' ≡ list_user_notifications other false db)
      × Distinct notification_key db'.notifications
unfolding list_user_notifications
others_untouched one law user other db db' apart d = rw (eq-only_row one law) λ calls.
    let kept = calls-Kept user other apart db db' d calls in
    (
      ap (λ rows. (rows, count rows))
          (select-listed other db'.notifications
            ∙ kept.same
            ∙ sym (select-listed other db.notifications)),
      kept.distinct,
    )
