-- ===== src/Quota/Isolation.antt =====
-- Any sequence of counting operations on one organisation's quota.
use python_fastapi_multiauth.Common.{
  ℕ, ◌≡◌, refl, ◌∙◌, Option, List, [], ◌∷◌, ◌>>=◌, arith, Result, ok, OneOrNone, IsOneOrNone,
  only_row, eq-only_row, All,
}
use python_fastapi_multiauth.Common.Int.{ℤ, pos, ◌+ℤ◌, ◌≤ℤ◌}
use python_fastapi_multiauth.Quota.Model.{OrganizationQuota, Db}
use python_fastapi_multiauth.Quota.Service.{
  check_and_reset_monthly_quotas, check_and_reset_daily_quotas, increment_users, decrement_users,
  increment_api_calls, increment_file_uploads, decrement_storage,
}
use python_fastapi_multiauth.Quota.Rows.{
  Holds, Leaves, Isolated, increment_users-Leaves, decrement_users-Leaves,
  increment_api_calls-Leaves, increment_file_uploads-Leaves, decrement_storage-Leaves,
}

-- The counting operations, with the argument that decides what they do.
pub data Operation : Type 0 where
  add_user remove_user call : Operation
  upload remove_file : (file_size : ℤ) → Operation

pub record Step : Type 0 where
  pub operation : Operation
  pub now : ℕ
  pub user_id : Option ℕ
  pub metadata : Option ℕ

unfoldable pub perform : OneOrNone → ℕ → ℕ → Operation → Step → Db → Result Db
perform one new_id org add_user s db = increment_users one new_id s.now org s.user_id s.metadata db
perform one new_id org remove_user s db =
    decrement_users one new_id s.now org s.user_id s.metadata db
perform one new_id org call s db = increment_api_calls one new_id s.now org s.user_id s.metadata db
perform one new_id org (upload n) s db =
    increment_file_uploads one new_id s.now org s.user_id n s.metadata db
perform one new_id org (remove_file n) s db =
    decrement_storage one new_id s.now org n s.user_id s.metadata db

unfoldable pub run : OneOrNone → ℕ → ℕ → List Step → Db → Result Db
unfolding perform
run one new_id org [] db = ok db
run one new_id org (s ∷ steps) db =
    perform one new_id org s.operation s db >>= λ db'. run one new_id org steps db'

pub record NonNegative (q : OrganizationQuota) : Type 0 where
  pub users : pos 0 ≤ℤ q.current_users
  pub storage : pos 0 ≤ℤ q.current_storage_bytes
  pub calls : pos 0 ≤ℤ q.current_api_calls_this_month
  pub uploads : pos 0 ≤ℤ q.current_file_uploads_today

-- A file has no negative size. What is removed may be larger than what is stored.
abbrev pub Sized : Operation → Type 0
Sized (upload n) = pos 0 ≤ℤ n
Sized _ = Unit

monthly-NonNegative :
    (now : ℕ) (q : OrganizationQuota) (db : Db)
    → NonNegative q
    → NonNegative (check_and_reset_monthly_quotas now q db).0
unfolding check_and_reset_monthly_quotas
monthly-NonNegative now q db h = ground arith

daily-NonNegative :
    (now : ℕ) (q : OrganizationQuota) (db : Db)
    → NonNegative q
    → NonNegative (check_and_reset_daily_quotas now q db).0
unfolding check_and_reset_daily_quotas
daily-NonNegative now q db h = ground arith

-- What holds after an operation or a sequence of them.
abbrev pub Safe : ℕ → Db → Result Db → Type 0
Safe org db r =
    (db' : Db) × (r ≡ ok db')
    × Isolated org db db'
    × ((q' : OrganizationQuota) × Holds org q' db' × NonNegative q')

safe :
    (org : ℕ) (db : Db) (q' : OrganizationQuota) (r : Result Db)
    → Leaves org db q' r
    → NonNegative q'
    → Safe org db r
safe org db q' r (db', e, h, others) nonneg = (db', e, others, (q', h, nonneg))

perform-Safe :
    (new_id org : ℕ) (op : Operation) (s : Step) (q : OrganizationQuota) (db : Db)
    → Holds org q db
    → NonNegative q
    → Sized op
    → Safe org db (perform only_row new_id org op s db)
unfolding perform ◌+ℤ◌
perform-Safe new_id org add_user s q db h n z =
    safe org db _ _ (increment_users-Leaves new_id s.now org s.user_id s.metadata q db h)
      (ground arith)
perform-Safe new_id org remove_user s q db h n z =
    safe org db _ _ (decrement_users-Leaves new_id s.now org s.user_id s.metadata q db h)
      (ground arith)
perform-Safe new_id org call s q db h n z =
    let m = monthly-NonNegative s.now q db n in
    safe org db _ _ (increment_api_calls-Leaves new_id s.now org s.user_id s.metadata q db h)
      (ground arith)
perform-Safe new_id org (upload size) s q db h n z =
    let m = daily-NonNegative s.now q db n in
    safe org db _ _
      (increment_file_uploads-Leaves new_id s.now org s.user_id s.metadata q db size h)
      (ground arith)
perform-Safe new_id org (remove_file size) s q db h n z =
    safe org db _ _ (decrement_storage-Leaves new_id s.now org s.user_id s.metadata q db size h)
      (ground arith)

run-Safe :
    (new_id org : ℕ) (steps : List Step) (q : OrganizationQuota) (db : Db)
    → Holds org q db
    → NonNegative q
    → All (λ s. Sized s.operation) steps
    → Safe org db (run only_row new_id org steps db)
unfolding run
run-Safe new_id org [] q db h n z = (db, refl, λ o ne. refl, (q, h, n))
run-Safe new_id org (s ∷ steps) q db h n z =
    let (db1, e1, others1, r1) = perform-Safe new_id org s.operation s q db h n z.0 in
    let (db2, e2, others2, r2) = run-Safe new_id org steps r1.0 db1 r1.1 r1.2 z.1 in
    (db2, rw e1 e2, λ o ne. others2 o ne ∙ others1 o ne, r2)

module _ (one : OneOrNone) (law : IsOneOrNone one) where
  -- From a quota with no negative counter, any sequence of counting operations whose uploads have no
  -- negative size succeeds; no counter of the organisation is negative afterwards, its quota is
  -- still its only one, and the quotas of every other organisation are what they were.
  pub operations-Safe :
      (new_id org : ℕ) (steps : List Step) (q : OrganizationQuota) (db : Db)
      → Holds org q db
      → NonNegative q
      → All (λ s. Sized s.operation) steps
      → Safe org db (run one new_id org steps db)
  operations-Safe new_id org steps q db h n z =
      rw (eq-only_row one law) (run-Safe new_id org steps q db h n z)
