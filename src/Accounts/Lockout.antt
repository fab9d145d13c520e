-- ===== src/Accounts/Lockout.antt =====
-- Guessing a password through app/services/auth.py: the lock of app/services/user.py.
use python_fastapi_multiauth.Common.{
  ℕ, ◌+◌, ◌*◌, ◌≤◌, ◌<◌, ◌≡◌, refl, ◌∙◌, ◌⊎◌, inl, inr, Bool, false, Option, none, some, List, [],
  ◌∷◌, not, ◌&&◌, if◌then◌else◌, Bool-cases, select-holds, Result, ok, ◌>>=◌, OneOrNone,
  IsOneOrNone, only_row, eq-only_row, select, select-save, Distinct, Distinct-save, All, arith,
}
use python_fastapi_multiauth.Totp.Service.{Packages}
use python_fastapi_multiauth.Accounts.Users.{
  User, Db, Settings, microseconds_per_minute, user_key, has_email, save_user, get_by_email,
  verify_password, increment_failed_login, is_locked,
}
use python_fastapi_multiauth.Accounts.Tokens.{Jwt}
use python_fastapi_multiauth.Accounts.Login.{Login, refused, Call, fail, authenticate_local}

-- A login with a password that the account's hash does not fit.
pub record Guess : Type 0 where
  pub call : Call
  pub password : ℕ

abbrev pub lockout : Settings → ℕ
lockout settings = settings.lockout_duration_minutes * microseconds_per_minute

-- The row of the account with an email, and the key of the table.
abbrev pub Row : (email : ℕ) → User → Db → Type 0
Row email u db = (select (has_email email) db.users ≡ u ∷ []) × Distinct user_key db.users

module _ (p : Packages) (jwt : Jwt) (settings : Settings) (normalize : ℕ → ℕ) (email : ℕ) where
  -- The account is one whose password the login compares.
  abbrev compares : Guess → User → Bool
  compares g u = u.is_active && (u.is_verified && not (is_locked g.call.now u))

  -- The account's row after a wrong guess.
  abbrev after_guess : Guess → User → User
  after_guess g u = if compares g u then increment_failed_login settings g.call.now u else u

  guess-refused :
      (g : Guess) (u : User) (db : Db)
      → select (has_email (normalize email)) db.users ≡ u ∷ []
      → verify_password p u g.password ≡ false
      → authenticate_local only_row p jwt settings normalize g.call email g.password db
        ≡ ok (refused, if compares g u then fail p jwt settings g.call u db else db)
  unfolding authenticate_local get_by_email
  guess-refused g u db row wrong = rw row (ground arith)

  increment-same :
      (now : ℕ) (u : User)
      → let u' = increment_failed_login settings now u in
        (u'.id ≡ u.id) × (u'.email ≡ u.email) × (u'.hashed_password ≡ u.hashed_password)
  unfolding increment_failed_login
  increment-same now u = ground arith

  guess-Row :
      (g : Guess) (u : User) (db : Db)
      → Row (normalize email) u db
      → Row
          (normalize email)
          (after_guess g u)
          (if compares g u then fail p jwt settings g.call u db else db)
  unfolding fail save_user
  guess-Row g u db (row, d) = elim (Bool-cases (compares g u)) [
    | inl compared ↦
        let failed = increment_failed_login settings g.call.now u in
        let (same_id, same_email, same_password) = increment-same g.call.now u in
        let holds = select-holds (has_email (normalize email)) db.users {q = u} {rest = []} row in
        rw compared (
          select-save user_key (has_email (normalize email)) u failed db.users d row same_id
              (rw same_email holds),
          Distinct-save user_key failed db.users d,
        )
    | inr spared ↦ rw spared (row, d)
  ]

  -- Locked to a time that is not before `until`.
  abbrev LockedTo : (until : ℕ) → Option ℕ → Type 0
  LockedTo until none = ⊥
  LockedTo until (some t) = until ≤ t

  -- Below the limit, or no more failures than before the guesses, or locked to the end of the window with
  -- at most the limit or one more than before.
  abbrev Bounded : (before until : ℕ) → User → Type 0
  Bounded before until u =
      (u.failed_login_attempts < settings.max_login_attempts)
      ⊎ (u.failed_login_attempts ≤ before)
      ⊎ (LockedTo until u.locked_until
          × ((u.failed_login_attempts ≤ settings.max_login_attempts)
              ⊎ (u.failed_login_attempts ≤ before + 1)))

  guess-Bounded :
      (g : Guess) (u : User) (before start : ℕ)
      → start ≤ g.call.now
      → g.call.now < start + lockout settings
      → Bounded before (start + lockout settings) u
      → Bounded before (start + lockout settings) (after_guess g u)
        × (u.failed_login_attempts ≤ (after_guess g u).failed_login_attempts)
  unfolding increment_failed_login is_locked
  guess-Bounded g u before start lo hi (inl few) = ground arith
  guess-Bounded g u before start lo hi (inr (inl no_more)) = ground arith
  guess-Bounded g u before start lo hi (inr (inr (locked, few))) = ground arith

  wrong-same :
      (u u' : User) (password : ℕ)
      → u'.hashed_password ≡ u.hashed_password
      → verify_password p u password ≡ false
      → verify_password p u' password ≡ false
  unfolding verify_password
  wrong-same u u' password same wrong = rw same wrong

  after_guess-password :
      (g : Guess) (u : User) → (after_guess g u).hashed_password ≡ u.hashed_password
  after_guess-password g u = elim (Bool-cases (compares g u)) [
    | inl compared ↦ rw compared (increment-same g.call.now u).2
    | inr spared ↦ rw spared refl
  ]

module _ (one : OneOrNone) (p : Packages) (jwt : Jwt) (settings : Settings) (normalize : ℕ → ℕ)
    (email : ℕ) where
  -- One login after another, with what they return.
  unfoldable pub log_in_each : List Guess → Db → Result (List Login × Db)
  log_in_each [] db = ok ([], db)
  log_in_each (g ∷ guesses) db = do
    (login, db) ← authenticate_local one p jwt settings normalize g.call email g.password db
    (logins, db) ← log_in_each guesses db
    ok (login ∷ logins, db)

-- A wrong password within the lockout's length of a time.
abbrev pub WrongFrom : Packages → Settings → User → (start : ℕ) → Guess → Type 0
WrongFrom p settings u start g =
    (verify_password p u g.password ≡ false)
    × (start ≤ g.call.now)
    × (g.call.now < start + lockout settings)

module _ (p : Packages) (jwt : Jwt) (settings : Settings) (normalize : ℕ → ℕ) (email : ℕ) where
  guesses-Bounded :
      (guesses : List Guess) (before start : ℕ) (u v : User) (db : Db)
      → Row (normalize email) v db
      → v.hashed_password ≡ u.hashed_password
      → Bounded p jwt settings normalize email before (start + lockout settings) v
      → All (WrongFrom p settings u start) guesses
      → (logins : List Login) × (db' : Db) × (u' : User) × (log_in_each only_row p jwt settings
            normalize email guesses db
          ≡ ok (logins, db'))
        × All (λ l. l ≡ refused) logins
        × Row (normalize email) u' db'
        × (v.failed_login_attempts ≤ u'.failed_login_attempts)
        × Bounded p jwt settings normalize email before (start + lockout settings) u'
  unfolding log_in_each
  guesses-Bounded [] before start u v db row same b wrong =
      ([], db, v, refl, tt, row, omega arith, b)
  guesses-Bounded (g ∷ guesses) before start u v db row same b ((bad, lo, hi), wrong) =
      let w = after_guess p jwt settings normalize email g v in
      let tables =
        if compares p jwt settings normalize email g v
        then fail p jwt settings g.call v db
        else db in
      let (b', more) = guess-Bounded p jwt settings normalize email g v before start lo hi b in
      let this =
        guess-refused p jwt settings normalize email g v db row.0
          (wrong-same p jwt settings normalize email u v g.password same bad) in
      let (logins, db', u', e, all_refused, row', most, b'') =
        guesses-Bounded guesses before start u w tables
          (guess-Row p jwt settings normalize email g v db row)
          (after_guess-password p jwt settings normalize email g v ∙ same) b' wrong in
      (
        refused ∷ logins,
        db',
        u',
        rw (this, e) refl,
        (refl, all_refused),
        row',
        omega (arith, more, most),
        b'',
      )

module _ (one : OneOrNone) (law : IsOneOrNone one) (p : Packages) (jwt : Jwt) where
  -- Whatever wrong passwords are tried on an account within the length of a lockout, every login is
  -- refused, and the account's failures, which count the passwords compared with its hash, stay within
  -- the limit or grow by at most one, which is so if they were at the limit or above it before.
  pub guess_bound :
      (settings : Settings) (normalize : ℕ → ℕ) (email start : ℕ) (guesses : List Guess) (u : User)
      (db : Db)
      → Row (normalize email) u db
      → All (WrongFrom p settings u start) guesses
      → (logins : List Login) × (db' : Db) × (u' : User) × (log_in_each one p jwt settings normalize
            email guesses db
          ≡ ok (logins, db'))
        × All (λ l. l ≡ refused) logins
        × Row (normalize email) u' db'
        × (u.failed_login_attempts ≤ u'.failed_login_attempts)
        × ((u'.failed_login_attempts ≤ settings.max_login_attempts)
            ⊎ ((settings.max_login_attempts ≤ u.failed_login_attempts)
                × (u'.failed_login_attempts ≤ u.failed_login_attempts + 1)))
  guess_bound settings normalize email start guesses u db row wrong =
      let (logins, db', u', e, all_refused, row', more, b) =
        guesses-Bounded p jwt settings normalize email guesses u.failed_login_attempts start u u db
          row refl (inr (inl (omega arith))) wrong in
      (logins, db', u', rw (eq-only_row one law) e, all_refused, row', more, ground (arith, b))
