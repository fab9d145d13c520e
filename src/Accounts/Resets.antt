-- ===== src/Accounts/Resets.antt =====
-- One-time tokens are good for one use.
use python_fastapi_multiauth.Common.{
  ℕ, ◌≡◌, refl, ◌∙◌, Bool, true, false, none, some, List, [], ◌∷◌, ◌==◌, if◌then◌else◌, ok, err,
  http, OneOrNone, IsOneOrNone, only_row, eq-only_row, select, select-holds, select-save, save,
  Distinct, arith,
}
use python_fastapi_multiauth.Totp.Service.{Packages}
use python_fastapi_multiauth.Accounts.Users.{
  User, OneTimeToken, Db, user_key, user_is, get_by_id, save_user, update_password, verify_password,
  verify_email, is_locked,
}
use python_fastapi_multiauth.Accounts.Recovery.{
  is_valid, token_key, mark_used, owner, valid_token, reset_password, verify_email_token,
}

module _ (hash_token : ℕ → ℕ) where
  abbrev with_hash : ℕ → OneTimeToken → Bool
  with_hash token t = t.token_hash == hash_token token

  valid-row :
      (now token : ℕ) (t : OneTimeToken) (rows : List OneTimeToken)
      → select (with_hash token) rows ≡ t ∷ []
      → valid_token only_row hash_token now token rows
        ≡ (if is_valid now t then ok t else err (http "400"))
  unfolding valid_token
  valid-row now token t rows row = ground arith

  -- A token that has been used is refused from then on.
  used-refused :
      (now token : ℕ) (t : OneTimeToken) (rows : List OneTimeToken)
      → Distinct token_key rows
      → select (with_hash token) rows ≡ t ∷ []
      → valid_token only_row hash_token now token (save token_key (mark_used t) rows)
        ≡ err (http "400")
  unfolding is_valid
  used-refused now token t rows d row =
      let holds = select-holds (with_hash token) rows {q = t} {rest = []} row in
      valid-row now token (mark_used t) (save token_key (mark_used t) rows)
        (select-save token_key (with_hash token) t (mark_used t) rows d row refl holds)

  -- A valid token leads to the user it was made for.
  abbrev pub Usable : (now token : ℕ) → OneTimeToken → List OneTimeToken → User → Db → Type 0
  Usable now token t rows user db =
      (select (with_hash token) rows ≡ t ∷ [])
      × Distinct token_key rows
      × (is_valid now t ≡ true)
      × (select (user_is t.user_id) db.users ≡ user ∷ [])
      × Distinct user_key db.users

  valid_runs :
      (now token : ℕ) (t : OneTimeToken) (rows : List OneTimeToken) (user : User) (db : Db)
      → Usable now token t rows user db
      → (valid_token only_row hash_token now token rows ≡ ok t) × (owner only_row t db ≡ ok user)
  unfolding owner get_by_id
  valid_runs now token t rows user db (row, d, valid, found, d') =
      (valid-row now token t rows row ∙ rw valid refl, ground arith)

module _ (hash_token : ℕ → ℕ) (p : Packages) where
  abbrev reset_user : (salt new_password : ℕ) → User → User
  reset_user salt new_password user = record user {
    hashed_password = some (p.hash salt new_password);
    failed_login_attempts = 0;
    locked_until = none;
  }

  abbrev reset_tables : (salt new_password : ℕ) → OneTimeToken → User → Db → Db
  reset_tables salt new_password t user db = record db {
    users = save user_key (reset_user salt new_password user) db.users;
    reset_tokens = save token_key (mark_used t) db.reset_tokens;
  }

  reset-runs :
      (now salt token new_password : ℕ) (t : OneTimeToken) (user : User) (db : Db)
      → valid_token only_row hash_token now token db.reset_tokens ≡ ok t
      → owner only_row t db ≡ ok user
      → reset_password only_row hash_token p now salt token new_password db
        ≡ ok (reset_tables salt new_password t user db)
  unfolding reset_password save_user update_password
  reset-runs now salt token new_password t user db h h' = ground arith

  reset-refused :
      (now salt token new_password : ℕ) (db : Db)
      → valid_token only_row hash_token now token db.reset_tokens ≡ err (http "400")
      → reset_password only_row hash_token p now salt token new_password db ≡ err (http "400")
  unfolding reset_password
  reset-refused now salt token new_password db h = ground arith

  abbrev verified_tables : OneTimeToken → User → Db → Db
  verified_tables t user db = record db {
    users = save user_key (record user { is_verified = true }) db.users;
    verification_tokens = save token_key (mark_used t) db.verification_tokens;
  }

  verify-runs :
      (now token : ℕ) (t : OneTimeToken) (user : User) (db : Db)
      → valid_token only_row hash_token now token db.verification_tokens ≡ ok t
      → owner only_row t db ≡ ok user
      → verify_email_token only_row hash_token now token db ≡ ok (verified_tables t user db)
  unfolding verify_email_token save_user verify_email
  verify-runs now token t user db h h' = ground arith

  verify-refused :
      (now token : ℕ) (db : Db)
      → valid_token only_row hash_token now token db.verification_tokens ≡ err (http "400")
      → verify_email_token only_row hash_token now token db ≡ err (http "400")
  unfolding verify_email_token
  verify-refused now token db h = ground arith

module _ (one : OneOrNone) (law : IsOneOrNone one) (hash_token : ℕ → ℕ) (p : Packages) where
  -- A valid reset token sets the password of the user it was made for, whose account is then unlocked
  -- and without failures; the token is refused from then on. This rests on a password fitting its hash.
  pub reset_once :
      (now salt token new_password later salt' other : ℕ) (t : OneTimeToken) (user : User) (db : Db)
      → ((s x : ℕ) → p.verify_password x (p.hash s x) ≡ true)
      → Usable hash_token now token t db.reset_tokens user db
      → (db' : Db) × (u' : User) × (reset_password one hash_token p now salt token new_password db
          ≡ ok db')
        × (select (user_is t.user_id) db'.users ≡ u' ∷ [])
        × (verify_password p u' new_password ≡ true)
        × (is_locked later u' ≡ false)
        × (u'.failed_login_attempts ≡ 0)
        × (reset_password one hash_token p later salt' token other db' ≡ err (http "400"))
  unfolding verify_password is_locked
  reset_once now salt token new_password later salt' other t user db fits h =
      let (row, d, valid, found, d') = h in
      let (h1, h2) = valid_runs hash_token now token t db.reset_tokens user db h in
      let db' = reset_tables hash_token p salt new_password t user db in
      let u' = reset_user hash_token p salt new_password user in
      let mine = select-holds (user_is t.user_id) db.users {q = user} {rest = []} found in
      (
        db',
        u',
        rw (eq-only_row one law)
            (reset-runs hash_token p now salt token new_password t user db h1 h2),
        select-save user_key (user_is t.user_id) user u' db.users d' found refl mine,
        fits salt new_password,
        refl,
        refl,
        rw (eq-only_row one law) (
            reset-refused hash_token p later salt' token other db'
              (used-refused hash_token later token t db.reset_tokens d row)),
      )

  -- A valid verification token verifies the user it was made for and is refused from then on.
  verification_once :
      (now token later : ℕ) (t : OneTimeToken) (user : User) (db : Db)
      → Usable hash_token now token t db.verification_tokens user db
      → (db' : Db) × (verify_email_token one hash_token now token db ≡ ok db')
        × (select (user_is t.user_id) db'.users ≡ record user { is_verified = true } ∷ [])
        × (verify_email_token one hash_token later token db' ≡ err (http "400"))
  verification_once now token later t user db h =
      let (row, d, valid, found, d') = h in
      let (h1, h2) = valid_runs hash_token now token t db.verification_tokens user db h in
      let db' = verified_tables hash_token p t user db in
      let mine = select-holds (user_is t.user_id) db.users {q = user} {rest = []} found in
      (
        db',
        rw (eq-only_row one law) (verify-runs hash_token p now token t user db h1 h2),
        select-save user_key (user_is t.user_id) user (record user { is_verified = true }) db.users
            d' found refl mine,
        rw (eq-only_row one law) (
            verify-refused hash_token p later token db'
              (used-refused hash_token later token t db.verification_tokens d row)),
      )
