-- ===== src/Totp/Enrolment.antt =====
-- The life of a second factor: set up, enabled, used, disabled.
use python_fastapi_multiauth.Common.{
  ℕ, ◌≡◌, refl, true, false, Option, none, some, List, [], ◌∷◌, ◌++◌, arith, ==_refl, ok, err,
  value_error, OneOrNone, IsOneOrNone, only_row, eq-only_row, select, select-save, select-append,
  Distinct, Distinct-append, save, has_key, delete_where,
}
use python_fastapi_multiauth.Totp.Service.{
  TotpSecret, User, Db, Packages, secret_key, of_user, enabled_for, hash_codes, setup_totp,
  enable_totp, disable_totp, verify_totp_for_user, password_fits,
}

enabled-absent :
    (user : ℕ) (db : Db) → select (of_user user) db ≡ [] → select (enabled_for user) db ≡ []
enabled-absent user [] h = refl
enabled-absent user (x ∷ db) h = ground (arith, enabled-absent user db)

enabled-row :
    (user : ℕ) (s : TotpSecret) (db : Db)
    → select (of_user user) db ≡ s ∷ []
    → s.is_enabled ≡ true
    → select (enabled_for user) db ≡ s ∷ []
enabled-row user s [] h e = ground arith
enabled-row user s (x ∷ db) h e = ground (arith, enabled-row user s db, enabled-absent user db)

disabled-row :
    (user : ℕ) (s : TotpSecret) (db : Db)
    → select (of_user user) db ≡ s ∷ []
    → s.is_enabled ≡ false
    → select (enabled_for user) db ≡ []
disabled-row user s [] h e = ground arith
disabled-row user s (x ∷ db) h e = ground (arith, disabled-row user s db, enabled-absent user db)

deleted-none :
    (user key : ℕ) (db : Db)
    → select (of_user user) db ≡ []
    → select (of_user user) (delete_where (has_key secret_key key) db) ≡ []
deleted-none user key [] e = refl
deleted-none user key (x ∷ db) e = ground (arith, deleted-none user key db)

-- Deleting a user's one secret by its key leaves him none.
deleted-row :
    (user : ℕ) (s : TotpSecret) (db : Db)
    → select (of_user user) db ≡ s ∷ []
    → select (of_user user) (delete_where (has_key secret_key s.id) db) ≡ []
deleted-row user s [] h = ground arith
deleted-row user s (x ∷ db) h = ground (arith, deleted-row user s db, deleted-none user s.id db)

module _ (p : Packages) where
  absent_refused :
      (now token : ℕ) (user : User) (db : Db)
      → select (enabled_for user.id) db ≡ []
      → verify_totp_for_user p only_row now user token db ≡ ok (false, db)
  unfolding verify_totp_for_user
  absent_refused now token user db none_enabled = ground arith

  -- The secret that `setup_totp` creates for a user who has none.
  abbrev new_secret : ℕ → ℕ → List (ℕ × ℕ) → Option ℕ → User → TotpSecret
  new_secret new_id secret codes device user = record {
    id = new_id;
    user_id = user.id;
    encrypted_secret = p.encrypt secret;
    backup_codes = hash_codes p codes;
    is_enabled = false;
    is_verified = false;
    device_name = device;
    enabled_at = none;
    last_used_at = none;
  }

  setup-new :
      (new_id secret : ℕ) (codes : List (ℕ × ℕ)) (device : Option ℕ) (user : User) (db : Db)
      → select (of_user user.id) db ≡ []
      → let s = new_secret new_id secret codes device user in
        setup_totp p only_row new_id secret codes device user db ≡ ok (s, db ++ s ∷ [])
  unfolding setup_totp
  setup-new new_id secret codes device user db absent = ground arith

  abbrev enabled_secret : ℕ → TotpSecret → TotpSecret
  enabled_secret now s = record s { is_enabled = true; is_verified = true; enabled_at = some now }

  enable-row :
      (now token : ℕ) (user : User) (s : TotpSecret) (db : Db)
      → select (of_user user.id) db ≡ s ∷ []
      → s.is_enabled ≡ false
      → (p.totp_verify (p.decrypt s.encrypted_secret) token now ≡ true
          → enable_totp p only_row now user token db
            ≡ ok (enabled_secret now s, save secret_key (enabled_secret now s) db))
        × (p.totp_verify (p.decrypt s.encrypted_secret) token now ≡ false
            → enable_totp p only_row now user token db ≡ err (value_error "Invalid TOTP token"))
  unfolding enable_totp
  enable-row now token user s db row off = (λ fits. ground arith, λ wrong. ground arith)

  setup-enabled :
      (new_id secret : ℕ) (codes : List (ℕ × ℕ)) (device : Option ℕ) (user : User) (s : TotpSecret)
      (db : Db)
      → select (of_user user.id) db ≡ s ∷ []
      → s.is_enabled ≡ true
      → setup_totp p only_row new_id secret codes device user db
        ≡ err (value_error "TOTP already enabled for this user")
  unfolding setup_totp
  setup-enabled new_id secret codes device user s db row on = ground arith

  disable-row :
      (user : User) (password : ℕ) (s : TotpSecret) (db : Db)
      → select (of_user user.id) db ≡ s ∷ []
      → s.is_enabled ≡ true
      → password_fits p user password ≡ true
      → disable_totp p only_row user password db ≡ ok (delete_where (has_key secret_key s.id) db)
  unfolding disable_totp
  disable-row user password s db row on fits = ground arith

  login-token :
      (now token : ℕ) (user : User) (s : TotpSecret) (db : Db)
      → select (enabled_for user.id) db ≡ s ∷ []
      → p.totp_verify (p.decrypt s.encrypted_secret) token now ≡ true
      → verify_totp_for_user p only_row now user token db
        ≡ ok (true, save secret_key (record s { last_used_at = some now }) db)
  unfolding verify_totp_for_user
  login-token now token user s db row fits = ground arith

  module _ (one : OneOrNone) (law : IsOneOrNone one) where
    -- For a user with no second factor: after a set-up no token and no code is accepted as a login,
    -- and a wrong token does not enable it. Once a right token has enabled it, right tokens are
    -- accepted, a second set-up is refused, and disabling it with the right password ends all
    -- logins by it. This rests on decryption undoing encryption.
    pub enrolment :
        (new_id secret now later token password : ℕ) (codes : List (ℕ × ℕ)) (device : Option ℕ)
        (user : User) (db : Db)
        → ((x : ℕ) → p.decrypt (p.encrypt x) ≡ x)
        → Distinct secret_key db
        → select (has_key secret_key new_id) db ≡ []
        → select (of_user user.id) db ≡ []
        → p.totp_verify secret token now ≡ true
        → p.totp_verify secret token later ≡ true
        → password_fits p user password ≡ true
        → (s : TotpSecret) × (db1 : Db) × (s' : TotpSecret) × (db2 : Db) × (db3 : Db) × (setup_totp
              p one new_id secret codes device user db
            ≡ ok (s, db1))
          × ((any : ℕ) → verify_totp_for_user p one now user any db1 ≡ ok (false, db1))
          × ((bad : ℕ)
              → p.totp_verify secret bad now ≡ false
              → enable_totp p one now user bad db1 ≡ err (value_error "Invalid TOTP token"))
          × (enable_totp p one now user token db1 ≡ ok (s', db2))
          × ((db' : Db) × (verify_totp_for_user p one later user token db2 ≡ ok (true, db')))
          × (setup_totp p one new_id secret codes device user db2
              ≡ err (value_error "TOTP already enabled for this user"))
          × (disable_totp p one user password db2 ≡ ok db3)
          × ((any : ℕ) → verify_totp_for_user p one later user any db3 ≡ ok (false, db3))
    enrolment new_id secret now later token password codes device user db inverse d fresh absent
          good good' fits =
        let s = new_secret new_id secret codes device user in
        let s' = enabled_secret now s in
        let db1 = db ++ s ∷ [] in
        let db2 = save secret_key s' db1 in
        let db3 = delete_where (has_key secret_key s.id) db2 in
        let row1 : select (of_user user.id) db1 ≡ s ∷ [] =
          rw (select-append (of_user user.id) db (s ∷ []), absent, ==_refl user.id) refl in
        let off = disabled-row user.id s db1 row1 refl in
        let row2 : select (of_user user.id) db2 ≡ s' ∷ [] =
          select-save secret_key (of_user user.id) s s' db1
            (Distinct-append secret_key s db d fresh) row1 refl (==_refl user.id) in
        let on = enabled-row user.id s' db2 row2 refl in
        let row3 = enabled-absent user.id db3 (deleted-row user.id s' db2 row2) in
        rw (eq-only_row one law) (
          s,
          db1,
          s',
          db2,
          db3,
          setup-new new_id secret codes device user db absent,
          λ any. absent_refused now any user db1 off,
          λ bad wrong. (enable-row now bad user s db1 row1 refl).1 (rw (inverse secret) wrong),
          (enable-row now token user s db1 row1 refl).0 (rw (inverse secret) good),
          (_, login-token later token user s' db2 on (rw (inverse secret) good')),
          setup-enabled new_id secret codes device user s' db2 row2 refl,
          disable-row user password s' db2 row2 refl fits,
          λ any. absent_refused later any user db3 row3,
        )
