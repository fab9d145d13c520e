-- ===== src/Accounts/Admission.antt =====
-- The first step of a login, `authenticate_local` in app/services/auth.py: who is admitted, and how.
use python_fastapi_multiauth.Common.{
  ℕ, ◌≡◌, ◌≢◌, refl, sym, ap, ◌∙◌, ◌⊎◌, inl, inr, Bool, true, false, List, [], ◌∷◌, ◌&&◌, not,
  if◌then◌else◌, Bool-cases, List-cases, ok, err, multiple_results, ok-injective, ok≢err, only_row,
  select, arith,
}
use mathlib.Core.List.{nil≢cons}
use python_fastapi_multiauth.Totp.Service as Totp
use python_fastapi_multiauth.Totp.Service.{Packages, TotpSecret}
use python_fastapi_multiauth.Accounts.Users.{
  User, Db, Settings, has_email, get_by_email, verify_password, is_locked,
}
use python_fastapi_multiauth.Accounts.Tokens.{Jwt, create_mfa_token}
use python_fastapi_multiauth.Accounts.Login.{
  Login, refused, challenged, logged_in, Call, needs_mfa, complete, fail, admit, authenticate_local,
}

-- The user is the row found, may log in, and the password fits.
pub record Passes (p : Packages) (now password : ℕ) (user : User) : Type 0 where
  pub active : user.is_active ≡ true
  pub verified : user.is_verified ≡ true
  pub unlocked : is_locked now user ≡ false
  pub password_right : verify_password p user password ≡ true

module _ (p : Packages) (jwt : Jwt) (settings : Settings) where
  abbrev passes : Call → (password : ℕ) → User → Bool
  passes call password user =
      user.is_active
      && (user.is_verified && (not (is_locked call.now user) && verify_password p user password))

  passes-Passes :
      (call : Call) (password : ℕ) (user : User)
      → passes call password user ≡ true
      → Passes p call.now password user
  passes-Passes call password user h = ground arith

  found-admits :
      (normalize : ℕ → ℕ) (call : Call) (email password : ℕ) (user : User) (db : Db)
      → select (has_email (normalize email)) db.users ≡ user ∷ []
      → passes call password user ≡ true
      → authenticate_local only_row p jwt settings normalize call email password db
        ≡ admit only_row p jwt settings call user db
  unfolding authenticate_local get_by_email
  found-admits normalize call email password user db row h = rw row (ground arith)

  found-refuses :
      (normalize : ℕ → ℕ) (call : Call) (email password : ℕ) (user : User) (db : Db)
      → select (has_email (normalize email)) db.users ≡ user ∷ []
      → passes call password user ≡ false
      → (db' : Db) × (authenticate_local only_row p jwt settings normalize call email password db
          ≡ ok (refused, db'))
  unfolding authenticate_local get_by_email
  found-refuses normalize call email password user db row h = (
    if user.is_active && (user.is_verified && not (is_locked call.now user))
        then fail p jwt settings call user db
        else db,
    rw row (ground arith),
  )

  missing-refuses :
      (normalize : ℕ → ℕ) (call : Call) (email password : ℕ) (db : Db)
      → select (has_email (normalize email)) db.users ≡ []
      → authenticate_local only_row p jwt settings normalize call email password db
        ≡ ok (refused, db)
  unfolding authenticate_local get_by_email
  missing-refuses normalize call email password db row = rw row refl

  several-raise :
      (normalize : ℕ → ℕ) (call : Call) (email password : ℕ) (u v : User) (rest : List User)
      (db : Db) (login : Login) (db' : Db)
      → select (has_email (normalize email)) db.users ≡ u ∷ v ∷ rest
      → authenticate_local only_row p jwt settings normalize call email password db
        ≢ ok (login, db')
  unfolding authenticate_local get_by_email
  several-raise normalize call email password u v rest db login db' row = rw row (λ e. ground arith)

  -- A login that is not refused is of a user who passes, and comes from `admit`.
  pub not-refused :
      (normalize : ℕ → ℕ) (call : Call) (email password : ℕ) (login : Login) (db db' : Db)
      → authenticate_local only_row p jwt settings normalize call email password db
        ≡ ok (login, db')
      → login ≢ refused
      → (user : User) × (select (has_email (normalize email)) db.users ≡ user ∷ [])
        × Passes p call.now password user
        × (admit only_row p jwt settings call user db ≡ ok (login, db'))
  not-refused normalize call email password login db db' e given =
      elim (List-cases (select (has_email (normalize email)) db.users)) [
        | inl absent ↦
            let out = missing-refuses normalize call email password db absent in
            absurd (ground (arith, given))
        | inr (user, rest, found) ↦ elim (List-cases rest) [
          | inr (v, more, several) ↦ absurd (
              several-raise normalize call email password user v more db login db'
                (found ∙ ap (λ l. user ∷ l) several) e)
          | inl single ↦
              let row = found ∙ ap (λ l. user ∷ l) single in
              elim (Bool-cases (passes call password user)) [
                | inl h ↦ (
                  user,
                  row,
                  passes-Passes call password user h,
                  sym (found-admits normalize call email password user db row h) ∙ e,
                )
                | inr h ↦
                    let (t, out) = found-refuses normalize call email password user db row h in
                    absurd (ground (arith, given))
              ]
        ]
      ]

  -- A secret of the user that is enabled.
  abbrev pub HasFactor : User → Db → Type 0
  HasFactor user db =
      (s : TotpSecret) × (select (Totp.of_user user.id) db.totp_secrets ≡ s ∷ [])
      × (s.is_enabled ≡ true)

  -- What a login without a second factor leaves.
  abbrev pub entered : Call → User → Db → Login × Db
  entered call user db =
      let ((user', token), db') = complete p jwt settings call user db in
      (logged_in user' token, db')

  admit-absent :
      (call : Call) (user : User) (db : Db)
      → select (Totp.of_user user.id) db.totp_secrets ≡ []
      → admit only_row p jwt settings call user db ≡ ok (entered call user db)
  unfolding admit Totp.get_totp_secret needs_mfa
  admit-absent call user db row = rw row refl

  admit-off :
      (call : Call) (user : User) (s : TotpSecret) (db : Db)
      → select (Totp.of_user user.id) db.totp_secrets ≡ s ∷ []
      → s.is_enabled ≡ false
      → admit only_row p jwt settings call user db ≡ ok (entered call user db)
  unfolding admit Totp.get_totp_secret needs_mfa
  admit-off call user s db row off = rw (row, off) refl

  admit-on :
      (call : Call) (user : User) (s : TotpSecret) (db : Db)
      → select (Totp.of_user user.id) db.totp_secrets ≡ s ∷ []
      → s.is_enabled ≡ true
      → admit only_row p jwt settings call user db
        ≡ ok (challenged user (create_mfa_token jwt call.now user.id), db)
  unfolding admit Totp.get_totp_secret needs_mfa
  admit-on call user s db row on = rw (row, on) refl

  admit-several :
      (call : Call) (user : User) (s t : TotpSecret) (rest : List TotpSecret) (db : Db)
      → select (Totp.of_user user.id) db.totp_secrets ≡ s ∷ t ∷ rest
      → admit only_row p jwt settings call user db ≡ err multiple_results
  unfolding admit Totp.get_totp_secret
  admit-several call user s t rest db row = rw row refl

  -- With a factor a challenge and nothing else; without one the tokens.
  pub admit-outcome :
      (call : Call) (user : User) (out : Login × Db) (db : Db)
      → admit only_row p jwt settings call user db ≡ ok out
      → (HasFactor user db × (out ≡ (challenged user (create_mfa_token jwt call.now user.id), db)))
        ⊎ ((¬ HasFactor user db) × (out ≡ entered call user db))
  admit-outcome call user out db e =
      elim (List-cases (select (Totp.of_user user.id) db.totp_secrets)) [
        | inl absent ↦ inr (
          λ factor. nil≢cons (sym absent ∙ factor.1),
          ok-injective (sym e ∙ admit-absent call user db absent),
        )
        | inr (s, rest, found) ↦ elim (List-cases rest) [
          | inr (v, more, several) ↦
              let raises = admit-several call user s v more db (found ∙ ap (λ l. s ∷ l) several) in
              absurd (ok≢err (sym e ∙ raises))
          | inl single ↦
              let row = found ∙ ap (λ l. s ∷ l) single in
              elim (Bool-cases s.is_enabled) [
                | inl on ↦ inl ((s, row, on), ok-injective (sym e ∙ admit-on call user s db row on))
                | inr off ↦ inr (
                  λ factor.
                      let same : s ≡ factor.0 = ground (arith, row, factor.1) in
                      ground (arith, factor.2),
                  ok-injective (sym e ∙ admit-off call user s db row off),
                )
              ]
        ]
      ]
