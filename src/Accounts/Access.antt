-- ===== src/Accounts/Access.antt =====
-- What the two steps of a login give, in app/services/auth.py.
use python_fastapi_multiauth.Common.{
  ℕ, ◌≡◌, ◌≢◌, refl, sym, ap, ◌∙◌, ◌⊎◌, inl, inr, Bool, true, none, some, List, [], ◌∷◌,
  if◌then◌else◌, Bool-cases, List-cases, Option-cases, Result, ok, err, Error, ok-injective, ok≢err,
  Result-cases, OneOrNone, IsOneOrNone, only_row, eq-only_row, select, select-holds, save, ==_iff,
  false, arith,
}
use python_fastapi_multiauth.Totp.Service as Totp
use python_fastapi_multiauth.Totp.Service.{Packages, TotpSecret}
use python_fastapi_multiauth.Accounts.Users.{
  User, Db, Settings, has_email, user_is, get_by_id, is_locked,
}
use python_fastapi_multiauth.Accounts.Tokens.{Jwt, mfa, verify_token, create_mfa_token}
use python_fastapi_multiauth.Accounts.Login.{
  Login, refused, challenged, Token, Call, totp_user, may_log_in, complete, fail,
  authenticate_local, check_code, verify_mfa,
}
use python_fastapi_multiauth.Accounts.Admission.{
  Passes, not-refused, HasFactor, entered, admit-outcome,
}
use python_fastapi_multiauth.Accounts.Codes.{CodeFits, right-code, named-decode}

module _ (p : Packages) (jwt : Jwt) (settings : Settings) where
  abbrev codes_answer : Call → User → ℕ → Db → Result (Bool × List TotpSecret)
  codes_answer call user code db =
      Totp.verify_totp_for_user p only_row call.now (totp_user user) code db.totp_secrets

  abbrev with_secrets : List TotpSecret → Db → Db
  with_secrets secrets db = record db { totp_secrets = secrets }

  code-answered :
      (call : Call) (user : User) (code : ℕ) (valid : Bool) (secrets : List TotpSecret) (db : Db)
      → codes_answer call user code db ≡ ok (valid, secrets)
      → let (given, db') = complete p jwt settings call user (with_secrets secrets db) in
        check_code only_row p jwt settings call user code db
        ≡ ok (
            if valid
            then (some given, db')
            else (none, fail p jwt settings call user (with_secrets secrets db)))
  unfolding check_code
  code-answered call user code valid secrets db h = rw h refl

  code-raised :
      (call : Call) (user : User) (code : ℕ) (raised : Error) (db : Db)
      → codes_answer call user code db ≡ err raised
      → check_code only_row p jwt settings call user code db ≡ err raised
  unfolding check_code
  code-raised call user code raised db h = rw h refl

  checked-code :
      (call : Call) (user : User) (code : ℕ) (given : User × Token) (db db' : Db)
      → check_code only_row p jwt settings call user code db ≡ ok (some given, db')
      → (secrets : List TotpSecret) × (codes_answer call user code db ≡ ok (true, secrets))
        × ((given, db') ≡ complete p jwt settings call user (with_secrets secrets db))
  checked-code call user code given db db' e =
      elim (Result-cases (codes_answer call user code db)) [
        | inr (raised, failed) ↦
            absurd (ok≢err (sym e ∙ code-raised call user code raised db failed))
        | inl ((valid, secrets), answered) ↦
            let out = sym e ∙ code-answered call user code valid secrets db answered in
            elim (Bool-cases valid) [
              | inl good ↦ (
                secrets,
                answered ∙ ap (λ b. ok (b, secrets)) good,
                ground (arith, ok-injective out),
              )
              | inr bad ↦ absurd (ground (arith, ok-injective out))
            ]
      ]

  mfa-named :
      (call : Call) (mfa_token code id : ℕ) (user : User) (db : Db)
      → verify_token jwt mfa_token mfa call.now ≡ some id
      → select (user_is id) db.users ≡ user ∷ []
      → verify_mfa only_row p jwt settings call mfa_token code db ≡ (
          if may_log_in call.now user
          then check_code only_row p jwt settings call user code db
          else ok (none, db))
  unfolding verify_mfa get_by_id
  mfa-named call mfa_token code id user db named row = ground arith

  mfa-given :
      (call : Call) (mfa_token code : ℕ) (given : User × Token) (db db' : Db)
      → verify_mfa only_row p jwt settings call mfa_token code db ≡ ok (some given, db')
      → (id : ℕ) × (user : User) × (secrets : List TotpSecret) × (verify_token jwt mfa_token mfa
            call.now
          ≡ some id)
        × (select (user_is id) db.users ≡ user ∷ [])
        × (may_log_in call.now user ≡ true)
        × (codes_answer call user code db ≡ ok (true, secrets))
        × ((given, db') ≡ complete p jwt settings call user (with_secrets secrets db))
  unfolding verify_mfa get_by_id
  mfa-given call mfa_token code given db db' e =
      elim (Option-cases (verify_token jwt mfa_token mfa call.now)) [
        | inl unnamed ↦ absurd (ground arith)
        | inr (id, named) ↦ elim (List-cases (select (user_is id) db.users)) [
          | inl absent ↦ absurd (ground arith)
          | inr (user, rest, found) ↦ elim (List-cases rest) [
            | inr (v, more, several) ↦ absurd (ground arith)
            | inl single ↦
                let row = found ∙ ap (λ l. user ∷ l) single in
                let out = mfa-named call mfa_token code id user db named row in
                elim (Bool-cases (may_log_in call.now user)) [
                  | inr out_locked ↦ absurd (ground (arith, sym e ∙ out, out_locked))
                  | inl may ↦
                      let (secrets, answered, same) =
                        checked-code call user code given db db' (rw may at (sym out ∙ e)) in
                      (id, user, secrets, named, row, may, answered, same)
                ]
          ]
        ]
      ]

module _ (one : OneOrNone) (law : IsOneOrNone one) (p : Packages) (jwt : Jwt)
    (settings : Settings) where
  -- A login with email and password that is not refused is of the user with that email, who is active,
  -- verified, not locked, and whose password it is. If the user has an enabled second factor, it gives
  -- a challenge, no tokens, and changes nothing. Otherwise it gives the tokens, resets the failures
  -- and opens a session with the refresh token's hash.
  pub local_login :
      (normalize : ℕ → ℕ) (call : Call) (email password : ℕ) (login : Login) (db db' : Db)
      → authenticate_local one p jwt settings normalize call email password db ≡ ok (login, db')
      → login ≢ refused
      → (user : User) × (select (has_email (normalize email)) db.users ≡ user ∷ [])
        × Passes p call.now password user
        × ((HasFactor p jwt settings user db
              × (login ≡ challenged user (create_mfa_token jwt call.now user.id))
              × (db' ≡ db))
            ⊎ ((¬ HasFactor p jwt settings user db)
                × (◌≡◌ {A = Login × Db} (login, db') (entered p jwt settings call user db))))
  local_login normalize call email password login db db' = rw (eq-only_row one law) λ e given.
      let (user, row, passed, admitted) =
        not-refused p jwt settings normalize call email password login db db' e given in
      let outcome = admit-outcome p jwt settings call user (login, db') db admitted in
      (
        user,
        row,
        passed,
        elim outcome [
          | inl (factor, same) ↦ inl (factor, ap (λ o. o.0) same, ap (λ o. o.1) same)
          | inr (plain, same) ↦ inr (plain, same)
        ],
      )

  -- If the second step of a login gives tokens, then the challenge decodes at that time to claims of the
  -- type "mfa" that name a user; the user is active, verified and not locked; the user's one enabled
  -- secret confirms the code at that time, or the code fits one of its backup codes; and the step ends as
  -- a login does that resets the failures and opens a session, with the use of the secret stored.
  pub mfa_login :
      (call : Call) (mfa_token code : ℕ) (given : User × Token) (db db' : Db)
      → verify_mfa one p jwt settings call mfa_token code db ≡ ok (some given, db')
      → (user : User) × (s used : TotpSecret) × (jwt.decode mfa_token call.now
          ≡ some (record { sub = some user.id; type_ = some mfa }))
        × (select (user_is user.id) db.users ≡ user ∷ [])
        × (user.is_active ≡ true)
        × (user.is_verified ≡ true)
        × (is_locked call.now user ≡ false)
        × (select (Totp.enabled_for user.id) db.totp_secrets ≡ s ∷ [])
        × CodeFits p call.now code s
        × (used.last_used_at ≡ some call.now)
        × ((given, db')
            ≡ complete p jwt settings call user
                (record db { totp_secrets = save Totp.secret_key used db.totp_secrets }))
  unfolding may_log_in
  mfa_login call mfa_token code given db db' = rw (eq-only_row one law) λ e.
      let (id, user, secrets, named, row, may, answered, same) =
        mfa-given p jwt settings call mfa_token code given db db' e in
      let named_user = named-decode jwt mfa_token call.now id named in
      let same_id : user.id ≡ id =
        (==_iff user.id id).0 (select-holds (user_is id) db.users {q = user} {rest = []} row) in
      let (s, used, enabled, fits, at, stored) =
        right-code p call.now (totp_user user) code db.totp_secrets secrets answered in
      (
        user,
        s,
        used,
        rw same_id named_user,
        rw same_id row,
        ground (arith, may),
        ground (arith, may),
        ground (arith, may),
        enabled,
        fits,
        at,
        same
            ∙ ap
                (λ secrets.
                  complete p jwt settings call user (with_secrets p jwt settings secrets db))
                stored,
      )
