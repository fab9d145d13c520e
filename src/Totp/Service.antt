-- ===== src/Totp/Service.antt =====
-- app/services/totp.py and the columns of app/models/totp.py. Secrets, tokens, codes and hashes are
-- numbers. Drawing the QR code and the provisioning URI, which change no state, are left out.
use python_fastapi_multiauth.Common.{
  ℕ, Bool, true, false, Option, none, some, List, [], ◌∷◌, ◌++◌, if◌then◌else◌, ◌==◌, not, ◌&&◌,
  Result, ok, err, value_error, ◌>>=◌, ◌>>◌, raise_if, OneOrNone, select, delete_where, save,
  has_key,
}

pub record TotpSecret : Type 0 where
  pub id : ℕ
  pub user_id : ℕ
  pub encrypted_secret : ℕ
  pub backup_codes : List ℕ
  pub is_enabled : Bool
  pub is_verified : Bool
  pub device_name : Option ℕ
  pub enabled_at : Option ℕ
  pub last_used_at : Option ℕ

-- What the service reads of a user.
pub record User : Type 0 where
  pub id : ℕ
  pub hashed_password : Option ℕ

abbrev pub Db : Type 0
Db = List TotpSecret

-- The packages and app/core/encryption.py, which the service calls.
pub record Packages : Type 0 where
  pub encrypt : ℕ → ℕ
  pub decrypt : ℕ → ℕ
  -- `pyotp.TOTP(secret).verify(token, valid_window=1)` at a time
  pub totp_verify : (secret token now : ℕ) → Bool
  -- passlib's bcrypt, with the salt that it draws
  pub hash : (salt password : ℕ) → ℕ
  pub verify_password : (password hashed : ℕ) → Bool
  -- Whether the ORM's flush writes an ARRAY attribute that was changed in place.
  pub tracks_in_place : Bool

abbrev pub secret_key : TotpSecret → ℕ
secret_key s = s.id

abbrev pub of_user : ℕ → TotpSecret → Bool
of_user user s = s.user_id == user

abbrev pub enabled_for : ℕ → TotpSecret → Bool
enabled_for user s = s.user_id == user && s.is_enabled

-- `list.remove`: the first element that is equal.
unfoldable pub remove_first : ℕ → List ℕ → List ℕ
remove_first h [] = []
remove_first h (c ∷ codes) = let rest = remove_first h codes in if c == h then codes else c ∷ rest

module _ (p : Packages) where
  -- The loop over the backup codes: the first hash that the token fits.
  unfoldable pub find_code : ℕ → List ℕ → Option ℕ
  find_code token [] = none
  find_code token (h ∷ codes) =
      let rest = find_code token codes in if p.verify_password token h then some h else rest

  -- The array that a flush stores after `backup_codes.remove(...)`.
  unfoldable pub flushed_codes : ℕ → List ℕ → List ℕ
  unfolding remove_first
  flushed_codes h codes = if p.tracks_in_place then remove_first h codes else codes

  -- `UserService.verify_password`
  unfoldable pub password_fits : User → ℕ → Bool
  password_fits user password = elim user.hashed_password [
    | none ↦ false
    | some hashed ↦ p.verify_password password hashed
  ]

  -- `[get_password_hash(code) for code in backup_codes]`, each code with its salt
  unfoldable pub hash_codes : List (ℕ × ℕ) → List ℕ
  hash_codes [] = []
  hash_codes ((salt, code) ∷ codes) = p.hash salt code ∷ hash_codes codes

  module _ (one : OneOrNone) where
    unfoldable pub get_totp_secret : ℕ → Db → Result (Option TotpSecret)
    get_totp_secret user db = one TotpSecret (select (of_user user) db)

    unfoldable pub setup_totp :
        ℕ → ℕ → List (ℕ × ℕ) → Option ℕ → User → Db → Result (TotpSecret × Db)
    unfolding hash_codes
    setup_totp new_id secret codes device user db = do
      existing ← one TotpSecret (select (of_user user.id) db)
      raise_if (elim existing [ none ↦ false | some s ↦ s.is_enabled ])
          (value_error "TOTP already enabled for this user")
      ok (elim existing [
        | some s ↦
            let renewed = record s {
              encrypted_secret = p.encrypt secret;
              backup_codes = hash_codes codes;
              device_name = device;
              is_enabled = false;
              is_verified = false;
            } in
            (renewed, save secret_key renewed db)
        | none ↦
            let created : TotpSecret = record {
              id = new_id;
              user_id = user.id;
              encrypted_secret = p.encrypt secret;
              backup_codes = hash_codes codes;
              is_enabled = false;
              is_verified = false;
              device_name = device;
              enabled_at = none;
              last_used_at = none;
            } in
            (created, db ++ created ∷ [])
      ])

    unfoldable pub enable_totp : ℕ → User → ℕ → Db → Result (TotpSecret × Db)
    enable_totp now user token db = do
      found ← one TotpSecret (select (of_user user.id) db)
      elim found [
        | none ↦ err (value_error "TOTP not set up for this user")
        | some s ↦ do
          raise_if s.is_enabled (value_error "TOTP already enabled")
          raise_if (not (p.totp_verify (p.decrypt s.encrypted_secret) token now))
              (value_error "Invalid TOTP token")
          let enabled = record s { is_enabled = true; is_verified = true; enabled_at = some now }
          ok (enabled, save secret_key enabled db)
      ]

    unfoldable pub disable_totp : User → ℕ → Db → Result Db
    unfolding password_fits
    disable_totp user password db = do
      raise_if (not (password_fits user password)) (value_error "Invalid password")
      found ← one TotpSecret (select (of_user user.id) db)
      elim found [
        | none ↦ err (value_error "TOTP not enabled for this user")
        | some s ↦
            if s.is_enabled
            then ok (delete_where (has_key secret_key s.id) db)
            else err (value_error "TOTP not enabled for this user")
      ]

    unfoldable pub verify_totp_for_user : ℕ → User → ℕ → Db → Result (Bool × Db)
    unfolding find_code flushed_codes
    verify_totp_for_user now user token db = do
      found ← one TotpSecret (select (enabled_for user.id) db)
      ok (elim found [
        | none ↦ (false, db)
        | some s ↦
            let used = record s { last_used_at = some now } in
            if p.totp_verify (p.decrypt s.encrypted_secret) token now
            then (true, save secret_key used db)
            else elim (find_code token s.backup_codes) [
              | none ↦ (false, db)
              | some h ↦
                  let spent = record used { backup_codes = flushed_codes h s.backup_codes } in
                  (true, save secret_key spent db)
            ]
      ])

    unfoldable pub regenerate_backup_codes :
        List (ℕ × ℕ) → User → ℕ → Db → Result (List (ℕ × ℕ) × Db)
    unfolding password_fits hash_codes
    regenerate_backup_codes codes user password db = do
      raise_if (not (password_fits user password)) (value_error "Invalid password")
      found ← one TotpSecret (select (enabled_for user.id) db)
      elim found [
        | none ↦ err (value_error "TOTP not enabled for this user")
        | some s ↦
            let renewed = record s { backup_codes = hash_codes codes } in
            ok (codes, save secret_key renewed db)
      ]
