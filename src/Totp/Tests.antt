-- ===== src/Totp/Tests.antt =====
-- Runs with concrete packages: a token is right if it is the secret, a hash is the password.
use python_fastapi_multiauth.Common.{
  ℕ, ◌≡◌, refl, Bool, true, false, none, some, [], ◌∷◌, ◌==◌, ok, err, value_error, only_row,
  only_row-IsOneOrNone,
}
use python_fastapi_multiauth.Totp.Service.{
  TotpSecret, User, Db, Packages, setup_totp, enable_totp, disable_totp, verify_totp_for_user,
  password_fits,
}
use python_fastapi_multiauth.Totp.Enrolment.{enrolment}

abbrev packages : Bool → Packages
packages tracks = record {
  encrypt = λ s. s;
  decrypt = λ s. s;
  totp_verify = λ secret token now. secret == token;
  hash = λ salt password. password;
  verify_password = λ password hashed. password == hashed;
  tracks_in_place = tracks;
}

abbrev user : User
user = record { id = 3; hashed_password = some 77 }

abbrev secret : TotpSecret
secret = record {
  id = 1;
  user_id = 3;
  encrypted_secret = 500;
  backup_codes = 21 ∷ 22 ∷ 23 ∷ [];
  is_enabled = true;
  is_verified = true;
  device_name = none;
  enabled_at = some 0;
  last_used_at = none;
}

enrolment_example :
    let p = packages true in
    (s : TotpSecret) × (db1 : Db) × (s' : TotpSecret) × (db2 : Db) × (db3 : Db) × (setup_totp p
        only_row 9 500
        ((1, 21) ∷ [])
        none
        user
        []
      ≡ ok (s, db1))
    × ((any : ℕ) → verify_totp_for_user p only_row 5 user any db1 ≡ ok (false, db1))
    × ((bad : ℕ)
        → (500 == bad) ≡ false
        → enable_totp p only_row 5 user bad db1 ≡ err (value_error "Invalid TOTP token"))
    × (enable_totp p only_row 5 user 500 db1 ≡ ok (s', db2))
    × ((db' : Db) × (verify_totp_for_user p only_row 6 user 500 db2 ≡ ok (true, db')))
    × (setup_totp p only_row 9 500 ((1, 21) ∷ []) none user db2
        ≡ err (value_error "TOTP already enabled for this user"))
    × (disable_totp p only_row user 77 db2 ≡ ok db3)
    × ((any : ℕ) → verify_totp_for_user p only_row 6 user any db3 ≡ ok (false, db3))
unfolding password_fits
enrolment_example =
    enrolment (packages true) only_row only_row-IsOneOrNone 9 500 5 6 500 77 ((1, 21) ∷ []) none
      user [] (λ x. refl) tt refl refl refl refl refl
