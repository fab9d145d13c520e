-- ===== src/Totp/BackupCodes.antt =====
-- How often a backup code is good for a login.
use python_fastapi_multiauth.Common.{
  ℕ, ◌≡◌, refl, ◌∙◌, true, false, none, some, List, [], ◌∷◌, ◌++◌, arith, ==_iff, ok, OneOrNone,
  IsOneOrNone, only_row, eq-only_row, select, select-save, select-holds, Distinct, All, save,
}
use python_fastapi_multiauth.Totp.Service.{
  TotpSecret, User, Db, Packages, secret_key, enabled_for, remove_first, find_code, flushed_codes,
  verify_totp_for_user,
}

module _ (p : Packages) where
  -- The token fits none of the hashes.
  abbrev pub FitsNone : ℕ → List ℕ → Type 0
  FitsNone token codes = All (λ h. p.verify_password token h ≡ false) codes

  find_code-none :
      (token : ℕ) (codes : List ℕ) → FitsNone token codes → find_code p token codes ≡ none
  unfolding find_code
  find_code-none token [] h = refl
  find_code-none token (c ∷ codes) h = ground (arith, find_code-none token codes h.1)

  find_code-some :
      (token h : ℕ) (pre post : List ℕ)
      → FitsNone token pre
      → p.verify_password token h ≡ true
      → find_code p token (pre ++ h ∷ post) ≡ some h
  unfolding find_code
  find_code-some token h [] post f t = ground arith
  find_code-some token h (c ∷ pre) post f t = ground (arith, find_code-some token h pre post f.1 t)

  remove_first-fits :
      (token h : ℕ) (pre post : List ℕ)
      → FitsNone token pre
      → p.verify_password token h ≡ true
      → remove_first h (pre ++ h ∷ post) ≡ pre ++ post
  unfolding remove_first
  remove_first-fits token h [] post f t = ground (arith, ==_iff h h)
  remove_first-fits token h (c ∷ pre) post f t =
      ground (arith, remove_first-fits token h pre post f.1 t, ==_iff c h)

  FitsNone-append :
      (token : ℕ) (xs ys : List ℕ)
      → FitsNone token xs
      → FitsNone token ys
      → FitsNone token (xs ++ ys)
  FitsNone-append token [] ys f g = g
  FitsNone-append token (x ∷ xs) ys f g = (f.0, FitsNone-append token xs ys f.1 g)

  -- A login with a token that is no TOTP token but fits the hash `h`.
  code_login :
      (now token h : ℕ) (pre post : List ℕ) (user : User) (s : TotpSecret) (db : Db)
      → select (enabled_for user.id) db ≡ s ∷ []
      → s.backup_codes ≡ pre ++ h ∷ post
      → FitsNone token pre
      → p.verify_password token h ≡ true
      → p.totp_verify (p.decrypt s.encrypted_secret) token now ≡ false
      → let stored = flushed_codes p h s.backup_codes in
        verify_totp_for_user p only_row now user token db
        ≡ ok
            (true, save secret_key (record s { backup_codes = stored; last_used_at = some now }) db)
  unfolding verify_totp_for_user
  code_login now token h pre post user s db row codes f t wrong =
      ground (arith, find_code-some token h pre post f t)

  -- The user's enabled secret after a change that keeps it his and enabled.
  saved-row :
      (user : User) (s s' : TotpSecret) (db : Db)
      → Distinct secret_key db
      → select (enabled_for user.id) db ≡ s ∷ []
      → s'.id ≡ s.id
      → s'.user_id ≡ s.user_id
      → s'.is_enabled ≡ s.is_enabled
      → select (enabled_for user.id) (save secret_key s' db) ≡ s' ∷ []
  saved-row user s s' db d row i u e =
      select-save secret_key (enabled_for user.id) s s' db d row i
        (ground (arith, select-holds (enabled_for user.id) db {q = s} {rest = []} row))

  no_login :
      (now token : ℕ) (user : User) (s : TotpSecret) (db : Db)
      → select (enabled_for user.id) db ≡ s ∷ []
      → FitsNone token s.backup_codes
      → p.totp_verify (p.decrypt s.encrypted_secret) token now ≡ false
      → verify_totp_for_user p only_row now user token db ≡ ok (false, db)
  unfolding verify_totp_for_user
  no_login now token user s db row f wrong = ground (arith, find_code-none token s.backup_codes f)

  flushed-tracked :
      (token h : ℕ) (pre post : List ℕ)
      → p.tracks_in_place ≡ true
      → FitsNone token pre
      → p.verify_password token h ≡ true
      → flushed_codes p h (pre ++ h ∷ post) ≡ pre ++ post
  unfolding flushed_codes
  flushed-tracked token h pre post tracked f t = rw tracked (remove_first-fits token h pre post f t)

  flushed-untracked :
      (h : ℕ) (codes : List ℕ) → p.tracks_in_place ≡ false → flushed_codes p h codes ≡ codes
  unfolding flushed_codes
  flushed-untracked h codes untracked = rw untracked refl

  module _ (one : OneOrNone) (law : IsOneOrNone one) where
    -- If the ORM's flush writes arrays that were changed in place, a backup code that fits one
    -- stored hash is good for one login: that login removes the hash and keeps the others, and a
    -- later login with the same code, when it is no TOTP token either, is refused.
    code_spent :
        (now later token h : ℕ) (pre post : List ℕ) (user : User) (s : TotpSecret) (db : Db)
        → p.tracks_in_place ≡ true
        → Distinct secret_key db
        → select (enabled_for user.id) db ≡ s ∷ []
        → s.backup_codes ≡ pre ++ h ∷ post
        → FitsNone token pre
        → p.verify_password token h ≡ true
        → FitsNone token post
        → p.totp_verify (p.decrypt s.encrypted_secret) token now ≡ false
        → p.totp_verify (p.decrypt s.encrypted_secret) token later ≡ false
        → (db' : Db) × (s' : TotpSecret) × (verify_totp_for_user p one now user token db
            ≡ ok (true, db'))
          × (select (enabled_for user.id) db' ≡ s' ∷ [])
          × (s'.backup_codes ≡ pre ++ post)
          × (verify_totp_for_user p one later user token db' ≡ ok (false, db'))
    code_spent now later token h pre post user s db tracked d row codes f t g wrong wrong' =
        let stored = flushed_codes p h s.backup_codes in
        let s' = record s { backup_codes = stored; last_used_at = some now } in
        let left : stored ≡ pre ++ post = rw codes (flushed-tracked token h pre post tracked f t) in
        let row' = saved-row user s s' db d row refl refl refl in
        rw (eq-only_row one law) (
          save secret_key s' db,
          s',
          code_login now token h pre post user s db row codes f t wrong,
          row',
          left,
          no_login later token user s' (save secret_key s' db) row'
              (rw left (FitsNone-append token pre post f g)) wrong',
        )

    -- If the flush does not write them, the same backup code is good for a login again: after a
    -- login with it the stored hashes are the same, and a later login with it succeeds.
    code_reused :
        (now later token h : ℕ) (pre post : List ℕ) (user : User) (s : TotpSecret) (db : Db)
        → p.tracks_in_place ≡ false
        → Distinct secret_key db
        → select (enabled_for user.id) db ≡ s ∷ []
        → s.backup_codes ≡ pre ++ h ∷ post
        → FitsNone token pre
        → p.verify_password token h ≡ true
        → p.totp_verify (p.decrypt s.encrypted_secret) token now ≡ false
        → p.totp_verify (p.decrypt s.encrypted_secret) token later ≡ false
        → (db' : Db) × (s' : TotpSecret) × (db'' : Db) × (verify_totp_for_user p one now user token
              db
            ≡ ok (true, db'))
          × (select (enabled_for user.id) db' ≡ s' ∷ [])
          × (s'.backup_codes ≡ s.backup_codes)
          × (verify_totp_for_user p one later user token db' ≡ ok (true, db''))
    code_reused now later token h pre post user s db untracked d row codes f t wrong wrong' =
        let stored = flushed_codes p h s.backup_codes in
        let s' = record s { backup_codes = stored; last_used_at = some now } in
        let left = flushed-untracked h s.backup_codes untracked in
        let row' = saved-row user s s' db d row refl refl refl in
        rw (eq-only_row one law) (
          save secret_key s' db,
          s',
          _,
          code_login now token h pre post user s db row codes f t wrong,
          row',
          left,
          code_login later token h pre post user s' (save secret_key s' db) row' (left ∙ codes) f t
              wrong',
        )
