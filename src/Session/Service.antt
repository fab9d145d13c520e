-- ===== src/Session/Service.antt =====
-- app/services/session.py and the columns of app/models/session.py that it decides by. The device
-- columns that `parse_user_agent` fills are one number. Tokens and hashes are numbers.
use python_fastapi_multiauth.Common.{
  ℕ, ◌+◌, ◌*◌, Bool, true, false, Option, none, some, List, [], ◌∷◌, ◌++◌, if◌then◌else◌, ◌==◌, ltb,
  not, ◌&&◌, ◌||◌, length, Result, ok, ◌>>=◌, OneOrNone, select, update_where, delete_where, save,
  has_key,
}

pub record UserSession : Type 0 where
  pub id : ℕ
  pub user_id : ℕ
  pub token_hash : ℕ
  pub device : Option ℕ
  pub is_active : Bool
  pub revoked : Bool
  pub revoked_at : Option ℕ
  pub last_activity : ℕ
  pub expires_at : ℕ

abbrev pub Db : Type 0
Db = List UserSession

abbrev pub microseconds_per_day : ℕ
microseconds_per_day = 86400000000

unfoldable pub is_expired : ℕ → UserSession → Bool
is_expired now s = ltb s.expires_at now

unfoldable pub is_valid : ℕ → UserSession → Bool
unfolding is_expired
is_valid now s = s.is_active && (not s.revoked && not (is_expired now s))

abbrev pub session_key : UserSession → ℕ
session_key s = s.id

-- `refresh_days` is settings.REFRESH_TOKEN_EXPIRE_DAYS; `token_hash` is the hash of the refresh token.
unfoldable pub create_session :
    (refresh_days new_id now user token_hash : ℕ) → Option ℕ → Db → UserSession × Db
create_session refresh_days new_id now user token_hash device db =
    let session : UserSession = record {
      id = new_id;
      user_id = user;
      token_hash = token_hash;
      device = device;
      is_active = true;
      revoked = false;
      revoked_at = none;
      last_activity = now;
      expires_at = now + refresh_days * microseconds_per_day;
    } in
    (session, db ++ session ∷ [])

-- The WHERE clause of `get_session_by_token`.
unfoldable pub open_session : UserSession → Bool
open_session s = s.is_active && not s.revoked

-- The loop of `get_session_by_token`: the first session whose hash the token fits.
unfoldable pub first_fit : (ℕ → ℕ → Bool) → ℕ → List UserSession → Option UserSession
first_fit verify token [] = none
first_fit verify token (s ∷ sessions) =
    let rest = first_fit verify token sessions in if verify token s.token_hash then some s else rest

-- `verify` is passlib's `verify_password`; `now` is read for the expiry, `used` for the activity.
unfoldable pub get_session_by_token :
    (ℕ → ℕ → Bool) → (now used token : ℕ) → Db → Option UserSession × Db
unfolding open_session first_fit is_valid
get_session_by_token verify now used token db =
    elim (first_fit verify token (select open_session db)) [
      | none ↦ (none, db)
      | some s ↦
          let touched = record s { last_activity = used } in
          if is_valid now s then (some touched, save session_key touched db) else (none, db)
    ]

-- `session.revoked = True` and the assignments beside it.
unfoldable pub revoke : ℕ → UserSession → UserSession
revoke now s = record s { revoked = true; revoked_at = some now; is_active = false }

unfoldable pub revoke_session : OneOrNone → (now id : ℕ) → Db → Result (Bool × Db)
unfolding revoke
revoke_session one now id db = do
  found ← one UserSession (select (has_key session_key id) db)
  ok (elim found [ none ↦ (false, db) | some s ↦ (true, save session_key (revoke now s) db) ])

-- The WHERE clause of `revoke_all_user_sessions`.
unfoldable pub revocable : Bool → (user : ℕ) → Option ℕ → UserSession → Bool
revocable constant user except_id s =
    s.user_id == user
    && (s.is_active && constant)
    && elim except_id [ none ↦ true | some kept ↦ not (s.id == kept) ]

-- `not UserSession.revoked` is evaluated by Python before the query is built: it is `not` of the
-- truth value of the attribute object that describes the column. `truth` is that value, or the
-- exception that asking for it raises; it cannot depend on a row.
module _ (truth : Result Bool) where
  abbrev pub not_revoked : Result Bool
  not_revoked = truth >>= λ b. ok (not b)

  unfoldable pub get_user_sessions : (now user : ℕ) → Bool → Db → Result (List UserSession)
  unfolding is_expired
  get_user_sessions now user include_expired db =
      let current = do
        constant ← not_revoked
        ok (
            select (λ s. not (is_expired now s))
              (select (λ s. s.user_id == user && (s.is_active && constant)) db))
      in if include_expired then ok (select (λ s. s.user_id == user) db) else current

  unfoldable pub revoke_all_user_sessions : (now user : ℕ) → Option ℕ → Db → Result (ℕ × Db)
  unfolding revoke revocable
  revoke_all_user_sessions now user except_id db = do
    constant ← not_revoked
    let chosen = revocable constant user except_id
    ok (length (select chosen db), update_where chosen (revoke now) db)

-- `UserSession.expires_at < cutoff_expired | (revoked & (revoked_at < cutoff_revoked))`, in which a
-- missing `revoked_at` compares as unknown. `now - timedelta(days=n)` is written with the days on
-- the other side.
unfoldable pub stale : ℕ → UserSession → Bool
stale now s =
    ltb (s.expires_at + 7 * microseconds_per_day) now
    || (s.revoked
        && elim s.revoked_at [ none ↦ false | some at ↦ ltb (at + 30 * microseconds_per_day) now ])

unfoldable pub cleanup_expired_sessions : ℕ → Db → ℕ × Db
unfolding stale
cleanup_expired_sessions now db = (length (select (stale now) db), delete_where (stale now) db)
