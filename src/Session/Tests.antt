-- ===== src/Session/Tests.antt =====
-- Runs on a table of two sessions; a token fits its own number.
use python_fastapi_multiauth.Common.{
  ℕ, refl, ◌≢◌, Bool, true, false, none, some, [], ◌∷◌, ◌==◌, only_row, only_row-IsOneOrNone,
}
use python_fastapi_multiauth.Session.Service.{UserSession, Db, get_session_by_token, revoke_session}
use python_fastapi_multiauth.Session.Revocation.{revoked_never_opens}

abbrev phone : UserSession
phone = record {
  id = 1;
  user_id = 5;
  token_hash = 40;
  device = none;
  is_active = true;
  revoked = false;
  revoked_at = none;
  last_activity = 0;
  expires_at = 900;
}

abbrev laptop : UserSession
laptop = record phone { id = 2; token_hash = 41 }

abbrev sessions : Db
sessions = phone ∷ laptop ∷ []

abbrev verify : ℕ → ℕ → Bool
verify token hashed = token == hashed

abbrev after_revocation : Db
after_revocation =
    record phone { is_active = false; revoked = true; revoked_at = some 2 } ∷ laptop ∷ []

revoked_never_opens_example : laptop.id ≢ 1
unfolding get_session_by_token revoke_session
revoked_never_opens_example =
    revoked_never_opens only_row only_row-IsOneOrNone verify 2 1 3 4 41 sessions after_revocation
      (record laptop { last_activity = 4 }) refl refl
