-- ===== src/SignIn/Callback.antt =====
-- `oauth_authorize` and `oauth_callback` of app/api/v1/endpoints/auth.py, with the states that they keep in the cache of
-- app/services/cache.py, which is not rolled back.
use python_fastapi_multiauth.Common.{
  ℕ, ◌+◌, ◌*◌, Option, none, some, List, [], ◌∷◌, if◌then◌else◌, ◌==◌, ltb, http, Result, ok, err,
  ◌>>◌, OneOrNone, except_as,
}
use python_fastapi_multiauth.Totp.Service.{Packages}
use python_fastapi_multiauth.Accounts.Users.{User, Settings}
use python_fastapi_multiauth.Accounts.Tokens.{Jwt}
use python_fastapi_multiauth.Accounts.Login.{Token, Call}
use python_fastapi_multiauth.SignIn.Model.{Db}
use python_fastapi_multiauth.SignIn.Providers.{Http, Texts, supported}
use python_fastapi_multiauth.SignIn.OAuth.{authenticate_oauth}

-- An entry `oauth_state:<state>` with the provider, and when Redis drops it.
pub record StateEntry : Type 0 where
  pub state : ℕ
  pub provider : ℕ
  pub expires_at : ℕ

abbrev pub Cache : Type 0
Cache = List StateEntry

-- `cache.get`
unfoldable pub get_state : (now state : ℕ) → Cache → Option ℕ
get_state now state [] = none
get_state now state (e ∷ cache) =
    let rest = get_state now state cache in
    if e.state == state then (if ltb now e.expires_at then some e.provider else none) else rest

-- `cache.delete`
unfoldable pub delete_state : (state : ℕ) → Cache → Cache
delete_state state [] = []
delete_state state (e ∷ cache) =
    let rest = delete_state state cache in if e.state == state then rest else e ∷ rest

-- `cache.set(..., expire=600)`
unfoldable pub set_state : (now state provider : ℕ) → Cache → Cache
unfolding delete_state
set_state now state provider cache =
    record { state = state; provider = provider; expires_at = now + 600 * 1000000 }
    ∷ delete_state state cache

-- Returns the state that the URL carries. The state is stored before the provider is looked at.
unfoldable pub oauth_authorize : (now state provider : ℕ) → Cache → Result ℕ × Cache
unfolding set_state supported
oauth_authorize now state provider cache =
    (except_as (http "400") (supported provider >> ok state), set_state now state provider cache)

-- `if not user or not token: raise HTTPException(401)`
abbrev pub answered : Option ((User × Token) × Db) → Result (Token × Db)
answered none = err (http "401")
answered (some ((user, token), db)) = ok (token, db)

module _ (one : OneOrNone) (client : Http) (texts : Texts) (p : Packages) (jwt : Jwt)
    (settings : Settings) where
  unfoldable pub oauth_callback :
      Call → (uuid provider state code : ℕ) → Cache → Db → Result (Token × Db) × Cache
  unfolding get_state delete_state authenticate_oauth
  oauth_callback call uuid provider state code cache db =
      let outcome =
        answered (authenticate_oauth one client texts p jwt settings call uuid provider code db) in
      elim (get_state call.now state cache) [
        | none ↦ (err (http "400"), cache)
        | some cached_provider ↦
            if cached_provider == provider
            then (outcome, delete_state state cache)
            else (err (http "400"), cache)
      ]
