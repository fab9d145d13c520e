-- ===== src/SignIn/OneUse.antt =====
-- The states of `oauth_callback` in app/api/v1/endpoints/auth.py.
use python_fastapi_multiauth.Common.{
  ℕ, ◌≡◌, refl, sym, ap, ◌∙◌, none, some, [], ◌∷◌, ◌==◌, ==_iff, arith, Bool-cases, Option-cases,
  inl, inr, http, ok, err, ok≢err, OneOrNone,
}
use python_fastapi_multiauth.Totp.Service.{Packages}
use python_fastapi_multiauth.Accounts.Users.{Settings}
use python_fastapi_multiauth.Accounts.Tokens.{Jwt}
use python_fastapi_multiauth.Accounts.Login.{Token, Call}
use python_fastapi_multiauth.SignIn.Model.{Db}
use python_fastapi_multiauth.SignIn.Providers.{Http, Texts}
use python_fastapi_multiauth.SignIn.Callback.{Cache, get_state, delete_state, oauth_callback}

deleted_state :
    (now state : ℕ) (cache : Cache) → get_state now state (delete_state state cache) ≡ none
unfolding get_state delete_state
deleted_state now state [] = refl
deleted_state now state (e ∷ cache) = ground (arith, deleted_state now state cache)

module _ (one : OneOrNone) (client : Http) (texts : Texts) (p : Packages) (jwt : Jwt)
    (settings : Settings) where
  unknown_state :
      (call : Call) (uuid provider state code : ℕ) (cache : Cache) (db : Db)
      → get_state call.now state cache ≡ none
      → oauth_callback one client texts p jwt settings call uuid provider state code cache db
        ≡ (err (http "400"), cache)
  unfolding oauth_callback
  unknown_state call uuid provider state code cache db gone = rw (oauth_callback, gone) refl

  known_state :
      (call : Call) (uuid provider state code cached : ℕ) (cache cache' : Cache) (db : Db)
      (given : Token × Db)
      → get_state call.now state cache ≡ some cached
      → oauth_callback one client texts p jwt settings call uuid provider state code cache db
        ≡ (ok given, cache')
      → (cached ≡ provider) × (cache' ≡ delete_state state cache)
  unfolding oauth_callback
  known_state call uuid provider state code cached cache cache' db given found h =
      let h = rw (oauth_callback, found) at h in
      elim (Bool-cases (cached == provider)) [
        | inl same ↦
            let h = rw same at h in ((==_iff cached provider).0 same, ap (λ r. r.1) (sym h))
        | inr differs ↦ let h = rw differs at h in absurd (ok≢err (sym (ap (λ r. r.0) h)))
      ]

  -- A callback that gives tokens carried a state that was issued for its provider and had
  -- not expired, and every later callback with the state is refused with 400.
  pub state_used_once :
      (call : Call) (uuid provider state code : ℕ) (cache cache' : Cache) (db : Db)
      (given : Token × Db)
      → oauth_callback one client texts p jwt settings call uuid provider state code cache db
        ≡ (ok given, cache')
      → (call' : Call) (uuid' provider' code' : ℕ) (db' : Db)
      → (get_state call.now state cache ≡ some provider)
        × (oauth_callback one client texts p jwt settings call' uuid' provider' state code' cache'
              db'
            ≡ (err (http "400"), cache'))
  state_used_once call uuid provider state code cache cache' db given h call' uuid' provider' code'
        db' =
      elim (Option-cases (get_state call.now state cache)) [
        | inl gone ↦ absurd (
            ok≢err
              (ap (λ r. r.0) (sym h ∙ unknown_state call uuid provider state code cache db gone)))
        | inr (cached, found) ↦
            let (same, after) =
              known_state call uuid provider state code cached cache cache' db given found h in
            (
              found ∙ ap some same,
              unknown_state call' uuid' provider' state code' cache' db'
                  (ap (get_state call'.now state) after ∙ deleted_state call'.now state cache),
            )
      ]
