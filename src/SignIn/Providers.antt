-- ===== src/SignIn/Providers.antt =====
-- What app/services/auth.py asks the OAuth providers: `get_oauth_user_info` and the identity that it takes from the
-- answer. The HTTP calls of authlib and httpx are parameters.
use python_fastapi_multiauth.Common.{
  ℕ, Bool, Option, none, some, List, [], ◌∷◌, ◌&&◌, ◌==◌, if◌then◌else◌, Result, ok, err,
  value_error, ◌>>=◌,
}
use python_fastapi_multiauth.SignIn.Model.{google, github, microsoft}

-- A token response: the fields that the code reads. A text that is missing or empty is `none`.
pub record TokenResponse : Type 0 where
  pub access_token : Option ℕ
  pub refresh_token : Option ℕ

-- The JSON object that a provider answers with, whole as `raw`.
pub record UserInfo : Type 0 where
  pub id : Option ℕ
  pub email : Option ℕ
  pub user_principal_name : Option ℕ
  pub raw : ℕ

pub record GithubEmail : Type 0 where
  pub email : ℕ
  pub primary : Bool
  pub verified : Bool

-- The calls; each may raise.
pub record Http : Type 0 where
  pub fetch_token : (provider code : ℕ) → Result TokenResponse
  pub google_userinfo : (access_token : ℕ) → Result UserInfo
  pub github_user : (access_token : ℕ) → Result UserInfo
  pub github_emails : (access_token : ℕ) → Result (List GithubEmail)
  pub microsoft_me : (access_token : ℕ) → Result UserInfo
  pub keycloak_userinfo : (access_token : ℕ) → Result UserInfo

-- `str` of the number that GitHub gives, or of None, and `lower().strip()`.
pub record Texts : Type 0 where
  pub str_id : Option ℕ → ℕ
  pub normalize : ℕ → ℕ

-- `next((e["email"] for e in emails if ...), None)`
unfoldable pub first_email : (GithubEmail → Bool) → List GithubEmail → Option ℕ
first_email p [] = none
first_email p (e ∷ emails) = let rest = first_email p emails in if p e then some e.email else rest

-- The primary verified email, or else the first verified one.
unfoldable pub github_email : List GithubEmail → Option ℕ
unfolding first_email
github_email emails = elim (first_email (λ e. e.primary && e.verified) emails) [
  | none ↦ first_email (λ e. e.verified) emails
  | some email ↦ some email
]

unfoldable pub supported : ℕ → Result (Unit {0})
supported provider =
    if provider == google
    then ok tt
    else if provider == github
    then ok tt
    else if provider == microsoft
    then ok tt
    else err (value_error "Unsupported OAuth provider")

module _ (http : Http) where
  -- The branch for GitHub.
  unfoldable pub github_user_info : (access_token : ℕ) → Result UserInfo
  unfolding github_email
  github_user_info access_token = do
    user_info ← http.github_user access_token
    elim user_info.email [
      | some email ↦ ok user_info
      | none ↦ do
        emails ← http.github_emails access_token
        ok (record user_info { email = github_email emails })
    ]

  unfoldable pub get_oauth_user_info : (provider access_token : ℕ) → Result UserInfo
  unfolding github_user_info
  get_oauth_user_info provider access_token =
      if provider == google
      then http.google_userinfo access_token
      else if provider == github
      then github_user_info access_token
      else if provider == microsoft
      then http.microsoft_me access_token
      else err (value_error "Unsupported OAuth provider")

-- Both texts, if neither is missing: `if not email or not provider_user_id: return None, None`.
abbrev pub both : Option ℕ → Option ℕ → Option (ℕ × ℕ)
both none id = none
both (some email) none = none
both (some email) (some id) = some (email, id)

-- The email and the provider's id of the user.
unfoldable pub identity : Texts → (provider : ℕ) → UserInfo → Option (ℕ × ℕ)
identity texts provider user_info =
    if provider == google
    then both user_info.email user_info.id
    else if provider == github
    then both user_info.email (some (texts.str_id user_info.id))
    else if provider == microsoft
    then both user_info.user_principal_name user_info.id
    else none
