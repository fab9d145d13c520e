-- ===== src/ApiKeys/Service.antt =====
-- app/services/api_key_service.py. A raw key is the list of its characters' codes; `hash` and
-- `verify` are passlib's, `hash` with the salt that it drew.
use python_fastapi_multiauth.Common.{
  ℕ, zero, suc, ◌+◌, ◌*◌, Bool, true, false, Option, none, some, List, [], ◌∷◌, ◌++◌, if◌then◌else◌,
  ◌==◌, ltb, not, ◌&&◌, length, Result, ok, ◌>>=◌, OneOrNone, select, update_where, delete_where,
  save, has_key,
}

abbrev pub take {ℓ} : {A : Type ℓ} → ℕ → List A → List A
take zero xs = []
take (suc n) [] = []
take (suc n) (x ∷ xs) = x ∷ take n xs

-- Equality of texts.
unfoldable pub same_text : List ℕ → List ℕ → Bool
same_text [] [] = true
same_text (a ∷ s) (b ∷ t) = a == b && same_text s t
same_text _ _ = false

pub record ApiKey : Type 0 where
  pub id : ℕ
  pub user_id : ℕ
  pub name : ℕ
  pub key_hash : ℕ
  pub prefix : List ℕ
  pub is_active : Bool
  pub last_used_at : Option ℕ
  pub expires_at : Option ℕ

-- What `get_user_from_api_key` reads of a user.
pub record User : Type 0 where
  pub id : ℕ

abbrev pub Db : Type 0
Db = List ApiKey

abbrev pub microseconds_per_day : ℕ
microseconds_per_day = 86400000000

abbrev pub api_key_id : ApiKey → ℕ
api_key_id k = k.id

-- `if expires_in_days: ...`: 0 counts as absent.
unfoldable pub expiry : (now : ℕ) → Option ℕ → Option ℕ
expiry now none = none
expiry now (some zero) = none
expiry now (some (suc n)) = some (now + suc n * microseconds_per_day)

-- `APIKey.generate_key`: the key's hash and prefix.
unfoldable pub generate_key : (List ℕ → ℕ) → List ℕ → ℕ × List ℕ
generate_key hash key = (hash key, take 8 key)

unfoldable pub new_api_key : (List ℕ → ℕ) → (new_id now user name : ℕ) → Option ℕ → List ℕ → ApiKey
unfolding expiry generate_key
new_api_key hash new_id now user name days key =
    let (key_hash, prefix) = generate_key hash key in
    record {
      id = new_id;
      user_id = user;
      name = name;
      key_hash = key_hash;
      prefix = prefix;
      is_active = true;
      last_used_at = none;
      expires_at = expiry now days;
    }

unfoldable pub create_api_key :
    (List ℕ → ℕ) → (new_id now user name : ℕ) → Option ℕ → List ℕ → Db → ApiKey × Db
unfolding new_api_key
create_api_key hash new_id now user name days key db =
    let api_key = new_api_key hash new_id now user name days key in (api_key, db ++ api_key ∷ [])

-- `api_key.expires_at and datetime.now(UTC) > api_key.expires_at`
unfoldable pub is_expired : ℕ → ApiKey → Bool
is_expired now k = elim k.expires_at [ none ↦ false | some at ↦ ltb at now ]

unfoldable pub with_prefix : List ℕ → ApiKey → Bool
with_prefix prefix k = same_text k.prefix prefix && k.is_active

abbrev pub owned : (id user : ℕ) → ApiKey → Bool
owned id user k = k.id == id && k.user_id == user

unfoldable pub get_user_api_keys : (user : ℕ) → Bool → Db → List ApiKey
get_user_api_keys user include_inactive db =
    if include_inactive
    then select (λ k. k.user_id == user) db
    else select (λ k. k.user_id == user && k.is_active) db

-- `expires_at < now` and active; a missing expiry compares as unknown.
unfoldable pub overdue : ℕ → ApiKey → Bool
unfolding is_expired
overdue now k = is_expired now k && k.is_active

unfoldable pub deactivate : ApiKey → ApiKey
deactivate k = record k { is_active = false }

unfoldable pub cleanup_expired_keys : ℕ → Db → ℕ × Db
unfolding overdue deactivate
cleanup_expired_keys now db =
    (length (select (overdue now) db), update_where (overdue now) deactivate db)

module _ (one : OneOrNone) where
  -- The clock is read for the expiry and for the time of use; both are `now`.
  unfoldable pub verify_api_key :
      (List ℕ → ℕ → Bool) → (now : ℕ) → List ℕ → Db → Result (Option ApiKey × Db)
  unfolding with_prefix is_expired
  verify_api_key verify now raw_key db = do
    found ← one ApiKey (select (with_prefix (take 8 raw_key)) db)
    ok (elim found [
      | none ↦ (none, db)
      | some k ↦
          let used = record k { last_used_at = some now } in
          if not (verify raw_key k.key_hash)
          then (none, db)
          else if is_expired now k
          then (none, db)
          else (some used, save api_key_id used db)
    ])

  unfoldable pub get_api_key_by_id : (id user : ℕ) → Db → Result (Option ApiKey)
  get_api_key_by_id id user db = one ApiKey (select (owned id user) db)

  unfoldable pub revoke_api_key : (id user : ℕ) → Db → Result (Bool × Db)
  unfolding get_api_key_by_id deactivate
  revoke_api_key id user db = do
    found ← get_api_key_by_id id user db
    ok (elim found [ none ↦ (false, db) | some k ↦ (true, save api_key_id (deactivate k) db) ])

  unfoldable pub delete_api_key : (id user : ℕ) → Db → Result (Bool × Db)
  unfolding get_api_key_by_id
  delete_api_key id user db = do
    found ← get_api_key_by_id id user db
    ok (elim found [
      | none ↦ (false, db)
      | some k ↦ (true, delete_where (has_key api_key_id k.id) db)
    ])

  unfoldable pub get_user_from_api_key :
      (List ℕ → ℕ → Bool) → (now : ℕ) → List ℕ → List User → Db → Result (Option User × Db)
  unfolding verify_api_key
  get_user_from_api_key verify now raw_key users db = do
    (found, db') ← verify_api_key verify now raw_key db
    elim found [
      | none ↦ ok (none, db')
      | some k ↦ do user ← one User (select (λ u. u.id == k.user_id) users); ok (user, db')
    ]
