-- ===== src/ApiKeys/Tests.antt =====
-- Runs on small tables; a hash is the sum of the characters' codes.
use python_fastapi_multiauth.Common.{ℕ, ◌+◌, Bool, true, false, none, some, List, [], ◌∷◌, ◌==◌}
use python_fastapi_multiauth.ApiKeys.Service.{ApiKey, Db, new_api_key}

abbrev total : List ℕ → ℕ
total [] = 0
total (c ∷ s) = c + total s

abbrev verify : List ℕ → ℕ → Bool
verify raw hashed = total raw == hashed

abbrev raw : List ℕ
raw = 1 ∷ 2 ∷ 3 ∷ 4 ∷ 5 ∷ 6 ∷ 7 ∷ 8 ∷ 9 ∷ []

abbrev old_key : ApiKey
old_key = record {
  id = 4;
  user_id = 6;
  name = 0;
  key_hash = 46;
  prefix = 1 ∷ 2 ∷ 3 ∷ 4 ∷ 5 ∷ 6 ∷ 7 ∷ 8 ∷ [];
  is_active = false;
  last_used_at = none;
  expires_at = some 10;
}

-- The key after a use, with the key of another user.
abbrev used_key : ApiKey
unfolding new_api_key
used_key = record (new_api_key total 5 0 7 0 (some 1) raw) { last_used_at = some 9 }

abbrev held : Db
held = record old_key { prefix = 1 ∷ [] } ∷ used_key ∷ []

abbrev twin : ApiKey
twin = record old_key { id = 9; is_active = true; expires_at = none }
