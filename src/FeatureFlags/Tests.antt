-- ===== src/FeatureFlags/Tests.antt =====
-- Runs on one flag, on for half of the users.
use python_fastapi_multiauth.Common.{
  ℕ, ◌≡◌, refl, true, false, none, some, [], ◌∷◌, arith, ok, only_row, only_row-IsOneOrNone,
}
use python_fastapi_multiauth.Common.Int.{pos}
use python_fastapi_multiauth.FeatureFlags.Service.{
  FeatureFlag, Db, cache_get, is_enabled_for_user, decide, is_enabled, update_flag,
}
use python_fastapi_multiauth.FeatureFlags.Cache.{updates, here, next, IsSound, cache_transparent}

abbrev half : FeatureFlag
half = record {
  id = 1;
  name = 8;
  is_enabled = true;
  rollout_percentage = pos 500000;
  targeting_rules = record { user_ids = some (3 ∷ []); user_emails = none };
}

abbrev bucket : ℕ → ℕ
bucket user = user

abbrev start : Db
start = record { flags = half ∷ []; cache = [] }

start-IsSound : IsSound start
unfolding cache_get
start-IsSound = record { distinct = (refl, tt); coherent = λ name c e. absurd (ground arith) }

abbrev off : Db
off = record { flags = record half { is_enabled = false } ∷ []; cache = [] }

cache_transparent_example :
    (db' : Db) × (is_enabled only_row bucket 8 (some 20) (some 1) off ≡ ok (false, db'))
unfolding decide is_enabled_for_user update_flag
cache_transparent_example =
    cache_transparent only_row only_row-IsOneOrNone bucket 8 (some 20) (some 1) false start-IsSound
      (next here (updates half (some false) none start refl)) refl
