-- ===== src/FeatureFlags/Service.antt =====
-- app/services/feature_flag.py and app/models/feature_flag.py. Shares are in millionths, 1.0 being
-- 1000000. `bucket` is `hash(str(user_id)) % 100`, Python's hash of the process. The cache of
-- app/services/cache.py holds one entry for a name; that an entry runs out is a step of its own.
use python_fastapi_multiauth.Common.{
  ℕ, ◌*◌, Bool, true, false, Option, none, some, List, [], ◌∷◌, ◌++◌, if◌then◌else◌, ◌==◌, Result,
  ok, ◌>>=◌, OneOrNone, select, delete_where, save, has_key, exists,
}
use python_fastapi_multiauth.Common.Int.{ℤ, pos, leb_ℤ, ltb_ℤ, max_ℤ}

-- The JSON object `targeting_rules`; a missing key is `none`.
pub record TargetingRules : Type 0 where
  pub user_ids : Option (List ℕ)
  pub user_emails : Option (List ℕ)

pub record FeatureFlag : Type 0 where
  pub id : ℕ
  pub name : ℕ
  pub is_enabled : Bool
  pub rollout_percentage : ℤ
  pub targeting_rules : TargetingRules

-- `key in rules and value in rules[key]`
unfoldable pub targets : Option (List ℕ) → ℕ → Bool
targets none value = false
targets (some values) value = exists (λ v. v == value) values

unfoldable pub is_enabled_for_user : (ℕ → ℕ) → FeatureFlag → (user email : ℕ) → Bool
unfolding targets
is_enabled_for_user bucket f user email =
    if f.is_enabled
    then if targets f.targeting_rules.user_ids user
      then true
      else if targets f.targeting_rules.user_emails email
      then true
      else if ltb_ℤ (pos 0) f.rollout_percentage
      then leb_ℤ (pos (bucket user * 10000)) f.rollout_percentage
      else false
    else false

-- What the cache stores of a flag.
pub record Snapshot : Type 0 where
  pub is_enabled : Bool
  pub rollout_percentage : ℤ
  pub targeting_rules : TargetingRules

abbrev pub snapshot : FeatureFlag → Snapshot
snapshot f = record {
  is_enabled = f.is_enabled;
  rollout_percentage = f.rollout_percentage;
  targeting_rules = f.targeting_rules;
}

-- `FeatureFlag(name=flag_name, ...)` from a cached entry; its id is not set.
unfoldable pub from_cached : ℕ → Snapshot → FeatureFlag
from_cached name c = record {
  id = 0;
  name = name;
  is_enabled = c.is_enabled;
  rollout_percentage = c.rollout_percentage;
  targeting_rules = c.targeting_rules;
}

abbrev pub Cache : Type 0
Cache = List (ℕ × Snapshot)

unfoldable pub cache_get : ℕ → Cache → Option Snapshot
cache_get name [] = none
cache_get name ((n, c) ∷ cache) =
    let rest = cache_get name cache in if n == name then some c else rest

unfoldable pub cache_delete : ℕ → Cache → Cache
cache_delete name [] = []
cache_delete name ((n, c) ∷ cache) =
    let rest = cache_delete name cache in if n == name then rest else (n, c) ∷ rest

unfoldable pub cache_set : ℕ → Snapshot → Cache → Cache
unfolding cache_delete
cache_set name c cache = (name, c) ∷ cache_delete name cache

pub record Db : Type 0 where
  pub flags : List FeatureFlag
  pub cache : Cache

abbrev pub named : ℕ → FeatureFlag → Bool
named name f = f.name == name

abbrev pub flag_id : FeatureFlag → ℕ
flag_id f = f.id

-- The last lines of `is_enabled`: the user counts only if id and email are both given.
unfoldable pub decide : (ℕ → ℕ) → FeatureFlag → Option ℕ → Option ℕ → Bool
unfolding is_enabled_for_user
decide bucket f (some user) (some email) = is_enabled_for_user bucket f user email
decide bucket f none _ = f.is_enabled
decide bucket f (some user) none = f.is_enabled

unfoldable pub create_flag : (new_id name : ℕ) → Bool → Db → FeatureFlag × Db
unfolding cache_delete
create_flag new_id name enabled db =
    let flag : FeatureFlag = record {
      id = new_id;
      name = name;
      is_enabled = enabled;
      rollout_percentage = pos 0;
      targeting_rules = record { user_ids = none; user_emails = none };
    } in
    (flag, record { flags = db.flags ++ flag ∷ []; cache = cache_delete name db.cache })

-- `max(0.0, min(1.0, rollout_percentage))`
unfoldable pub clamp : ℤ → ℤ
clamp r = max_ℤ (pos 0) (if ltb_ℤ r (pos 1000000) then r else pos 1000000)

-- The assignments of `update_flag`; an argument left out is `None`.
unfoldable pub with_status : Option Bool → FeatureFlag → FeatureFlag
with_status none f = f
with_status (some b) f = record f { is_enabled = b }

unfoldable pub with_rollout : Option ℤ → FeatureFlag → FeatureFlag
unfolding clamp
with_rollout none f = f
with_rollout (some r) f = record f { rollout_percentage = clamp r }

-- Flushing the changed flag and deleting its cache entry.
unfoldable pub save_flag : FeatureFlag → Db → Db
unfolding cache_delete
save_flag f db = record { flags = save flag_id f db.flags; cache = cache_delete f.name db.cache }

unfoldable pub update_flag : FeatureFlag → Option Bool → Option ℤ → Db → FeatureFlag × Db
unfolding with_status with_rollout save_flag
update_flag f status rollout db =
    let changed = with_rollout rollout (with_status status f) in (changed, save_flag changed db)

unfoldable pub update_flag_targeting : FeatureFlag → TargetingRules → Db → FeatureFlag × Db
unfolding save_flag
update_flag_targeting f rules db =
    let changed = record f { targeting_rules = rules } in (changed, save_flag changed db)

unfoldable pub delete_flag : FeatureFlag → Db → Db
unfolding cache_delete
delete_flag f db = record {
  flags = delete_where (has_key flag_id f.id) db.flags;
  cache = cache_delete f.name db.cache;
}

module _ (one : OneOrNone) (bucket : ℕ → ℕ) where
  unfoldable pub get_flag_by_name : ℕ → Db → Result (Option FeatureFlag)
  get_flag_by_name name db = one FeatureFlag (select (named name) db.flags)

  -- The branch of `is_enabled` without a cached entry.
  unfoldable pub load_flag : ℕ → Option ℕ → Option ℕ → Db → Result (Bool × Db)
  unfolding get_flag_by_name decide cache_set
  load_flag name user email db = do
    found ← get_flag_by_name name db
    ok (elim found [
      | none ↦ (false, db)
      | some f ↦
          (decide bucket f user email, record db { cache = cache_set name (snapshot f) db.cache })
    ])

  unfoldable pub is_enabled : ℕ → Option ℕ → Option ℕ → Db → Result (Bool × Db)
  unfolding load_flag decide from_cached cache_get
  is_enabled name user email db = elim (cache_get name db.cache) [
    | none ↦ load_flag name user email db
    | some c ↦ ok (decide bucket (from_cached name c) user email, db)
  ]

  unfoldable pub check_user_access : ℕ → (user email : ℕ) → Db → Result Bool
  unfolding get_flag_by_name is_enabled_for_user
  check_user_access name user email db = do
    found ← get_flag_by_name name db
    ok (elim found [ none ↦ false | some f ↦ is_enabled_for_user bucket f user email ])
