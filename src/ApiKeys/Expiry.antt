-- ===== src/ApiKeys/Expiry.antt =====
-- Expired keys.
use python_fastapi_multiauth.Common.{
  ℕ, suc, ◌+◌, ◌*◌, ◌<◌, ◌≡◌, refl, Bool, true, false, none, some, List, [], ◌∷◌, arith, not, ◌&&◌,
  select, update_where, length, ◌↔◌,
}
use python_fastapi_multiauth.ApiKeys.Service.{
  ApiKey, Db, is_expired, overdue, deactivate, cleanup_expired_keys, new_api_key,
  microseconds_per_day,
}

-- The keys that are active and not expired.
abbrev pub usable : ℕ → ApiKey → Bool
usable now k = k.is_active && not (is_expired now k)

length-kept : (now : ℕ) (db : Db) → length (update_where (overdue now) deactivate db) ≡ length db
length-kept now [] = refl
length-kept now (k ∷ db) = omega (arith, length-kept now db)

none-overdue :
    (now : ℕ) (db : Db) → select (overdue now) (update_where (overdue now) deactivate db) ≡ []
unfolding overdue deactivate
none-overdue now [] = refl
none-overdue now (k ∷ db) = ground (arith, none-overdue now db)

usable-kept :
    (now : ℕ) (db : Db)
    → select (usable now) (update_where (overdue now) deactivate db) ≡ select (usable now) db
unfolding overdue deactivate
usable-kept now [] = refl
usable-kept now (k ∷ db) = ground (arith, usable-kept now db)

-- The clean-up deletes no key; afterwards no key is both active and expired, and the keys that are
-- active and not expired are the same as before, each unchanged.
key_cleanup :
    (now : ℕ) (db : Db)
    → let (n, db') = cleanup_expired_keys now db in
      (n ≡ length (select (overdue now) db))
      × (length db' ≡ length db)
      × (select (overdue now) db' ≡ [])
      × (select (usable now) db' ≡ select (usable now) db)
unfolding cleanup_expired_keys
key_cleanup now db = (refl, length-kept now db, none-overdue now db, usable-kept now db)

-- A key made for some days expires exactly after that time if the number of days is not 0; made for
-- 0 days, or for none given, it never expires.
key_expiry :
    (hash : List ℕ → ℕ) (id now user name later : ℕ) (raw : List ℕ)
    → ((n : ℕ)
        → (is_expired later (new_api_key hash id now user name (some (suc n)) raw) ≡ true)
          ↔ (now + suc n * microseconds_per_day < later))
      × (is_expired later (new_api_key hash id now user name (some 0) raw) ≡ false)
      × (is_expired later (new_api_key hash id now user name none raw) ≡ false)
unfolding is_expired new_api_key
key_expiry hash id now user name later raw =
    (λ n. (λ e. ground arith, λ h. ground arith), refl, refl)
