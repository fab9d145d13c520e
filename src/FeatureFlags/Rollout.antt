-- ===== src/FeatureFlags/Rollout.antt =====
-- Who gets a flag that is rolled out to a share of the users.
use python_fastapi_multiauth.Common.{
  ℕ, ◌*◌, ◌≤◌, ◌<◌, ◌≡◌, Bool, true, false, Option, some, ◌↔◌, ◌⊎◌, inl, inr, arith, Bool-cases,
}
use python_fastapi_multiauth.Common.Int.{ℤ, pos, ◌≤ℤ◌}
use python_fastapi_multiauth.FeatureFlags.Service.{
  FeatureFlag, targets, is_enabled_for_user, update_flag, Db,
}

-- The user's id or email is among the targets.
abbrev pub IsTargeted : FeatureFlag → (user email : ℕ) → Type 0
IsTargeted f user email =
    (targets f.targeting_rules.user_ids user ≡ true)
    ⊎ (targets f.targeting_rules.user_emails email ≡ true)

-- A switched-off flag is on for nobody. A flag that is on, rolled out to `k` hundredths, is on for
-- exactly the targeted users and, unless `k` is 0, those whose bucket is `k` or below it: of the 100
-- buckets these are `k + 1`.
rollout_share :
    (bucket : ℕ → ℕ) (f : FeatureFlag) (user email k : ℕ)
    → f.rollout_percentage ≡ pos (k * 10000)
    → (f.is_enabled ≡ false → is_enabled_for_user bucket f user email ≡ false)
      × (f.is_enabled ≡ true
          → (is_enabled_for_user bucket f user email ≡ true)
            ↔ (IsTargeted f user email ⊎ ((0 < k) × (bucket user ≤ k))))
unfolding is_enabled_for_user
rollout_share bucket f user email k share = (
  λ off. ground arith,
  λ on. (
    λ e. elim (Bool-cases (targets f.targeting_rules.user_ids user)) [
      | inl by_id ↦ inl (inl by_id)
      | inr other_id ↦ elim (Bool-cases (targets f.targeting_rules.user_emails email)) [
        | inl by_email ↦ inl (inr by_email)
        | inr other_email ↦ inr (ground arith, ground arith)
      ]
    ],
    λ h. ground arith,
  ),
)

-- An update keeps the share between 0 and 1, and leaves what it is not given.
rollout_clamped :
    (f : FeatureFlag) (status : Option Bool) (r : ℤ) (db : Db)
    → let f' = (update_flag f status (some r) db).0 in
      (pos 0 ≤ℤ f'.rollout_percentage)
      × (f'.rollout_percentage ≤ℤ pos 1000000)
      × (pos 0 ≤ℤ r → r ≤ℤ pos 1000000 → f'.rollout_percentage ≡ r)
      × (f'.targeting_rules ≡ f.targeting_rules)
unfolding update_flag
rollout_clamped f status r db = (ground arith, ground arith, λ low high. ground arith, ground arith)
