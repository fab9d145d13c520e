-- ===== src/ApiKeys/Lifecycle.antt =====
-- A key from its creation to its revocation.
use python_fastapi_multiauth.Common.{
  ℕ, ◌≡◌, refl, Bool, List, [], ◌∷◌, err, multiple_results, OneOrNone, IsOneOrNone, eq-only_row,
  select, Distinct, has_key,
}
use python_fastapi_multiauth.ApiKeys.Service.{
  ApiKey, Db, take, api_key_id, with_prefix, verify_api_key,
}

-- The key is the one row of its id and the one active key with the prefix, in a table whose ids are
-- unique.
pub record Stands (k : ApiKey) (raw : List ℕ) (rows : Db) : Type 0 where
  pub distinct : Distinct api_key_id rows
  pub of_id : select (has_key api_key_id k.id) rows ≡ k ∷ []
  pub of_prefix : select (with_prefix (take 8 raw)) rows ≡ k ∷ []

module _ (one : OneOrNone) (law : IsOneOrNone one) (hash : List ℕ → ℕ)
    (verify : List ℕ → ℕ → Bool) where
  -- Where two active keys begin with the same eight characters, verifying any raw text that begins
  -- with them raises, so neither key can be used.
  prefix_collision :
      (now : ℕ) (raw : List ℕ) (a b : ApiKey) (rest : List ApiKey) (db : Db)
      → select (with_prefix (take 8 raw)) db ≡ a ∷ b ∷ rest
      → verify_api_key one verify now raw db ≡ err multiple_results
  unfolding verify_api_key
  prefix_collision now raw a b rest db rows = rw (eq-only_row one law, rows) refl
