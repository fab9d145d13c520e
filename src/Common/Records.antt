-- ===== src/Common/Records.antt =====
-- ORM objects: rows with a primary key. Assigning to an object's attributes and flushing is an
-- UPDATE of the row with its key.
use Prim.Native.Nat.{ℕ}
use mathlib.Core.Path.{◌≡◌, refl}
use mathlib.Core.Bool.{Bool, true, false}
use mathlib.Core.List.{List, [], ◌∷◌, ◌++◌}
use native.Mathlib.Omega.{arith}
use python_fastapi_multiauth.Common.Tests.{◌==◌}
use python_fastapi_multiauth.Common.Table.{
  select, select-append, update_where, update_where-none, select-misses, delete_where,
  delete_where-none,
}

module _ {ℓ} {A : Type ℓ} (key : A → ℕ) where
  abbrev pub has_key : ℕ → A → Bool
  has_key k a = key a == k

  -- Flushing the changed object `q`.
  abbrev pub save : A → List A → List A
  save q = update_where (has_key (key q)) (λ _. q)

  -- No two rows share a key: the primary key, or a column with a unique constraint.
  abbrev pub Distinct : List A → Type ℓ
  Distinct [] = Unit
  Distinct (x ∷ xs) = (select (has_key (key x)) xs ≡ []) × Distinct xs

  select-save_other_key :
      (k : ℕ) (q : A) (xs : List A)
      → (k == key q) ≡ false
      → select (has_key k) xs ≡ []
      → select (has_key k) (save q xs) ≡ []
  select-save_other_key k q [] h e = refl
  select-save_other_key k q (x ∷ xs) h e = ground (arith, select-save_other_key k q xs h)

  select-save_same_key : (q : A) (xs : List A) → select (has_key (key q)) xs ≡ [] → save q xs ≡ xs
  select-save_same_key q xs e = update_where-none (has_key (key q)) (λ _. q) xs e

  pub Distinct-save : (q : A) (xs : List A) → Distinct xs → Distinct (save q xs)
  Distinct-save q [] d = tt
  Distinct-save q (x ∷ xs) d =
      ground (
        arith,
        Distinct-save q xs d.1,
        select-save_other_key (key x) q xs,
        select-save_same_key q xs,
      )

  -- Saving the one row that a query finds: the query finds the new object.
  pub select-save :
      (p : A → Bool) (q q' : A) (xs : List A)
      → Distinct xs
      → select p xs ≡ q ∷ []
      → key q' ≡ key q
      → p q' ≡ true
      → select p (save q' xs) ≡ q' ∷ []
  select-save p q q' [] d h k t = ground arith
  select-save p q q' (x ∷ xs) d h k t = ground (
    arith,
    select-save p q q' xs d.1,
    select-save_same_key q' xs,
    select-misses p (has_key (key x)) xs {q = q} {rest = []},
  )

  -- Saving an object that no longer satisfies the query that found it alone.
  pub select-save_gone :
      (p : A → Bool) (q q' : A) (xs : List A)
      → Distinct xs
      → select p xs ≡ q ∷ []
      → key q' ≡ key q
      → p q' ≡ false
      → select p (save q' xs) ≡ []
  select-save_gone p q q' [] d h k f = refl
  select-save_gone p q q' (x ∷ xs) d h k f = ground (
    arith,
    select-save_gone p q q' xs d.1,
    select-save_same_key q' xs,
    select-misses p (has_key (key x)) xs {q = q} {rest = []},
  )

  -- A query that neither the old nor the new object satisfies is not affected.
  pub select-save_other :
      (p r : A → Bool) (q q' : A) (xs : List A)
      → Distinct xs
      → select p xs ≡ q ∷ []
      → key q' ≡ key q
      → r q ≡ false
      → r q' ≡ false
      → select r (save q' xs) ≡ select r xs
  select-save_other p r q q' [] d h k f f' = refl
  select-save_other p r q q' (x ∷ xs) d h k f f' = ground (
    arith,
    select-save_other p r q q' xs d.1,
    select-save_same_key q' xs,
    select-misses p (has_key (key x)) xs {q = q} {rest = []},
  )

  pub select-delete_other_key :
      (k : ℕ) (j : ℕ) (xs : List A)
      → select (has_key k) xs ≡ []
      → select (has_key k) (delete_where (has_key j) xs) ≡ []
  select-delete_other_key k j [] h = refl
  select-delete_other_key k j (x ∷ xs) h = ground (arith, select-delete_other_key k j xs)

  pub Distinct-delete : (j : ℕ) (xs : List A) → Distinct xs → Distinct (delete_where (has_key j) xs)
  Distinct-delete j [] d = tt
  Distinct-delete j (x ∷ xs) d =
      ground (arith, Distinct-delete j xs d.1, select-delete_other_key (key x) j xs)

  -- Deleting the one row that a query finds does not change what a query finds that it fails.
  pub select-delete_other :
      (p r : A → Bool) (q : A) (xs : List A)
      → Distinct xs
      → select p xs ≡ q ∷ []
      → r q ≡ false
      → select r (delete_where (has_key (key q)) xs) ≡ select r xs
  select-delete_other p r q [] d h f = refl
  select-delete_other p r q (x ∷ xs) d h f = ground (
    arith,
    select-delete_other p r q xs d.1,
    delete_where-none (has_key (key q)) xs,
    select-misses p (has_key (key x)) xs {q = q} {rest = []},
  )

  -- Adding an object under a key that no row has.
  pub Distinct-append :
      (q : A) (xs : List A)
      → Distinct xs
      → select (has_key (key q)) xs ≡ []
      → Distinct (xs ++ q ∷ [])
  Distinct-append q [] d h = (refl, tt)
  Distinct-append q (x ∷ xs) d h =
      ground (arith, Distinct-append q xs d.1, select-append (has_key (key x)) xs (q ∷ []))
