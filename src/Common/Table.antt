-- ===== src/Common/Table.antt =====
-- A table as the list of its rows, in the order in which a query returns them, and the statements
-- of SQL that the services issue: SELECT, UPDATE and DELETE with a WHERE clause.
use mathlib.Core.Path.{◌≡◌, refl}
use mathlib.Core.Logic.{inl, inr}
use mathlib.Core.Bool.{Bool, true, false}
use mathlib.Core.List.{List, [], ◌∷◌, ◌++◌}
use native.Mathlib.Omega.{arith}
use python_fastapi_multiauth.Common.Tests.{if◌then◌else◌, Bool-cases}

module _ {ℓ} {A : Type ℓ} where
  abbrev pub select : (A → Bool) → List A → List A
  select p [] = []
  select p (x ∷ xs) = let rest = select p xs in if p x then x ∷ rest else rest

  abbrev pub update_where : (A → Bool) → (A → A) → List A → List A
  update_where p f [] = []
  update_where p f (x ∷ xs) = (if p x then f x else x) ∷ update_where p f xs

  abbrev pub delete_where : (A → Bool) → List A → List A
  delete_where p [] = []
  delete_where p (x ∷ xs) = let rest = delete_where p xs in if p x then rest else x ∷ rest

  -- Some row satisfies the test.
  abbrev pub exists : (A → Bool) → List A → Bool
  exists p [] = false
  exists p (x ∷ xs) = let rest = exists p xs in if p x then true else rest

  -- Every row does.
  abbrev pub All {κ} : (A → Type κ) → List A → Type κ
  All P [] = Unit
  All P (x ∷ xs) = P x × All P xs

  pub select-append :
      (p : A → Bool) (xs ys : List A) → select p (xs ++ ys) ≡ select p xs ++ select p ys
  select-append p [] ys = refl
  select-append p (x ∷ xs) ys = ground (arith, select-append p xs ys)

  -- An UPDATE that finds no row changes nothing.
  pub update_where-none :
      (p : A → Bool) (f : A → A) (xs : List A) → select p xs ≡ [] → update_where p f xs ≡ xs
  update_where-none p f [] h = refl
  update_where-none p f (x ∷ xs) h = ground (arith, update_where-none p f xs)

  pub delete_where-none : (p : A → Bool) (xs : List A) → select p xs ≡ [] → delete_where p xs ≡ xs
  delete_where-none p [] h = refl
  delete_where-none p (x ∷ xs) h = ground (arith, delete_where-none p xs)

  pub select-exists : (p : A → Bool) (xs : List A) → exists p xs ≡ false → select p xs ≡ []
  select-exists p [] h = refl
  select-exists p (x ∷ xs) h = ground (arith, select-exists p xs)

  -- What a query returns satisfies its test.
  pub select-holds :
      (p : A → Bool) (xs : List A) {q : A} {rest : List A} → select p xs ≡ q ∷ rest → p q ≡ true
  select-holds p [] {q} {rest} h = ground arith
  select-holds p (x ∷ xs) {q} {rest} h = ground (arith, select-holds p xs {q = q} {rest = rest})

  -- A row that one query returns first is not missed by another that it satisfies.
  pub select-misses :
      (p r : A → Bool) (xs : List A) {q : A} {rest : List A}
      → select p xs ≡ q ∷ rest
      → select r xs ≡ []
      → r q ≡ false
  select-misses p r [] {q} {rest} h k = ground arith
  select-misses p r (x ∷ xs) {q} {rest} h k =
      ground (arith, select-misses p r xs {q = q} {rest = rest})

  pub select-delete_where : (p : A → Bool) (xs : List A) → select p (delete_where p xs) ≡ []
  select-delete_where p [] = refl
  select-delete_where p (x ∷ xs) = ground (arith, select-delete_where p xs)

  -- An UPDATE or a DELETE of rows that a query does not see.
  pub select-update_apart :
      (p r : A → Bool) (f : A → A) (xs : List A)
      → ((x : A) → p x ≡ true → (r x ≡ false) × (r (f x) ≡ false))
      → select r (update_where p f xs) ≡ select r xs
  select-update_apart p r f [] h = refl
  select-update_apart p r f (x ∷ xs) h = ground (arith, h x, select-update_apart p r f xs h)

  pub select-delete_apart :
      (p r : A → Bool) (xs : List A)
      → ((x : A) → p x ≡ true → r x ≡ false)
      → select r (delete_where p xs) ≡ select r xs
  select-delete_apart p r [] h = refl
  select-delete_apart p r (x ∷ xs) h = ground (arith, h x, select-delete_apart p r xs h)

  pub select-never : (p : A → Bool) (xs : List A) → ((x : A) → p x ≡ false) → select p xs ≡ []
  select-never p [] h = refl
  select-never p (x ∷ xs) h = ground (arith, h x, select-never p xs h)

  pub delete_where-never :
      (p : A → Bool) (xs : List A) → ((x : A) → p x ≡ false) → delete_where p xs ≡ xs
  delete_where-never p [] h = refl
  delete_where-never p (x ∷ xs) h = ground (arith, h x, delete_where-never p xs h)

  -- What holds of the rows that satisfy a query's test holds of all that it returns.
  pub All-select {κ} :
      (P : A → Type κ) (p : A → Bool) (xs : List A)
      → All (λ x. p x ≡ true → P x) xs
      → All P (select p xs)
  All-select P p [] h = tt
  All-select P p (x ∷ xs) h = elim (Bool-cases (p x)) [
    | inl yes_x ↦ rw yes_x (h.0 yes_x, All-select P p xs h.1)
    | inr no_x ↦ rw no_x (All-select P p xs h.1)
  ]

  pub exists-append :
      (p : A → Bool) (xs ys : List A) → exists p xs ≡ true → exists p (xs ++ ys) ≡ true
  exists-append p [] ys h = ground arith
  exists-append p (x ∷ xs) ys h = ground (arith, exists-append p xs ys)

  pub exists-found :
      (p : A → Bool) (xs : List A) {a : A} {rest : List A} (q : A → Bool)
      → select q xs ≡ a ∷ rest
      → p a ≡ true
      → exists p xs ≡ true
  exists-found p [] {a} {rest} q h e = ground arith
  exists-found p (x ∷ xs) {a} {rest} q h e =
      ground (arith, exists-found p xs {a = a} {rest = rest} q)

  pub All-map {κ ι} :
      (P : A → Type κ) (Q : A → Type ι) (xs : List A) → ((x : A) → P x → Q x) → All P xs → All Q xs
  All-map P Q [] f h = tt
  All-map P Q (x ∷ xs) f h = (f x h.0, All-map P Q xs f h.1)

  pub All-append {κ} :
      (P : A → Type κ) (xs : List A) (x : A) → All P xs → P x → All P (xs ++ x ∷ [])
  All-append P [] x h e = (e, tt)
  All-append P (y ∷ xs) x h e = (h.0, All-append P xs x h.1 e)

  -- What holds of the rows that are left.
  pub All-left {κ ι} :
      (P : A → Type κ) (Q : A → Type ι) (d : A → Bool) (xs : List A)
      → ((x : A) → d x ≡ false → P x → Q x)
      → All P xs
      → All Q (delete_where d xs)
  All-left P Q d [] f h = tt
  All-left P Q d (x ∷ xs) f h = elim (Bool-cases (d x)) [
    | inl out ↦ rw out (All-left P Q d xs f h.1)
    | inr kept ↦ rw kept (f x kept h.0, All-left P Q d xs f h.1)
  ]
