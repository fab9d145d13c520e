-- ===== src/Common/Outcomes.antt =====
-- What a service call returns or raises. `err` stands for an exception that leaves the call: the
-- request's transaction is rolled back (app/db/session.py), so no state comes with it.
use Prim.Native.String.{String}
use mathlib.Core.Path.{◌≡◌, refl, sym, ap, fun_ext}
use mathlib.Core.Logic.{◌≢◌, ◌⊎◌, inl, inr}
use mathlib.Core.Bool.{Bool, true, false, true≢false}
use mathlib.Core.Option.{Option, none, some}
use mathlib.Core.List.{List, [], ◌∷◌}
use native.Mathlib.Omega.{arith}

pub data Error : Type 0 where
  -- SQLAlchemy's `MultipleResultsFound`
  multiple_results : Error
  -- Python's `TypeError`
  type_error : Error
  -- `ValueError` with its message
  value_error : String → Error
  -- `raise ValueError(f"...{e!s}") from e`: the text before the message, and the message
  value_error_from : String → String → Error
  -- `AttributeError`
  attribute_error : Error
  -- `FileNotFoundError`
  file_not_found : Error
  -- `raise Exception(f"Failed to ... S3: {e}")`
  storage_error : Error
  -- FastAPI's `HTTPException`, by its status code
  http : (status : String) → Error

pub data Result {ℓ} (A : Type ℓ) : Type ℓ where
  err : (raised : Error) → Result A
  ok : (value : A) → Result A

infixl 5 ◌>>=◌ ◌>>◌
-- `await`, and then the rest of the function.
abbrev pub ◌>>=◌ {ℓ κ} : {A : Type ℓ} {B : Type κ} → Result A → (A → Result B) → Result B
err raised >>= next = err raised
ok value >>= next = next value

-- A statement whose value is not used.
abbrev pub ◌>>◌ {ℓ} : {B : Type ℓ} → Result (Unit {0}) → Result B → Result B
first >> next = first >>= λ done. next

-- `if c: raise e`
abbrev pub raise_if : Bool → Error → Result (Unit {0})
raise_if true e = err e
raise_if false e = ok tt

-- SQLAlchemy's `Result.scalar_one_or_none` on the rows of a query. It is a parameter of the models.
abbrev pub OneOrNone : Type 1
OneOrNone = (A : Type 0) → List A → Result (Option A)

-- The documented behaviour: nothing for no row, the row if there is one, an exception otherwise.
pub record IsOneOrNone (one : OneOrNone) : Type 1 where
  pub no_row : (A : Type 0) → one A [] ≡ ok none
  pub one_row : (A : Type 0) (a : A) → one A (a ∷ []) ≡ ok (some a)
  pub many_rows :
      (A : Type 0) (a b : A) (rows : List A) → one A (a ∷ b ∷ rows) ≡ err multiple_results

-- A function with that behaviour, for proofs and tests.
abbrev pub only_row : OneOrNone
only_row A [] = ok none
only_row A (a ∷ []) = ok (some a)
only_row A (a ∷ b ∷ rows) = err multiple_results

only_row_at :
    (one : OneOrNone)
    → IsOneOrNone one
    → (A : Type 0) (rows : List A) → one A rows ≡ only_row A rows
only_row_at one law A [] = law.no_row A
only_row_at one law A (a ∷ []) = law.one_row A a
only_row_at one law A (a ∷ b ∷ rows) = law.many_rows A a b rows

-- That behaviour determines the function, so a proof may compute with `only_row`.
pub eq-only_row : (one : OneOrNone) → IsOneOrNone one → one ≡ only_row
eq-only_row one law = fun_ext (λ A. fun_ext (λ rows. only_row_at one law A rows))

pub only_row-IsOneOrNone : IsOneOrNone only_row
only_row-IsOneOrNone = record {
  no_row = λ A. refl;
  one_row = λ A a. refl;
  many_rows = λ A a b rows. refl;
}

pub Result-cases {ℓ} :
    {A : Type ℓ} (r : Result A) → ((a : A) × (r ≡ ok a)) ⊎ ((e : Error) × (r ≡ err e))
Result-cases (ok a) = inl (a, refl)
Result-cases (err e) = inr (e, refl)

from_ok {ℓ} : {A : Type ℓ} → A → Result A → A
from_ok a (ok b) = b
from_ok a (err e) = a

pub ok-injective {ℓ} : {A : Type ℓ} {a b : A} → ok a ≡ ok b → a ≡ b
unfolding from_ok
ok-injective {A = A} {a = a} {b = b} e = ap (from_ok a) e

is_ok {ℓ} : {A : Type ℓ} → Result A → Bool
is_ok (ok a) = true
is_ok (err e) = false

pub ok≢err {ℓ} : {A : Type ℓ} {a : A} {e : Error} → ok a ≢ err e
unfolding is_ok
ok≢err {a = a} h = true≢false (ap is_ok h)

err≢ok {ℓ} : {A : Type ℓ} {a : A} {e : Error} → err e ≢ ok a
unfolding is_ok
err≢ok {a = a} h = true≢false (sym (ap is_ok h))

-- What a sequence of calls that returns says of its first call.
pub bind-ok {ℓ κ ι} :
    {A : Type ℓ} {B : Type κ} {P : Type ι} (m : Result A) (next : A → Result B) {b : B}
    → (m >>= next) ≡ ok b
    → ((a : A) → m ≡ ok a → next a ≡ ok b → P)
    → P
bind-ok (ok a) next h use_it = use_it a refl h
bind-ok (err e) next h use_it = absurd (err≢ok h)

pub raise_if-ok {ℓ κ} :
    {B : Type ℓ} {P : Type κ} (c : Bool) (e : Error) (next : Result B) {b : B}
    → (raise_if c e >> next) ≡ ok b
    → (c ≡ false → next ≡ ok b → P)
    → P
raise_if-ok true e next h use_it = absurd (err≢ok h)
raise_if-ok false e next h use_it = use_it refl h

-- `except ValueError` or `except Exception` around a call: the request ends with this error.
abbrev pub except_as {ℓ} : {A : Type ℓ} → Error → Result A → Result A
except_as e (err raised) = err e
except_as e (ok a) = ok a

pub except_as-ok {ℓ} :
    {A : Type ℓ} (e : Error) (m : Result A) {a : A} → except_as e m ≡ ok a → m ≡ ok a
except_as-ok e (ok a) h = h
except_as-ok e (err raised) h = absurd (err≢ok h)

-- What a query that returned has found.
pub only_row-some :
    {A : Type 0} (rows : List A) {a : A} → only_row A rows ≡ ok (some a) → rows ≡ a ∷ []
only_row-some [] h = ground arith
only_row-some (b ∷ []) h = ground arith
only_row-some (b ∷ c ∷ rows) h = ground arith

pub only_row-none : {A : Type 0} (rows : List A) → only_row A rows ≡ ok none → rows ≡ []
only_row-none [] h = refl
only_row-none (b ∷ []) h = ground arith
only_row-none (b ∷ c ∷ rows) h = ground arith
