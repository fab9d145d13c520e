-- ===== src/Files/Listing.antt =====
-- One page of `list_files` in app/api/v1/endpoints/files.py, in whatever order the database returns the
-- rows.
use python_fastapi_multiauth.Common.{
  ℕ, zero, suc, ◌+◌, ◌-◌, ◌*◌, ◌/◌, ◌≤◌, ◌<◌, ◌≡◌, refl, ap, ◌∙◌, ◌↔◌, Bool, List, [], ◌∷◌, length,
  select, arith, ltb, leb, Bool-cases, inl, inr, if◌then◌else◌,
}
use mathlib.Core.List.{Permᴰ}
use native.Mathlib.Nat.{div-add-mod', mod-lt}
use native.Mathlib.Numerals.{unary_clauses}
use python_fastapi_multiauth.Files.Stream.{take, drop}
use python_fastapi_multiauth.Files.Model.{File}
use python_fastapi_multiauth.Files.Access.{listed, list_files}

-- The documented behaviour of a query without ORDER BY: the rows, in some order.
abbrev pub IsOrder : (List File → List File) → Type 0
IsOrder in_order = (rows : List File) → Permᴰ (in_order rows) rows

length-take :
    (n : ℕ) (fs : List File) → length (take n fs) ≡ (if ltb (length fs) n then length fs else n)
length-take zero fs = ground arith
length-take (suc n) [] = ground arith
length-take (suc n) (f ∷ fs) = ground (arith, length-take n fs)

length-drop : (n : ℕ) (fs : List File) → length (drop n fs) ≡ length fs - n
length-drop zero fs = omega arith
length-drop (suc n) [] = omega arith
length-drop (suc n) (f ∷ fs) = omega (arith, length-drop n fs)

length-Perm : {fs gs : List File} → Permᴰ fs gs → length fs ≡ length gs
length-Perm Permᴰ.nil = refl
length-Perm (Permᴰ.cons e d) = ap (λ n. suc n) (length-Perm d)
length-Perm (Permᴰ.swap e e') = refl
length-Perm (Permᴰ.trans d d') = length-Perm d ∙ length-Perm d'

module _ (p : File → Bool) where
  count-take : (n : ℕ) (fs : List File) → length (select p (take n fs)) ≤ length (select p fs)
  count-take zero fs = omega arith
  count-take (suc n) [] = omega arith
  count-take (suc n) (f ∷ fs) = ground (arith, count-take n fs)

  count-drop : (n : ℕ) (fs : List File) → length (select p (drop n fs)) ≤ length (select p fs)
  count-drop zero fs = omega arith
  count-drop (suc n) [] = omega arith
  count-drop (suc n) (f ∷ fs) = ground (arith, count-drop n fs)

  count-Perm : {fs gs : List File} → Permᴰ fs gs → length (select p fs) ≡ length (select p gs)
  count-Perm Permᴰ.nil = refl
  count-Perm (Permᴰ.cons e d) = ground (arith, e, count-Perm d)
  count-Perm (Permᴰ.swap e e') = ground (arith, e, e')
  count-Perm (Permᴰ.trans d d') = count-Perm d ∙ count-Perm d'

mul_mono : (a b size : ℕ) → a ≤ b → a * size ≤ b * size
mul_mono zero b size h = omega arith
mul_mono (suc a) zero size h = absurd (omega arith)
mul_mono (suc a) (suc b) size h = omega (arith, mul_mono a b size (omega arith))

pred-mul : (page size : ℕ) → 1 ≤ page → (page - 1) * size + size ≡ page * size
pred-mul zero size one = absurd (omega arith)
pred-mul (suc page) size one =
    let before : (suc page - 1) * size ≡ page * size = simp unary_clauses refl in
    omega (arith, before)

-- Page `page` begins before the end just if it is one of the `ceil(total / page_size)` pages.
page-begins :
    (total page page_size : ℕ)
    → 1 ≤ page
    → 0 < page_size
    → (page ≤ (total + page_size - 1) / page_size) ↔ (0 < total - (page - 1) * page_size)
page-begins total page size one h =
    let pages = (total + size - 1) / size in
    let whole = div-add-mod' (total + size - 1) size in
    let rest = mod-lt (total + size - 1) h in
    (
      λ within. omega (arith, whole, rest, mul_mono page pages size within, pred-mul page size one),
      λ begins. elim (Bool-cases (leb page pages)) [
        | inl within ↦ ground arith
        | inr past ↦
            let all = mul_mono pages (page - 1) size (ground (arith, past)) in
            absurd (omega (arith, whole, rest, all))
      ],
    )

-- The number of the items that are left, up to the size of a page.
items_in_range :
    (total page page_size : ℕ)
    → 1 ≤ page
    → 0 < page_size
    → let left = total - (page - 1) * page_size in
      (page ≤ (total + page_size - 1) / page_size)
      ↔ (0 < (if ltb left page_size then left else page_size))
items_in_range total page size one h =
    let (before, after) = page-begins total page size one h in
    (λ within. ground (arith, before within), λ some_item. after (ground arith))

-- In whatever order the database returns the rows to a request: every test, so that of being a certain
-- file, is met by at most as many items of the page as there are among the user's files that are not
-- deleted; the page has the items that are left at its offset, up to its size, so that it has one just
-- if it is within the number of pages; and the total is the number of the files.
pub list_files-page :
    (in_order : List File → List File) (law : IsOrder in_order) (p : File → Bool)
    (user page page_size : ℕ) (files : List File)
    → 1 ≤ page
    → 0 < page_size
    → let found = select (listed user) files in
      let response = list_files in_order user page page_size files in
      let left = length found - (page - 1) * page_size in
      (length (select p response.items) ≤ length (select p found))
      × (length response.items ≡ (if ltb left page_size then left else page_size))
      × ((page ≤ response.pages) ↔ (0 < length response.items))
      × (response.total ≡ length found)
unfolding list_files
list_files-page in_order law p user page page_size files one h =
    let found = select (listed user) files in
    let rows = in_order found in
    let skip = (page - 1) * page_size in
    let size =
      length-take page_size (drop skip rows)
      ∙ ap (λ n. if ltb n page_size then n else page_size)
          (length-drop skip rows ∙ ap (λ n. n - skip) (length-Perm (law found))) in
    (
      omega (
        arith,
        count-take p page_size (drop skip rows),
        count-drop p skip rows,
        count-Perm p (law found),
      ),
      size,
      rw size (items_in_range (length found) page page_size one h),
      refl,
    )
