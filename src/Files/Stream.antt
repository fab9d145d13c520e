-- ===== src/Files/Stream.antt =====
-- File objects that are read in chunks (app/services/storage.py, app/api/v1/endpoints/files.py). A file
-- object holds its bytes and what is still unread; the code only seeks to the start.
use python_fastapi_multiauth.Common.{
  ℕ, ◌+◌, ◌≤◌, ◌<◌, ◌≡◌, refl, ap, ◌∙◌, zero, suc, Bool, true, false, List, [], ◌∷◌, ◌++◌, length,
  if◌then◌else◌, ltb, leb, Result, ok, err, http, List-cases, inl, inr, arith,
}

abbrev pub take {ℓ} : {A : Type ℓ} → ℕ → List A → List A
take zero xs = []
take (suc n) [] = []
take (suc n) (x ∷ xs) = x ∷ take n xs

abbrev pub drop {ℓ} : {A : Type ℓ} → ℕ → List A → List A
drop zero xs = xs
drop (suc n) [] = []
drop (suc n) (x ∷ xs) = drop n xs

pub record FileObject : Type 0 where
  pub content : List ℕ
  pub unread : List ℕ

-- `file.read(n)`
abbrev pub read : ℕ → FileObject → List ℕ × FileObject
read n f = (take n f.unread, record f { unread = drop n f.unread })

-- `file.seek(0)`
unfoldable pub seek_start : FileObject → FileObject
seek_start f = record f { unread = f.content }

-- A sequence as a test: whether it has an element.
abbrev pub truthy {ℓ} : {A : Type ℓ} → List A → Bool
truthy [] = false
truthy (x ∷ xs) = true

-- `while chunk := file.read(chunk_size): ...` with what is kept between the rounds, at most `fuel` of them.
unfoldable pub each_chunk :
    {S : Type 0} → (S → List ℕ → S) → (fuel chunk_size : ℕ) → FileObject → S → S × FileObject
each_chunk step zero chunk_size f s = (s, f)
each_chunk step (suc fuel) chunk_size f s =
    let (chunk, f) = read chunk_size f in
    let rest = each_chunk step fuel chunk_size f (step s chunk) in
    if truthy chunk then rest else (s, f)

-- The loop of `upload_file` that adds up the size and stops above the maximum.
unfoldable pub stream_size :
    (fuel chunk_size max_file_size : ℕ) → FileObject → (file_size : ℕ) → Result ℕ
stream_size zero chunk_size max f file_size = ok file_size
stream_size (suc fuel) chunk_size max f file_size =
    let (chunk, f) = read chunk_size f in
    let size = file_size + length chunk in
    let rest = stream_size fuel chunk_size max f size in
    if truthy chunk then (if ltb max size then err (http "413") else rest) else ok file_size

take-drop : (n : ℕ) (xs : List ℕ) → take n xs ++ drop n xs ≡ xs
take-drop zero xs = refl
take-drop (suc n) [] = refl
take-drop (suc n) (x ∷ xs) = ap (λ ys. x ∷ ys) (take-drop n xs)

length-take-drop : (n : ℕ) (xs : List ℕ) → length (take n xs) + length (drop n xs) ≡ length xs
length-take-drop zero xs = omega arith
length-take-drop (suc n) [] = omega arith
length-take-drop (suc n) (x ∷ xs) = omega (arith, length-take-drop n xs)

-- A chunk is empty only at the end.
end-unread : (n : ℕ) (xs : List ℕ) → 0 < n → take n xs ≡ [] → xs ≡ []
end-unread zero xs h e = absurd (omega arith)
end-unread (suc n) [] h e = refl
end-unread (suc n) (x ∷ xs) h e = ground arith

drop-nothing : (n : ℕ) → drop {A = ℕ} n [] ≡ []
drop-nothing zero = refl
drop-nothing (suc n) = refl

shorter :
    (n : ℕ) (xs : List ℕ) {c : ℕ} {cs : List ℕ} (fuel : ℕ)
    → take n xs ≡ c ∷ cs
    → length xs < suc fuel
    → length (drop n xs) < fuel
shorter n xs {c} {cs} fuel more enough = omega (arith, length-take-drop n xs, ap length more)

-- One round with a chunk that is not empty.
stream_size-round :
    (fuel chunk_size max : ℕ) (f : FileObject) (size : ℕ) {c : ℕ} {cs : List ℕ}
    → take chunk_size f.unread ≡ c ∷ cs
    → let size' = size + length (take chunk_size f.unread) in
      stream_size (suc fuel) chunk_size max f size ≡ (
        if ltb max size'
        then err (http "413")
        else stream_size fuel chunk_size max (record f { unread = drop chunk_size f.unread }) size')
unfolding stream_size
stream_size-round fuel chunk_size max f size {c} {cs} more = rw (stream_size, ap truthy more) refl

pub stream_size-total :
    (fuel chunk_size max : ℕ) (f : FileObject) (size : ℕ)
    → 0 < chunk_size
    → length f.unread < fuel
    → size ≤ max
    → stream_size fuel chunk_size max f size
      ≡ (if leb (size + length f.unread) max then ok (size + length f.unread) else err (http "413"))
unfolding stream_size
stream_size-total zero chunk_size max f size pos enough fits = absurd (omega arith)
stream_size-total (suc fuel) chunk_size max f size pos enough fits =
    let next = record f { unread = drop chunk_size f.unread } in
    let parts = length-take-drop chunk_size f.unread in
    elim (List-cases (take chunk_size f.unread)) [
      | inl done ↦ rw (stream_size, done) (ground (arith, end-unread chunk_size f.unread pos done))
      | inr (c, cs, more) ↦ rw (stream_size-round fuel chunk_size max f size more) (
          ground (
            arith,
            parts,
            ap length more,
            shorter chunk_size f.unread fuel more enough,
            stream_size-total fuel chunk_size max next (size + length (take chunk_size f.unread))
                pos,
          ))
    ]

module _ {S : Type 0} (step : S → List ℕ → S) (step_nothing : (s : S) → step s [] ≡ s)
    (step_append : (s : S) (xs ys : List ℕ) → step (step s xs) ys ≡ step s (xs ++ ys)) where
  each_chunk-round :
      (fuel chunk_size : ℕ) (f : FileObject) (s : S) {c : ℕ} {cs : List ℕ}
      → take chunk_size f.unread ≡ c ∷ cs
      → each_chunk step (suc fuel) chunk_size f s
        ≡ each_chunk step fuel chunk_size
            (record f { unread = drop chunk_size f.unread })
            (step s (take chunk_size f.unread))
  unfolding each_chunk
  each_chunk-round fuel chunk_size f s {c} {cs} more = rw (each_chunk, ap truthy more) refl

  pub each_chunk-total :
      (fuel chunk_size : ℕ) (f : FileObject) (s : S)
      → 0 < chunk_size
      → length f.unread < fuel
      → each_chunk step fuel chunk_size f s ≡ (step s f.unread, record f { unread = [] })
  unfolding each_chunk
  each_chunk-total zero chunk_size f s pos enough = absurd (omega arith)
  each_chunk-total (suc fuel) chunk_size f s pos enough =
      let next = record f { unread = drop chunk_size f.unread } in
      elim (List-cases (take chunk_size f.unread)) [
        | inl done ↦
            rw
              (
                each_chunk,
                done,
                end-unread chunk_size f.unread pos done,
                drop-nothing chunk_size,
                step_nothing s,
              )
              refl
        | inr (c, cs, more) ↦
            each_chunk-round fuel chunk_size f s more
            ∙ each_chunk-total fuel chunk_size next (step s (take chunk_size f.unread)) pos
                (shorter chunk_size f.unread fuel more enough)
            ∙ ap (λ t. (t, record f { unread = [] }))
                (step_append s (take chunk_size f.unread) (drop chunk_size f.unread)
                  ∙ ap (step s) (take-drop chunk_size f.unread))
      ]
