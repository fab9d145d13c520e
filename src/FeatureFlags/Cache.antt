-- ===== src/FeatureFlags/Cache.antt =====
-- The cache of flags never changes an answer, as long as each change of a flag and the deletion of
-- its cache entry are not separated by a read.
use python_fastapi_multiauth.Common.{
  ℕ, ◌≡◌, refl, ap, ◌≢◌, Bool, false, Option, none, some, List, [], ◌∷◌, ◌++◌, arith, Bool-cases,
  Option-cases, List-cases, Result-cases, inl, inr, err, Error, if◌then◌else◌, ◌==◌, Result, ok,
  ◌>>=◌, OneOrNone, IsOneOrNone, only_row, eq-only_row, select, select-append, select-save_other,
  select-delete_other, Distinct, Distinct-save, Distinct-append, Distinct-delete, save, has_key,
}
use mathlib.Core.Path.{subst}
use mathlib.Core.List.{append-nil}
use python_fastapi_multiauth.Common.Int.{ℤ}
use python_fastapi_multiauth.FeatureFlags.Service.{
  TargetingRules, FeatureFlag, Snapshot, snapshot, from_cached, Cache, cache_get, cache_delete,
  cache_set, Db, named, flag_id, decide, create_flag, with_status, with_rollout, save_flag,
  update_flag, update_flag_targeting, delete_flag, get_flag_by_name, load_flag, is_enabled,
}

get-delete :
    (n k : ℕ) (cache : Cache)
    → cache_get n (cache_delete k cache) ≡ (if n == k then none else cache_get n cache)
unfolding cache_get cache_delete
get-delete n k [] = ground arith
get-delete n k ((m, c) ∷ cache) = ground (arith, get-delete n k cache)

get-set :
    (n k : ℕ) (c : Snapshot) (cache : Cache)
    → cache_get n (cache_set k c cache) ≡ (if n == k then some c else cache_get n cache)
unfolding cache_get cache_set
get-set n k c cache = ground (arith, get-delete n k cache)

-- Each cached entry is that of the one flag with its name.
abbrev pub Coherent : List FeatureFlag → Cache → Type 0
Coherent flags cache =
    (name : ℕ) (c : Snapshot)
    → cache_get name cache ≡ some c
    → (f : FeatureFlag) × (select (named name) flags ≡ f ∷ []) × (snapshot f ≡ c)

-- Deleting an entry, and any change of the flags that leaves the other names' rows.
delete-Coherent :
    (k : ℕ) (flags flags' : List FeatureFlag) (cache : Cache)
    → ((o : ℕ) → o ≢ k → select (named o) flags' ≡ select (named o) flags)
    → Coherent flags cache
    → Coherent flags' (cache_delete k cache)
delete-Coherent k flags flags' cache same h name c e = elim (Bool-cases (name == k)) [
  | inl hit ↦ absurd (ground (arith, get-delete name k cache))
  | inr miss ↦
      let (f, row, snap) = h name c (ground (arith, get-delete name k cache)) in
      (f, rw (same name (ground arith)) row, snap)
]

set-Coherent :
    (k : ℕ) (f : FeatureFlag) (flags : List FeatureFlag) (cache : Cache)
    → select (named k) flags ≡ f ∷ []
    → Coherent flags cache
    → Coherent flags (cache_set k (snapshot f) cache)
set-Coherent k f flags cache row h name c e = elim (Bool-cases (name == k)) [
  | inl hit ↦
      let same : name ≡ k = ground arith in
      (f, rw same row, ground (arith, get-set name k (snapshot f) cache))
  | inr miss ↦ h name c (ground (arith, get-set name k (snapshot f) cache))
]

decide-cached :
    (bucket : ℕ → ℕ) (f : FeatureFlag) (name : ℕ) (user email : Option ℕ)
    → decide bucket (from_cached name (snapshot f)) user email ≡ decide bucket f user email
unfolding decide from_cached
decide-cached bucket f name (some u) (some e) = refl
decide-cached bucket f name (some u) none = refl
decide-cached bucket f name none e = refl

-- The answer that the table gives, with no cache.
abbrev pub answer : (ℕ → ℕ) → ℕ → Option ℕ → Option ℕ → List FeatureFlag → Result Bool
answer bucket name user email flags = do
  found ← only_row FeatureFlag (select (named name) flags)
  ok (elim found [ none ↦ false | some f ↦ decide bucket f user email ])

answered :
    (bucket : ℕ → ℕ) (name : ℕ) (user email : Option ℕ) (b : Bool) (db : Db)
    → Coherent db.flags db.cache
    → answer bucket name user email db.flags ≡ ok b
    → (db' : Db) × (is_enabled only_row bucket name user email db ≡ ok (b, db'))
      × (db'.flags ≡ db.flags)
      × Coherent db'.flags db'.cache
unfolding is_enabled load_flag get_flag_by_name
answered bucket name user email b db h e = elim (Option-cases (cache_get name db.cache)) [
  | inr (c, hit) ↦
      let (f, row, snap) = h name c hit in
      let cached : decide bucket (from_cached name c) user email ≡ decide bucket f user email =
        subst
          (λ (x : Snapshot).
            decide bucket (from_cached name x) user email ≡ decide bucket f user email)
          snap (decide-cached bucket f name user email) in
      (db, rw (hit, is_enabled) (ground arith), refl, h)
  | inl miss ↦ elim (List-cases (select (named name) db.flags)) [
    | inl absent ↦ (db, ground arith, refl, h)
    | inr (f, rest, found) ↦ elim (List-cases rest) [
      | inl single ↦ (
        record db { cache = cache_set name (snapshot f) db.cache },
        ground arith,
        refl,
        set-Coherent name f db.flags db.cache (ground arith) h,
      )
      | inr more ↦ absurd (ground arith)
    ]
  ]
]

-- What happens to the table and the cache, one call at a time. Names and ids are unique columns.
pub data Step (one : OneOrNone) (bucket : ℕ → ℕ) : Db → Db → Type 0 where
  asks :
      (name : ℕ) (user email : Option ℕ) (b : Bool) (db db' : Db)
      → is_enabled one bucket name user email db ≡ ok (b, db')
      → Step one bucket db db'
  creates :
      (new_id name : ℕ) (enabled : Bool) (db : Db)
      → select (named name) db.flags ≡ []
      → select (has_key flag_id new_id) db.flags ≡ []
      → Step one bucket db (create_flag new_id name enabled db).1
  updates :
      (f : FeatureFlag) (status : Option Bool) (rollout : Option ℤ) (db : Db)
      → select (named f.name) db.flags ≡ f ∷ []
      → Step one bucket db (update_flag f status rollout db).1
  retargets :
      (f : FeatureFlag) (rules : TargetingRules) (db : Db)
      → select (named f.name) db.flags ≡ f ∷ []
      → Step one bucket db (update_flag_targeting f rules db).1
  deletes :
      (f : FeatureFlag) (db : Db)
      → select (named f.name) db.flags ≡ f ∷ []
      → Step one bucket db (delete_flag f db)
  -- an entry runs out
  expires :
      (name : ℕ) (db : Db) → Step one bucket db (record db { cache = cache_delete name db.cache })

pub data Reach (one : OneOrNone) (bucket : ℕ → ℕ) (start : Db) : Db → Type 0 where
  here : Reach one bucket start start
  next :
      {db db' : Db}
      → Reach one bucket start db
      → Step one bucket db db'
      → Reach one bucket start db'

pub record IsSound (db : Db) : Type 0 where
  pub distinct : Distinct flag_id db.flags
  pub coherent : Coherent db.flags db.cache

save_flag-IsSound :
    (f f' : FeatureFlag) (db : Db)
    → select (named f.name) db.flags ≡ f ∷ []
    → f'.id ≡ f.id
    → f'.name ≡ f.name
    → IsSound db
    → IsSound (save_flag f' db)
unfolding save_flag
save_flag-IsSound f f' db row same_id same_name h = record {
  distinct = Distinct-save flag_id f' db.flags h.distinct;
  coherent =
      delete-Coherent f'.name db.flags (save flag_id f' db.flags) db.cache
        (λ o ne.
          select-save_other flag_id (named f.name) (named o) f f' db.flags h.distinct row same_id
            (ground arith) (ground arith))
        h.coherent;
}

delete_flag-IsSound :
    (f : FeatureFlag) (db : Db)
    → select (named f.name) db.flags ≡ f ∷ []
    → IsSound db
    → IsSound (delete_flag f db)
unfolding delete_flag
delete_flag-IsSound f db row h = record {
  distinct = Distinct-delete flag_id f.id db.flags h.distinct;
  coherent =
      delete-Coherent f.name db.flags _ db.cache
        (λ o ne.
          select-delete_other flag_id (named f.name) (named o) f db.flags h.distinct row
            (ground arith))
        h.coherent;
}

create_flag-IsSound :
    (new_id name : ℕ) (enabled : Bool) (db : Db)
    → select (has_key flag_id new_id) db.flags ≡ []
    → IsSound db
    → IsSound (create_flag new_id name enabled db).1
unfolding create_flag
create_flag-IsSound new_id name enabled db fresh h =
    let new = (create_flag new_id name enabled db).0 in
    record {
      distinct = Distinct-append flag_id new db.flags h.distinct fresh;
      coherent =
          delete-Coherent name db.flags (db.flags ++ new ∷ []) db.cache
            (λ o ne. ground (
              arith,
              select-append (named o) db.flags (new ∷ []),
              append-nil (select (named o) db.flags),
            ))
            h.coherent;
    }

kept_columns :
    (status : Option Bool) (rollout : Option ℤ) (f : FeatureFlag)
    → let f' = with_rollout rollout (with_status status f) in (f'.id ≡ f.id) × (f'.name ≡ f.name)
unfolding with_rollout with_status
kept_columns status rollout f = ground arith

no_answer :
    (bucket : ℕ → ℕ) (name : ℕ) (user email : Option ℕ) (why : Error) (db : Db)
    → Coherent db.flags db.cache
    → answer bucket name user email db.flags ≡ err why
    → is_enabled only_row bucket name user email db ≡ err why
unfolding is_enabled load_flag get_flag_by_name
no_answer bucket name user email why db h e = elim (Option-cases (cache_get name db.cache)) [
  | inl miss ↦ rw (miss, is_enabled) (ground arith)
  | inr (c, hit) ↦ let (f, row, snap) = h name c hit in absurd (ground arith)
]

asks-IsSound :
    (bucket : ℕ → ℕ) (name : ℕ) (user email : Option ℕ) (b : Bool) (db db' : Db)
    → IsSound db
    → is_enabled only_row bucket name user email db ≡ ok (b, db')
    → (answer bucket name user email db.flags ≡ ok b) × IsSound db'
asks-IsSound bucket name user email b db db' h e =
    elim (Result-cases (answer bucket name user email db.flags)) [
      | inl (b', yes_b) ↦
          let (db2, e2, flags, coherent) = answered bucket name user email b' db h.coherent yes_b in
          let same_b : b' ≡ b = ground arith in
          let same : db2 ≡ db' = ground arith in
          (
            rw yes_b (ap {B = Result Bool} ok same_b),
            rw (← same) (record { distinct = rw flags h.distinct; coherent = coherent }),
          )
      | inr (why, no_b) ↦
          absurd (ground (arith, no_answer bucket name user email why db h.coherent no_b))
    ]

module _ (one : OneOrNone) (law : IsOneOrNone one) (bucket : ℕ → ℕ) where
  Step-IsSound : {db db' : Db} → Step one bucket db db' → IsSound db → IsSound db'
  unfolding update_flag update_flag_targeting
  Step-IsSound (asks name user email b db db' e) h =
      (asks-IsSound bucket name user email b db db' h (rw (eq-only_row one law) at e)).1
  Step-IsSound (creates new_id name enabled db unnamed fresh) h =
      create_flag-IsSound new_id name enabled db fresh h
  Step-IsSound (updates f status rollout db row) h =
      let (i, n) = kept_columns status rollout f in
      save_flag-IsSound f (with_rollout rollout (with_status status f)) db row i n h
  Step-IsSound (retargets f rules db row) h =
      save_flag-IsSound f (record f { targeting_rules = rules }) db row refl refl h
  Step-IsSound (deletes f db row) h = delete_flag-IsSound f db row h
  Step-IsSound (expires name db) h = record {
    distinct = h.distinct;
    coherent = delete-Coherent name db.flags db.flags db.cache (λ o ne. refl) h.coherent;
  }

  Reach-IsSound : {start db : Db} → IsSound start → Reach one bucket start db → IsSound db
  Reach-IsSound h here = h
  Reach-IsSound h (next r s) = Step-IsSound s (Reach-IsSound h r)

  -- From a state in which every cached entry is its flag's (an empty cache, for one), after any
  -- sequence of queries, changes and expiries of entries, a query answers exactly as the table does
  -- without a cache: whenever the table has an answer, the query gives it.
  pub cache_transparent :
      {start db : Db} (name : ℕ) (user email : Option ℕ) (b : Bool)
      → IsSound start
      → Reach one bucket start db
      → answer bucket name user email db.flags ≡ ok b
      → (db' : Db) × (is_enabled one bucket name user email db ≡ ok (b, db'))
  cache_transparent {start} {db} name user email b h r e =
      let sound = Reach-IsSound h r in
      let (db', found, _, _) = answered bucket name user email b db sound.coherent e in
      rw (eq-only_row one law) (db', found)
