-- ===== src/Session/Revocation.antt =====
-- Which sessions a refresh token still opens.
use python_fastapi_multiauth.Common.{
  ℕ, ◌≤◌, ◌≡◌, refl, sym, ap, ◌∙◌, ◌≢◌, Bool, true, false, Option, none, some, List, [], ◌∷◌, arith,
  inl, inr, ==_iff, Bool-cases, List-cases, Option-cases, Result, ok, err, Error, OneOrNone,
  IsOneOrNone, only_row, eq-only_row, select, select-holds, select-never, length, update_where,
  update_where-none, ◌&&◌, ◌==◌, save, has_key, All, All-select,
}
use mathlib.Core.Path.{subst}
use python_fastapi_multiauth.Session.Service.{
  UserSession, Db, session_key, open_session, first_fit, get_session_by_token, revoke,
  revoke_session, is_valid, get_user_sessions, revocable, revoke_all_user_sessions,
}

first_fit-All :
    (P : UserSession → Type 0) (verify : ℕ → ℕ → Bool) (token : ℕ) (rows : List UserSession)
    (s : UserSession)
    → All P rows
    → first_fit verify token rows ≡ some s
    → P s × (verify token s.token_hash ≡ true)
unfolding first_fit
first_fit-All P verify token [] s h e = ground arith
first_fit-All P verify token (x ∷ rows) s h e = elim (Bool-cases (verify token x.token_hash)) [
  | inl fits ↦ let same : x ≡ s = ground arith in (subst P same h.0, rw (← same) fits)
  | inr other ↦ first_fit-All P verify token rows s h.1 (rw other at e)
]

-- A lookup by token returns a session only if the token fits it and it is open and not expired.
found-facts :
    (P : UserSession → Type 0) (verify : ℕ → ℕ → Bool) (now used token : ℕ) (db : Db)
    (s : UserSession)
    → All (λ r. open_session r ≡ true → P r) db
    → (get_session_by_token verify now used token db).0 ≡ some s
    → (r : UserSession) × P r
      × (verify token r.token_hash ≡ true)
      × (is_valid now r ≡ true)
      × (s ≡ record r { last_activity = used })
unfolding get_session_by_token
found-facts P verify now used token db s h e =
    elim (Option-cases (first_fit verify token (select open_session db))) [
      | inl absent ↦ absurd (ground arith)
      | inr (r, found) ↦
          let facts =
            first_fit-All P verify token (select open_session db) r (All-select P open_session db h)
              found in
          (r, facts.0, facts.1, ground arith, ground arith)
    ]

revoked-closed :
    (now : ℕ) (s : UserSession) (db : Db)
    → All (λ r. open_session r ≡ true → r.id ≢ s.id) (save session_key (revoke now s) db)
unfolding open_session revoke
revoked-closed now s [] = tt
revoked-closed now s (x ∷ db) = (λ is_open. ground arith, revoked-closed now s db)

revoke_session-saves :
    (now id : ℕ) (db db' : Db)
    → revoke_session only_row now id db ≡ ok (true, db')
    → (s : UserSession) × (s.id ≡ id) × (db' ≡ save session_key (revoke now s) db)
unfolding revoke_session
revoke_session-saves now id db db' e = elim (List-cases (select (has_key session_key id) db)) [
  | inl absent ↦ absurd (ground arith)
  | inr (s, rest, found) ↦
      let matches = select-holds (has_key session_key id) db {q = s} {rest = rest} found in
      (
        s,
        (==_iff s.id id).0 matches,
        elim (List-cases rest) [ inl single ↦ ground arith | inr more ↦ absurd (ground arith) ],
      )
]

any-open : (db : Db) → All (λ r. open_session r ≡ true → Unit {0}) db
any-open [] = tt
any-open (x ∷ db) = (λ e. tt, any-open db)

-- A session that a refresh token opens is active, not revoked and not expired, the token fits its
-- hash, and its last activity is the time of the lookup.
opened_session :
    (verify : ℕ → ℕ → Bool) (now used token : ℕ) (db : Db) (s : UserSession)
    → (get_session_by_token verify now used token db).0 ≡ some s
    → (s.is_active ≡ true)
      × (s.revoked ≡ false)
      × (now ≤ s.expires_at)
      × (verify token s.token_hash ≡ true)
      × (s.last_activity ≡ used)
unfolding is_valid
opened_session verify now used token db s e =
    let facts = found-facts (λ r. Unit) verify now used token db s (any-open db) e in
    let (r, t, fits, valid, same) = facts in
    (
      rw same (ground arith),
      rw same (ground arith),
      rw same (ground arith),
      rw same fits,
      rw same refl,
    )

module _ (one : OneOrNone) (law : IsOneOrNone one) where
  -- After a session has been revoked, no token opens it at any later lookup.
  pub revoked_never_opens :
      (verify : ℕ → ℕ → Bool) (now id later used token : ℕ) (db db' : Db) (s : UserSession)
      → revoke_session one now id db ≡ ok (true, db')
      → (get_session_by_token verify later used token db').0 ≡ some s
      → s.id ≢ id
  revoked_never_opens verify now id later used token db db' s = rw (eq-only_row one law) λ e found.
      let (r, same, saved) = revoke_session-saves now id db db' e in
      let closed = revoked-closed now r db in
      let facts =
        found-facts (λ x. x.id ≢ r.id) verify later used token db' s (rw saved closed) found in
      let (x, ne, fits, valid, is) = facts in
      λ eq. ne (sym (ap (λ (y : UserSession). y.id) is) ∙ eq ∙ sym same)

revocable-false :
    (user : ℕ) (except_id : Option ℕ) (s : UserSession) → revocable false user except_id s ≡ false
unfolding revocable
revocable-false user except_id s = ground arith

current-none : (user : ℕ) (s : UserSession) → (s.user_id == user && (s.is_active && false)) ≡ false
current-none user s = ground arith

-- After the loop with the constant `true` an active session of the user is the one kept.
loop-revokes :
    (now user : ℕ) (except_id : Option ℕ) (db : Db)
    → All
        (λ s. s.user_id ≡ user → s.is_active ≡ true → except_id ≡ some s.id)
        (update_where (revocable true user except_id) (revoke now) db)
unfolding revocable revoke
loop-revokes now user except_id [] = tt
loop-revokes now user none (s ∷ db) = (λ mine active. ground arith, loop-revokes now user none db)
loop-revokes now user (some kept) (s ∷ db) =
    (λ mine active. ground arith, loop-revokes now user (some kept) db)

-- `not UserSession.revoked` is one constant for all rows, so the calls that use it cannot tell a
-- revoked session from another. If asking for the truth value raises, both calls raise. If the value
-- is true, revoking all of a user's sessions revokes none and the list of his current sessions is
-- empty. Only if it is false does the user keep no active session but the excepted one.
revocation_by_truth :
    (truth : Result Bool) (now user : ℕ) (except_id : Option ℕ) (db : Db)
    → ((e : Error)
        → truth ≡ err e
        → (revoke_all_user_sessions truth now user except_id db ≡ err e)
          × (get_user_sessions truth now user false db ≡ err e))
      × (truth ≡ ok true
          → (revoke_all_user_sessions truth now user except_id db ≡ ok (0, db))
            × (get_user_sessions truth now user false db ≡ ok []))
      × (truth ≡ ok false
          → (n : ℕ) × (db' : Db) × (revoke_all_user_sessions truth now user except_id db
              ≡ ok (n, db'))
            × All (λ s. s.user_id ≡ user → s.is_active ≡ true → except_id ≡ some s.id) db')
unfolding revoke_all_user_sessions get_user_sessions
revocation_by_truth truth now user except_id db = (
  λ e raises. (rw raises refl, rw raises refl),
  λ truthy. (
    rw
        (
          truthy,
          select-never _ db (revocable-false user except_id),
          update_where-none _ (revoke now) db (select-never _ db (revocable-false user except_id)),
        )
        refl,
    rw (truthy, select-never _ db (current-none user)) refl,
  ),
  λ falsy. (
    length (select (revocable true user except_id) db),
    update_where (revocable true user except_id) (revoke now) db,
    rw falsy refl,
    loop-revokes now user except_id db,
  ),
)
