-- ===== src/Session/Cleanup.antt =====
-- What the periodic clean-up deletes.
use python_fastapi_multiauth.Common.{
  ℕ, ◌+◌, ◌≡◌, refl, true, false, [], ◌∷◌, arith, not, select, delete_where, length,
}
use python_fastapi_multiauth.Session.Service.{
  UserSession, Db, is_valid, stale, cleanup_expired_sessions,
}

deleted-select :
    (now : ℕ) (db : Db) → delete_where (stale now) db ≡ select (λ s. not (stale now s)) db
deleted-select now [] = refl
deleted-select now (s ∷ db) = ground (arith, deleted-select now db)

deleted-length :
    (now : ℕ) (db : Db)
    → length (select (stale now) db) + length (delete_where (stale now) db) ≡ length db
deleted-length now [] = omega arith
deleted-length now (s ∷ db) = ground (arith, deleted-length now db)

valid-fresh : (now : ℕ) (s : UserSession) → is_valid now s ≡ true → stale now s ≡ false
unfolding is_valid stale
valid-fresh now s v = ground arith

valid-kept :
    (now : ℕ) (db : Db)
    → select (is_valid now) (delete_where (stale now) db) ≡ select (is_valid now) db
valid-kept now [] = refl
valid-kept now (s ∷ db) = ground (arith, valid-kept now db, valid-fresh now s)

-- The clean-up keeps exactly the sessions that have not been expired for more than 7 days nor been
-- revoked for more than 30, in their order; it reports the number that it deletes, and no session
-- that is valid at the time is among them.
cleanup_exact :
    (now : ℕ) (db : Db)
    → let (n, db') = cleanup_expired_sessions now db in
      (db' ≡ select (λ s. not (stale now s)) db)
      × (n + length db' ≡ length db)
      × (select (is_valid now) db' ≡ select (is_valid now) db)
unfolding cleanup_expired_sessions
cleanup_exact now db = (deleted-select now db, deleted-length now db, valid-kept now db)
