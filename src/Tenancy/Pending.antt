-- ===== src/Tenancy/Pending.antt =====
-- The queries for pending invitations, and a renewed invitation's token.
use python_fastapi_multiauth.Common.{
  ℕ, ◌≡◌, refl, Bool, false, none, some, [], ◌∷◌, ◌++◌, arith, ◌==◌, ok, OneOrNone, IsOneOrNone,
  only_row, eq-only_row, select, select-never, delete_where-never, select-save, select-save_other,
  select-misses, Distinct, select-holds, ◌+◌, ◌*◌,
}
use python_fastapi_multiauth.Tenancy.Model.{Invitation, Db}
use python_fastapi_multiauth.Tenancy.Organizations.{is_member, get_by_id}
use python_fastapi_multiauth.Tenancy.Invitations.{
  pending_for, expired, listed, list_organization_invitations, list_user_invitations,
  cleanup_expired_invitations, get_pending_invitation, create_invitation, new_invitation,
  invitation_key, invitation_is, resend_invitation, get_invitation_by_token, save_invitation,
  microseconds_per_day,
}

pending_for-false : (now org email : ℕ) (i : Invitation) → pending_for now org email i ≡ false
unfolding pending_for
pending_for-false now org email i = ground arith

expired-false : (now : ℕ) (i : Invitation) → expired now i ≡ false
unfolding expired
expired-false now i = refl

listed-false :
    (now org : ℕ) (include_expired : Bool) (i : Invitation)
    → listed now org include_expired false i ≡ false
unfolding listed
listed-false now org include_expired i = ground arith

list_user-none :
    (lower : ℕ → ℕ) (now email : ℕ) (db : Db) → list_user_invitations lower now email db ≡ []
unfolding list_user_invitations
list_user-none lower now email db = select-never _ db.invitations (λ i. ground arith)

pending-none :
    (lower hash : ℕ → ℕ) (now org email : ℕ) (db : Db)
    → get_pending_invitation only_row lower hash now org email db ≡ ok none
unfolding get_pending_invitation
pending-none lower hash now org email db =
    rw (select-never _ db.invitations (pending_for-false now org (lower email))) refl

module _ (lower hash : ℕ → ℕ) (org inviter email days : ℕ) where
  abbrev pub added : ℕ → ℕ → ℕ → Invitation
  added id now token = new_invitation lower hash id now token org inviter email days

  abbrev pub with_added : Invitation → Db → Db
  with_added i db = record db { invitations = db.invitations ++ i ∷ [] }

  create-adds :
      (id now token : ℕ) (i : Invitation) (db db' : Db)
      → create_invitation only_row lower hash id now token org inviter email days db ≡ ok (i, db')
      → (i ≡ added id now token) × (db' ≡ with_added (added id now token) db)
  unfolding create_invitation
  create-adds id now token i db db' e = ground arith

  -- No check of `create_invitation` looks at the invitations that are there.
  create-ignores :
      (id now token id2 now2 token2 : ℕ) (i new : Invitation) (db db' : Db)
      → create_invitation only_row lower hash id now token org inviter email days db ≡ ok (i, db')
      → create_invitation only_row lower hash id2 now2 token2 org inviter email days
          (with_added new db)
        ≡ ok (added id2 now2 token2, with_added (added id2 now2 token2) (with_added new db))
  unfolding create_invitation is_member get_by_id
  create-ignores id now token id2 now2 token2 i new db db' e = ground (
    arith,
    pending-none lower hash now org email db,
    pending-none lower hash now2 org email (with_added new db),
  )

listed-none :
    (now org : ℕ) (include_expired : Bool) (db : Db)
    → list_organization_invitations now org include_expired false db ≡ []
unfolding list_organization_invitations
listed-none now org include_expired db =
    select-never _ db.invitations (listed-false now org include_expired)

cleanup-none : (now : ℕ) (db : Db) → cleanup_expired_invitations now db ≡ (0, db)
unfolding cleanup_expired_invitations
cleanup-none now db =
    rw
      (
        select-never _ db.invitations (expired-false now),
        delete_where-never _ db.invitations (expired-false now),
      )
      refl

renew : ℕ → ℕ → Invitation → Invitation
renew now days i = record i { expires_at = now + days * microseconds_per_day }

resend-saves :
    (lower hash : ℕ → ℕ) (now token id user days : ℕ) (i i' : Invitation) (token' : ℕ) (db db' : Db)
    → select (invitation_is id) db.invitations ≡ i ∷ []
    → resend_invitation only_row lower hash now token id user days db ≡ ok ((i', token'), db')
    → (i' ≡ renew now days i) × (token' ≡ token) × (db' ≡ save_invitation (renew now days i) db)
unfolding resend_invitation renew
resend-saves lower hash now token id user days i i' token' db db' row e = ground arith

renewed :
    (lower hash : ℕ → ℕ) (now token old_token id user days : ℕ) (i i' : Invitation) (token' : ℕ)
    (db db' : Db)
    → Distinct invitation_key db.invitations
    → select (invitation_is id) db.invitations ≡ i ∷ []
    → select (λ r. r.token_hash == hash old_token) db.invitations ≡ i ∷ []
    → select (λ r. r.token_hash == hash token) db.invitations ≡ []
    → resend_invitation only_row lower hash now token id user days db ≡ ok ((i', token'), db')
    → (token' ≡ token)
      × (i'.expires_at ≡ now + days * microseconds_per_day)
      × (get_invitation_by_token only_row lower hash old_token db' ≡ ok (some i'))
      × (get_invitation_by_token only_row lower hash token db' ≡ ok none)
unfolding renew save_invitation get_invitation_by_token
renewed lower hash now token old_token id user days i i' token' db db' d row old new e =
    let (si, st, sdb) = resend-saves lower hash now token id user days i i' token' db db' row e in
    let by_old = λ (r : Invitation). r.token_hash == hash old_token in
    let by_new = λ (r : Invitation). r.token_hash == hash token in
    let fits = select-holds by_old db.invitations {q = i} {rest = []} old in
    let misses = select-misses by_old by_new db.invitations {q = i} {rest = []} old new in
    let found =
      select-save invitation_key by_old i (renew now days i) db.invitations d old refl fits in
    let absent =
      select-save_other invitation_key by_old by_new i (renew now days i) db.invitations d old refl
        misses misses in
    (st, rw si refl, rw (si, sdb, found) refl, rw (sdb, absent, new) refl)

module _ (one : OneOrNone) (law : IsOneOrNone one) (lower hash : ℕ → ℕ) where
  -- Whatever the table holds, no pending invitation is found for an email, a user's pending
  -- invitations are none, an organisation's list without the accepted ones is empty, and the clean-up
  -- of expired invitations deletes nothing.
  pending_queries_empty :
      (now org email : ℕ) (include_expired : Bool) (db : Db)
      → (get_pending_invitation one lower hash now org email db ≡ ok none)
        × (list_user_invitations lower now email db ≡ [])
        × (list_organization_invitations now org include_expired false db ≡ [])
        × (cleanup_expired_invitations now db ≡ (0, db))
  pending_queries_empty now org email include_expired db = rw (eq-only_row one law) (
    pending-none lower hash now org email db,
    list_user-none lower now email db,
    listed-none now org include_expired db,
    cleanup-none now db,
  )

  -- After an invitation has been created, a second call for the same organisation, inviter and email
  -- creates another one beside it.
  invitation_duplicated :
      (org inviter email days id now token id2 now2 token2 : ℕ) (i : Invitation) (db db' : Db)
      → create_invitation one lower hash id now token org inviter email days db ≡ ok (i, db')
      → let i2 = new_invitation lower hash id2 now2 token2 org inviter email days in
        (db'.invitations ≡ db.invitations ++ i ∷ [])
        × (create_invitation one lower hash id2 now2 token2 org inviter email days db'
            ≡ ok (i2, record db' { invitations = db'.invitations ++ i2 ∷ [] }))
  invitation_duplicated org inviter email days id now token id2 now2 token2 i db db' =
      rw (eq-only_row one law) λ e.
        let new = added lower hash org inviter email days id now token in
        let (same, there) = create-adds lower hash org inviter email days id now token i db db' e in
        rw (there, same)
          (
            refl,
            create-ignores lower hash org inviter email days id now token id2 now2 token2 i new db
                db' e,
          )

  -- Renewing an invitation keeps its token hash: the old token still finds it, with the new expiry,
  -- and the new token, unless some row has its hash already, finds nothing.
  renewal_keeps_token :
      (now token old_token id user days : ℕ) (i i' : Invitation) (token' : ℕ) (db db' : Db)
      → Distinct invitation_key db.invitations
      → select (invitation_is id) db.invitations ≡ i ∷ []
      → select (λ r. r.token_hash == hash old_token) db.invitations ≡ i ∷ []
      → select (λ r. r.token_hash == hash token) db.invitations ≡ []
      → resend_invitation one lower hash now token id user days db ≡ ok ((i', token'), db')
      → (token' ≡ token)
        × (i'.expires_at ≡ now + days * microseconds_per_day)
        × (get_invitation_by_token one lower hash old_token db' ≡ ok (some i'))
        × (get_invitation_by_token one lower hash token db' ≡ ok none)
  renewal_keeps_token now token old_token id user days i i' token' db db' d row old new =
      rw (eq-only_row one law)
        (renewed lower hash now token old_token id user days i i' token' db db' d row old new)
