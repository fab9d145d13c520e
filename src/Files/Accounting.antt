-- ===== src/Files/Accounting.antt =====
-- `current_storage_bytes` under the endpoints of app/api/v1/endpoints/files.py.
use python_fastapi_multiauth.Common.{
  ℕ, ◌+◌, ◌≡◌, ◌≢◌, refl, sym, ap, ◌∙◌, true, false, not, ◌&&◌, some, List, [], ◌∷◌, ◌++◌, ◌==◌,
  ==_iff, ==_refl, if◌then◌else◌, arith, Bool-cases, inl, inr, Result, ok, http, OneOrNone,
  IsOneOrNone, only_row, eq-only_row, raise_if-ok, bind-ok, ok-injective, select, select-holds,
}
use python_fastapi_multiauth.Common.Int.{pos, ◌+ℤ◌, ◌-ℤ◌, max_ℤ, +ℤ_parts, -ℤ_parts, eq_of_parts}
use mathlib.Core.Path.{subst}
use mathlib.Core.List.{head-eq_of_cons-eq, tail-eq_of_cons-eq}
use python_fastapi_multiauth.Quota.Model as Quotas
use python_fastapi_multiauth.Quota.Model.{OrganizationQuota}
use python_fastapi_multiauth.Quota.Service.{check_and_reset_daily_quotas, decrement_storage}
use python_fastapi_multiauth.Quota.Rows.{
  Holds, Isolated, Leaves, daily-Holds, daily-Isolated, increment_file_uploads-Leaves,
  decrement_storage-Leaves,
}
use python_fastapi_multiauth.Files.Storage.{Provider, Sha256}
use python_fastapi_multiauth.Files.Types.{Mime}
use python_fastapi_multiauth.Files.Model.{File, Db, save_file}
use python_fastapi_multiauth.Files.Upload.{Settings, Request, Reencode, upload_file}
use python_fastapi_multiauth.Files.Access.{file_is, find_file, delete_file}
use python_fastapi_multiauth.Files.Limits.{Uploaded, upload_file-Uploaded, check_quota-Room}

-- The bytes of the files of an organisation that are not deleted.
abbrev pub live_size : ℕ → File → ℕ
live_size org f = if f.organization_id == org && not f.is_deleted then f.size else 0

abbrev pub used : ℕ → List File → ℕ
used org [] = 0
used org (f ∷ fs) = live_size org f + used org fs

used-append :
    (org : ℕ) (fs : List File) (f : File) → used org (fs ++ f ∷ []) ≡ used org fs + live_size org f
used-append org [] f = omega arith
used-append org (g ∷ fs) f = omega (arith, used-append org fs f)

select-no_key : (f : File) (fs : List File) → select (file_is f.id) fs ≡ [] → save_file f fs ≡ fs
select-no_key f [] h = refl
select-no_key f (g ∷ fs) h = ground (arith, select-no_key f fs)

-- Saving a changed row changes the sum by that row's part.
used-save :
    (org : ℕ) (fs : List File) (f f' : File)
    → select (file_is f.id) fs ≡ f ∷ []
    → f'.id ≡ f.id
    → used org (save_file f' fs) + live_size org f ≡ used org fs + live_size org f'
used-save org [] f f' h same = ground arith
used-save org (g ∷ fs) f f' h same = elim (Bool-cases (g.id == f.id)) [
  | inl here ↦
      let h : g ∷ select (file_is f.id) fs ≡ f ∷ [] = rw here at h in
      let first : live_size org g ≡ live_size org f = ap (live_size org) (head-eq_of_cons-eq h) in
      let rest : select (file_is f.id) fs ≡ [] = tail-eq_of_cons-eq h in
      rw (same, here, first, select-no_key f' fs (rw same rest)) (omega arith)
  | inr elsewhere ↦
      let h : select (file_is f.id) fs ≡ f ∷ [] = rw elsewhere at h in
      rw (same, elsewhere) (omega (arith, used-save org fs f f' h same))
]

-- The organisation has a quota, and its storage counter is the sum.
pub record Accounted {S : Type 0} (org : ℕ) (db : Db S) : Type 0 where
  pub quota : OrganizationQuota
  pub holds : Holds org quota db.quota
  pub balanced : quota.current_storage_bytes ≡ pos (used org db.files)

pos-add : (a b c : ℕ) → c ≡ a + b → pos a +ℤ pos b ≡ pos c
pos-add a b c e = ground (arith, +ℤ_parts (pos a) (pos b), eq_of_parts (pos a +ℤ pos b) (pos c))

pos-sub : (a b c : ℕ) → c + b ≡ a → max_ℤ (pos 0) (pos a -ℤ pos b) ≡ pos c
pos-sub a b c e =
    ground (arith, -ℤ_parts (pos a) (pos b), eq_of_parts (max_ℤ (pos 0) (pos a -ℤ pos b)) (pos c))

-- What a quota operation that returns `db'` leaves.
Leaves-at :
    (org : ℕ) (q : OrganizationQuota) (db db' : Quotas.Db) (r : Result Quotas.Db)
    → Leaves org db q r
    → r ≡ ok db'
    → Holds org q db' × Isolated org db db'
Leaves-at org q db db' r (db'', e, holds, others) h =
    let same : db'' ≡ db' = ok-injective (sym e ∙ h) in
    (subst (λ d. Holds org q d) same holds, subst (λ d. Isolated org db d) same others)

reset-storage :
    (now : ℕ) (q : OrganizationQuota) (db : Quotas.Db)
    → (check_and_reset_daily_quotas now q db).0.current_storage_bytes ≡ q.current_storage_bytes
unfolding check_and_reset_daily_quotas
reset-storage now q db = ground arith

-- The balance of one organisation, and of the others, when the files of the first have changed.
Accounted-step :
    {S : Type 0} (org o : ℕ) (q' : OrganizationQuota) (db db' : Db S)
    → Accounted o db
    → Holds org q' db'.quota
    → Isolated org db.quota db'.quota
    → q'.current_storage_bytes ≡ pos (used org db'.files)
    → (o ≢ org → used o db'.files ≡ used o db.files)
    → Accounted o db'
Accounted-step org o q' db db' acc holds others balanced same = elim (Bool-cases (o == org)) [
  | inl here ↦
      let same_org = (==_iff o org).0 here in
      rw same_org (record { quota = q'; holds = holds; balanced = balanced })
  | inr there ↦
      let apart : o ≢ org = λ e. ground (arith, there, (==_iff o org).1 e) in
      record {
        quota = acc.quota;
        holds = record { distinct = holds.distinct; row = others o apart ∙ acc.holds.row };
        balanced = acc.balanced ∙ ap pos (sym (same apart));
      }
]

Uploaded-Accounted :
    {S : Type 0} (settings : Settings) (from_buffer : List ℕ → Mime) (reencode : Reencode)
    (sha : Sha256) (provider : Provider S)
    → (r : Request) (db : Db S) (f : File) (db' : Db S)
    → (u : Uploaded settings from_buffer reencode sha provider r db f db') → Accounted u.org db
    → (o : ℕ) → Accounted o db
    → Accounted o db'
Uploaded-Accounted settings from_buffer reencode sha provider r db f db' u acc o others =
    let s = u.saved in
    let (q, reset) = check_and_reset_daily_quotas r.now acc.quota db.quota in
    let same = (check_quota-Room r u.org (pos u.size) acc.quota db.quota acc.holds u.checked).0 in
    let holds : Holds u.org q u.quota =
      rw same (daily-Holds u.org r.now acc.quota db.quota acc.holds) in
    let left =
      Leaves-at u.org _ u.quota db'.quota _
        (increment_file_uploads-Leaves r.quota_uuid r.now u.org (some r.current_user) s.counted.0 q
          u.quota (pos u.size) holds)
        s.counted.1 in
    let more : (x : ℕ) → used x db'.files ≡ used x db.files + live_size x f =
      λ x. ap (used x) s.added ∙ used-append x db.files f in
    Accounted-step u.org o _ db db' others left.0
      (λ x ne. left.1 x ne ∙ rw same (daily-Isolated u.org r.now acc.quota db.quota acc.holds x ne))
      (ap (λ b. b +ℤ pos u.size)
          (reset-storage r.now q u.quota ∙ reset-storage r.now acc.quota db.quota ∙ acc.balanced)
        ∙ pos-add (used u.org db.files) u.size _
            (ground (arith, more u.org, s.owned, s.live, s.sized)))
      (λ ne. ground (arith, more o, s.owned))

deleted-Accounted :
    {S : Type 0} (quota_uuid now user file_id : ℕ) (db db' : Db S) (f : File)
    → select (file_is file_id) db.files ≡ f ∷ []
    → f.is_deleted ≡ false
    → delete_file only_row quota_uuid now user file_id db ≡ ok db'
    → Accounted f.organization_id db
    → (o : ℕ) → Accounted o db
    → Accounted o db'
unfolding delete_file find_file
deleted-Accounted quota_uuid now user file_id db db' f found live h acc o others =
    let h = rw found at h in
    raise_if-ok (not (f.uploaded_by_id == user)) (http "403") _ h (λ owner h.
      bind-ok
        (decrement_storage only_row quota_uuid now f.organization_id (pos f.size) (some user)
          (some f.filename.name) db.quota)
        _ h
        (λ quota freed h.
          let org = f.organization_id in
          let gone : File = record f { is_deleted = true } in
          let left =
            Leaves-at org _ db.quota quota _
              (decrement_storage-Leaves quota_uuid now org (some user) (some f.filename.name)
                acc.quota db.quota (pos f.size) acc.holds)
              freed in
          let key = (==_iff f.id file_id).0 (select-holds (file_is file_id) db.files found) in
          let less : (x : ℕ)
              → used x (save_file gone db.files) + live_size x f
                ≡ used x db.files + live_size x gone =
            λ x.
              used-save x db.files f gone (ap (λ k. select (file_is k) db.files) key ∙ found)
                refl in
          subst (Accounted o) (ok-injective h) (
            Accounted-step org o _ db (record db { quota = quota; files = save_file gone db.files })
              others left.0 left.1
              (ap (λ b. max_ℤ (pos 0) (b -ℤ pos f.size)) acc.balanced
                ∙ pos-sub (used org db.files) f.size _ (ground (arith, less org, live)))
              (λ ne. ground (arith, less o)))))

deleted_again :
    {S : Type 0} (quota_uuid now file_id : ℕ) (db : Db S) (f : File) (q : OrganizationQuota)
    → select (file_is file_id) db.files ≡ f ∷ []
    → f.is_deleted ≡ true
    → Holds f.organization_id q db.quota
    → (db' : Db S) × (delete_file only_row quota_uuid now f.uploaded_by_id file_id db ≡ ok db')
      × Holds f.organization_id
          (record q {
            current_storage_bytes = max_ℤ (pos 0) (q.current_storage_bytes -ℤ pos f.size);
          })
          db'.quota
      × (used f.organization_id db'.files ≡ used f.organization_id db.files)
unfolding delete_file find_file
deleted_again quota_uuid now file_id db f q found gone holds =
    let org = f.organization_id in
    let again : File = record f { is_deleted = true } in
    let (quota, freed, left, others) =
      decrement_storage-Leaves quota_uuid now org (some f.uploaded_by_id) (some f.filename.name) q
        db.quota (pos f.size) holds in
    let key = (==_iff f.id file_id).0 (select-holds (file_is file_id) db.files found) in
    (
      record db { quota = quota; files = save_file again db.files },
      rw (found, ==_refl f.uploaded_by_id, freed) refl,
      left,
      ground (
        arith,
        used-save org db.files f again (ap (λ k. select (file_is k) db.files) key ∙ found) refl,
        gone,
      ),
    )

module _ (one : OneOrNone) (law : IsOneOrNone one) {S : Type 0} where
  -- If the storage counters of the file's organisation and of a second one, which may be the
  -- same, are the sums of the sizes of their files that are not deleted, the second's is
  -- after the upload.
  pub upload_file-Accounted :
      (settings : Settings) (from_buffer : List ℕ → Mime) (reencode : Reencode) (sha : Sha256)
      (provider : Provider S)
      → (r : Request) (db : Db S) {f : File} {db' : Db S}
      → upload_file one settings from_buffer reencode sha provider r db ≡ ok (f, db')
      → Accounted f.organization_id db
      → (o : ℕ) → Accounted o db
      → Accounted o db'
  upload_file-Accounted settings from_buffer reencode sha provider r db {f} {db'} h acc o others =
      let u =
        upload_file-Uploaded settings from_buffer reencode sha provider r db
          (rw (eq-only_row one law) at h) in
      Uploaded-Accounted settings from_buffer reencode sha provider r db f db' u
        (rw u.saved.owned at acc) o others

  -- If the storage counters of the file's organisation and of a second one, which may be the
  -- same, are the sums of the sizes of their files that are not deleted, the second's is
  -- after the deletion of a file that was not deleted.
  pub delete_file-Accounted :
      (quota_uuid now user file_id : ℕ) (db db' : Db S) (f : File)
      → select (file_is file_id) db.files ≡ f ∷ []
      → f.is_deleted ≡ false
      → delete_file one quota_uuid now user file_id db ≡ ok db'
      → Accounted f.organization_id db
      → (o : ℕ) → Accounted o db
      → Accounted o db'
  delete_file-Accounted quota_uuid now user file_id db db' f found live h acc o others =
      deleted-Accounted quota_uuid now user file_id db db' f found live
        (rw (eq-only_row one law) at h) acc o others

  -- The uploader deletes a deleted file again, which lowers the storage counter and leaves
  -- the sum of the sizes.
  pub delete_file-again :
      (quota_uuid now file_id : ℕ) (db : Db S) (f : File) (q : OrganizationQuota)
      → select (file_is file_id) db.files ≡ f ∷ []
      → f.is_deleted ≡ true
      → Holds f.organization_id q db.quota
      → (db' : Db S) × (delete_file one quota_uuid now f.uploaded_by_id file_id db ≡ ok db')
        × Holds f.organization_id
            (record q {
              current_storage_bytes = max_ℤ (pos 0) (q.current_storage_bytes -ℤ pos f.size);
            })
            db'.quota
        × (used f.organization_id db'.files ≡ used f.organization_id db.files)
  delete_file-again quota_uuid now file_id db f q found gone holds =
      rw (eq-only_row one law) (deleted_again quota_uuid now file_id db f q found gone holds)
