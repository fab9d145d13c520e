-- ===== src/Files/Limits.antt =====
-- `upload_file` of app/api/v1/endpoints/files.py as a whole: what it has tested when a file is stored.
use python_fastapi_multiauth.Common.{
  ℕ, ◌*◌, ◌≤◌, ◌≡◌, sym, ap, ◌∙◌, true, false, not, Option, some, List, [], ◌∷◌, ◌++◌, length,
  arith, ok, http, OneOrNone, IsOneOrNone, only_row, eq-only_row, bind-ok, raise_if-ok,
  except_as-ok, ok-injective,
}
use python_fastapi_multiauth.Common.Int.{ℤ, pos, ◌≤ℤ◌, ◌+ℤ◌, +ℤ_parts}
use python_fastapi_multiauth.Quota.Model as Quotas
use python_fastapi_multiauth.Quota.Model.{
  OrganizationQuota, is_file_upload_quota_exceeded, is_file_size_exceeded,
  is_storage_quota_exceeded,
}
use python_fastapi_multiauth.Quota.Service.{check_and_reset_daily_quotas, increment_file_uploads}
use python_fastapi_multiauth.Quota.Rows.{Holds, get_or_create_quota-Holds}
use python_fastapi_multiauth.Tenancy.Model as Organizations
use python_fastapi_multiauth.Tenancy.Organizations.{is_member}
use python_fastapi_multiauth.Files.Stream.{FileObject, take}
use python_fastapi_multiauth.Files.Storage.{Provider, Sha256, storage_upload}
use python_fastapi_multiauth.Files.Types.{Mime, validate_file_type, type_allowed}
use python_fastapi_multiauth.Files.Model.{File, Db}
use python_fastapi_multiauth.Files.Upload.{
  Settings, Request, or_else, unnamed, Reencode, accept_file, target_organization, check_quota,
  store_file, upload_file,
}
use python_fastapi_multiauth.Files.Guards.{Accepted, accept_file-Accepted}

-- The organisation's limits leave room for a file of this size.
pub record Room (q : OrganizationQuota) (size : ℤ) : Type 0 where
  pub uploads : q.current_file_uploads_today +ℤ pos 1 ≤ℤ q.max_file_uploads_per_day
  pub one_file : size ≤ℤ q.max_file_size_bytes
  pub storage : q.current_storage_bytes +ℤ size ≤ℤ q.max_storage_bytes

Room-tests :
    (q : OrganizationQuota) (size : ℤ)
    → is_file_upload_quota_exceeded q ≡ false
    → is_file_size_exceeded q size ≡ false
    → is_storage_quota_exceeded q size ≡ false
    → Room q size
unfolding is_file_upload_quota_exceeded is_file_size_exceeded is_storage_quota_exceeded
Room-tests q size uploads one_file storage = record {
  uploads = ground (arith, +ℤ_parts q.current_file_uploads_today (pos 1));
  one_file = ground arith;
  storage = ground arith;
}

pub check_quota-Room :
    (r : Request) (org : ℕ) (size : ℤ) (q : OrganizationQuota) (db : Quotas.Db) {db' : Quotas.Db}
    → Holds org q db
    → check_quota only_row r org size db ≡ ok db'
    → let (q', reset) = check_and_reset_daily_quotas r.now q db in (db' ≡ reset) × Room q' size
unfolding check_quota
check_quota-Room r org size q db h checked =
    let (q', reset) = check_and_reset_daily_quotas r.now q db in
    let checked = rw (get_or_create_quota-Holds r.quota_uuid r.now org q db h) at checked in
    raise_if-ok (is_file_upload_quota_exceeded q') (http "429") _ checked (λ uploads checked.
      raise_if-ok (is_file_size_exceeded q' size) (http "413") _ checked (λ one_file checked.
        raise_if-ok (is_storage_quota_exceeded q' size) (http "507") _ checked (λ storage checked.
          (sym (ok-injective checked), Room-tests q' size uploads one_file storage))))

-- The organisation is the one that is named, and then the user is a member.
pub target-member :
    (r : Request) (db : Organizations.Db) {org : ℕ} {db' : Organizations.Db}
    → target_organization only_row r db ≡ ok (org, db')
    → (o : ℕ) → r.organization_id ≡ some o
    → (org ≡ o) × (is_member o r.current_user db ≡ true)
unfolding target_organization
target-member r db {org} h o named =
    raise_if-ok (not (is_member o r.current_user db)) (http "403") (ok (o, db)) (rw named at h)
      (λ member h. (ap (λ t. t.0) (sym (ok-injective h)), ground arith))

module _ (settings : Settings) (from_buffer : List ℕ → Mime) (reencode : Reencode) (sha : Sha256)
    {S : Type 0} (provider : Provider S) where
  -- The row that `store_file` adds, and the quota's step.
  pub record StoredAs (r : Request) (org : ℕ) (content_type : Mime) (size : ℕ) (db : Db S)
      (f : File) (db' : Db S) : Type 0 where
    pub typed : f.content_type ≡ content_type
    pub sized : f.size ≡ size
    pub owned : f.organization_id ≡ org
    pub uploaded : f.uploaded_by_id ≡ r.current_user
    pub live : f.is_deleted ≡ false
    pub keyed : f.id ≡ r.row_uuid
    pub added : db'.files ≡ db.files ++ f ∷ []
    pub counted :
        (metadata : Option ℕ) × (increment_file_uploads only_row r.quota_uuid r.now org
            (some r.current_user)
            (pos size)
            metadata
            db.quota
          ≡ ok db'.quota)

  store_file-StoredAs :
      (r : Request) (org : ℕ) (content_type : Mime) (file : FileObject) (size : ℕ) (db : Db S)
      {f : File} {db' : Db S}
      → store_file only_row settings from_buffer reencode sha provider r org content_type file size
          db
        ≡ ok (f, db')
      → StoredAs r org content_type size db f db'
  unfolding store_file
  store_file-StoredAs r org content_type file size db {f} {db'} h =
      bind-ok
        (storage_upload sha provider r.file_uuid (or_else r.filename unnamed) content_type
          (some org) (some r.current_user) file db.stored)
        _ h
        (λ made uploaded h.
          bind-ok
            (increment_file_uploads only_row r.quota_uuid r.now org (some r.current_user) (pos size)
              (some (or_else r.filename unnamed).name) db.quota)
            _ h
            (λ quota counted h.
              let same = ok-injective h in
              record {
                typed = ap (λ t. t.0.content_type) (sym same);
                sized = ap (λ t. t.0.size) (sym same);
                owned = ap (λ t. t.0.organization_id) (sym same);
                uploaded = ap (λ t. t.0.uploaded_by_id) (sym same);
                live = ap (λ t. t.0.is_deleted) (sym same);
                keyed = ap (λ t. t.0.id) (sym same);
                added = ap (λ t. t.1.files) (sym same) ∙ ap (λ t. db.files ++ t.0 ∷ []) same;
                counted =
                    (some (or_else r.filename unnamed).name, counted ∙ ap (λ t. ok t.1.quota) same);
              }))

  -- The steps of an upload that has stored a file.
  pub record Uploaded (r : Request) (db : Db S) (f : File) (db' : Db S) : Type 0 where
    pub stored : FileObject
    pub org : ℕ
    pub content_type : Mime
    pub size : ℕ
    pub tenancy : Organizations.Db
    pub quota : Quotas.Db
    pub accepted : Accepted settings from_buffer reencode r.file content_type stored size
    pub targeted : target_organization only_row r db.tenancy ≡ ok (org, tenancy)
    pub checked : check_quota only_row r org (pos size) db.quota ≡ ok quota
    pub saved :
        StoredAs r org content_type size (record db { tenancy = tenancy; quota = quota }) f db'

  pub upload_file-Uploaded :
      (r : Request) (db : Db S) {f : File} {db' : Db S}
      → upload_file only_row settings from_buffer reencode sha provider r db ≡ ok (f, db')
      → Uploaded r db f db'
  unfolding upload_file
  upload_file-Uploaded r db {f} {db'} h =
      bind-ok (accept_file settings from_buffer reencode r.claimed_type r.file) _ h (λ a accepted h.
        bind-ok (target_organization only_row r db.tenancy) _ h (λ o targeted h.
          bind-ok (check_quota only_row r o.0 (pos a.2) db.quota) _ h (λ quota checked h.
            let s =
              store_file-StoredAs r o.0 a.0 a.1 a.2 (record db { tenancy = o.1; quota = quota })
                (except_as-ok (http "500") _ h) in
            record {
              stored = a.1;
              org = o.0;
              content_type = a.0;
              size = a.2;
              tenancy = o.1;
              quota = quota;
              accepted =
                  (accept_file-Accepted settings from_buffer reencode r.claimed_type r.file
                    accepted);
              targeted = targeted;
              checked = checked;
              saved = s;
            })))

-- What holds when an upload has stored the file `f`, where `q` is the quota of its organisation before.
pub record UploadGuarded (settings : Settings) (from_buffer : List ℕ → Mime) {S : Type 0}
    (r : Request) (db : Db S) (q : OrganizationQuota) (f : File) : Type 0 where
  pub detected : f.content_type ≡ from_buffer (take 2048 r.file.content)
  pub not_blocked : validate_file_type f.content_type settings.blocked_file_types_list ≡ false
  pub is_allowed : type_allowed settings.allowed_file_types_list f.content_type ≡ true
  pub small : length r.file.content ≤ settings.max_file_size_mb * 1024 * 1024
  pub owner : f.uploaded_by_id ≡ r.current_user
  pub member :
      (o : ℕ)
      → r.organization_id ≡ some o
      → (f.organization_id ≡ o) × (is_member o r.current_user db.tenancy ≡ true)
  pub room : Room (check_and_reset_daily_quotas r.now q db.quota).0 (pos f.size)

-- When an upload stores a file, its type is what the content is detected to be, not blocked
-- and allowed, the content is within the maximum, the user is a member of the organisation
-- that was named, and the limits of its organisation leave room for it.
pub upload_file-Guarded :
    (one : OneOrNone)
    → IsOneOrNone one
    → (settings : Settings) (from_buffer : List ℕ → Mime) (reencode : Reencode) (sha : Sha256)
      {S : Type 0} (provider : Provider S)
    → (r : Request) (db : Db S) (q : OrganizationQuota) {f : File} {db' : Db S}
    → upload_file one settings from_buffer reencode sha provider r db ≡ ok (f, db')
    → Holds f.organization_id q db.quota
    → UploadGuarded settings from_buffer r db q f
upload_file-Guarded one law settings from_buffer reencode sha provider r db q {f} {db'} h holds =
    let u =
      upload_file-Uploaded settings from_buffer reencode sha provider r db
        (rw (eq-only_row one law) at h) in
    let s = u.saved in
    let a = u.accepted in
    record {
      detected = s.typed ∙ a.detected;
      not_blocked = rw s.typed a.not_blocked;
      is_allowed = rw s.typed a.is_allowed;
      small = a.small;
      owner = s.uploaded;
      member =
          λ o named. let m = target-member r db.tenancy u.targeted o named in (s.owned ∙ m.0, m.1);
      room =
          rw s.sized
            (check_quota-Room r u.org (pos u.size) q db.quota (rw (← s.owned) holds) u.checked).1;
    }
