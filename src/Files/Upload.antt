-- ===== src/Files/Upload.antt =====
-- `upload_file` of app/api/v1/endpoints/files.py. The settings, libmagic, Pillow and hashlib are parameters. What
-- raises leaves no tables, since the transaction is rolled back; what it has written to the storage by then stays
-- there, and no row points to it.
use python_fastapi_multiauth.Common.{
  ℕ, ◌*◌, false, Option, none, some, List, [], ◌∷◌, ◌++◌, length, not, if◌then◌else◌, http, Result,
  ok, ◌>>=◌, ◌>>◌, raise_if, OneOrNone, except_as,
}
use python_fastapi_multiauth.Common.Int.{ℤ, pos}
use python_fastapi_multiauth.Quota.Model as Quotas
use python_fastapi_multiauth.Quota.Model.{
  OrganizationQuota, is_file_upload_quota_exceeded, is_file_size_exceeded,
  is_storage_quota_exceeded,
}
use python_fastapi_multiauth.Quota.Service.{
  get_or_create_quota, check_and_reset_daily_quotas, increment_file_uploads,
}
use python_fastapi_multiauth.Tenancy.Model as Organizations
use python_fastapi_multiauth.Tenancy.Organizations.{is_member, get_or_create_default}
use python_fastapi_multiauth.Files.Stream.{FileObject, seek_start, stream_size}
use python_fastapi_multiauth.Files.Storage.{
  Filename, Provider, Sha256, rounds, chunk_size, storage_upload,
}
use python_fastapi_multiauth.Files.Types.{
  Mime, octet_stream, default_allowed_image_types, AllowedTypes, validate_file_type, type_allowed,
  verify_mime_type,
}
use python_fastapi_multiauth.Files.Model.{File, Db}

-- `settings`
pub record Settings : Type 0 where
  pub max_file_size_mb : ℕ
  pub blocked_file_types_list : List Mime
  pub allowed_file_types_list : AllowedTypes

-- What `uuid4()` and the clock give in the course of a request, and the upload itself.
pub record Request : Type 0 where
  pub now : ℕ
  pub organization_uuid : ℕ
  pub quota_uuid : ℕ
  pub file_uuid : ℕ
  pub row_uuid : ℕ
  pub current_user : ℕ
  pub organization_id : Option ℕ
  pub claimed_type : Option Mime
  pub filename : Option Filename
  pub file : FileObject

-- `x or default`
abbrev pub or_else {ℓ} : {A : Type ℓ} → Option A → A → A
or_else none default = default
or_else (some a) default = a

-- "unnamed", which has no suffix.
abbrev pub unnamed : Filename
unnamed = record { name = 0; suffix = 0 }

-- What Pillow makes of an image: `Image.open`, `convert`, `resize` and `save` with the format JPEG.
abbrev pub Reencode : Type 0
Reencode = List ℕ → Result (List ℕ)

-- The new file is read from its start.
unfoldable pub optimize_image : Reencode → FileObject → Result FileObject
optimize_image reencode file = do
  output ← reencode file.content
  ok (record { content = output; unread = output })

-- The last step before the tables are read: an image is replaced, and its size is the new one.
unfoldable pub prepare : Reencode → Mime → FileObject → ℕ → Result (Mime × FileObject × ℕ)
unfolding validate_file_type optimize_image
prepare reencode content_type file file_size =
    if validate_file_type content_type default_allowed_image_types
    then (optimize_image reencode file >>= λ file. ok (content_type, file, length file.content))
    else ok (content_type, file, file_size)

module _ (settings : Settings) (from_buffer : List ℕ → Mime) (reencode : Reencode) where
  -- The first half: what is tested before the tables are read, and the file as it is stored, with its size.
  unfoldable pub accept_file : Option Mime → FileObject → Result (Mime × FileObject × ℕ)
  unfolding verify_mime_type validate_file_type type_allowed stream_size seek_start prepare
  accept_file claimed_type file = do
    content_type ←
        except_as (http "415")
          (verify_mime_type from_buffer file (or_else claimed_type octet_stream))
    raise_if (validate_file_type content_type settings.blocked_file_types_list) (http "415")
    raise_if (not (type_allowed settings.allowed_file_types_list content_type)) (http "415")
    let file = seek_start file
    file_size ←
        stream_size (rounds file) chunk_size (settings.max_file_size_mb * 1024 * 1024) file 0
    let file = seek_start file
    prepare reencode content_type file file_size

module _ (one : OneOrNone) where
  -- The organisation of the file: the one that is named, or the default one.
  unfoldable pub target_organization : Request → Organizations.Db → Result (ℕ × Organizations.Db)
  unfolding is_member get_or_create_default
  target_organization r db = elim r.organization_id [
    | some org ↦ raise_if (not (is_member org r.current_user db)) (http "403") >> ok (org, db)
    | none ↦ do
      (default_org, db) ← get_or_create_default one r.organization_uuid db
      ok (default_org.id, db)
  ]

  -- The three limits.
  unfoldable pub check_quota : Request → (org : ℕ) → (file_size : ℤ) → Quotas.Db → Result Quotas.Db
  unfolding get_or_create_quota check_and_reset_daily_quotas is_file_upload_quota_exceeded
      is_file_size_exceeded is_storage_quota_exceeded
  check_quota r org file_size db = do
    (q, db) ← get_or_create_quota one r.quota_uuid r.now org db
    let (q, db) = check_and_reset_daily_quotas r.now q db
    raise_if (is_file_upload_quota_exceeded q) (http "429")
    raise_if (is_file_size_exceeded q file_size) (http "413")
    raise_if (is_storage_quota_exceeded q file_size) (http "507")
    ok db

  module _ (settings : Settings) (from_buffer : List ℕ → Mime) (reencode : Reencode) (sha : Sha256)
      {S : Type 0} (provider : Provider S) where
    -- The part in `try`: the storage, the row and the counters.
    unfoldable pub store_file :
        Request → (org : ℕ) → Mime → FileObject → (file_size : ℕ) → Db S → Result (File × Db S)
    unfolding storage_upload increment_file_uploads
    store_file r org content_type file file_size db = do
      let name = or_else r.filename unnamed
      ((path, provider_name, checksum), stored) ←
          storage_upload sha provider r.file_uuid name content_type (some org) (some r.current_user)
            file db.stored
      let file_record : File = record {
        id = r.row_uuid;
        filename = name;
        content_type = content_type;
        size = file_size;
        storage_path = path;
        storage_provider = provider_name;
        uploaded_by_id = r.current_user;
        organization_id = org;
        is_public = false;
        is_deleted = false;
        checksum = checksum;
      }
      quota ←
          increment_file_uploads one r.quota_uuid r.now org (some r.current_user) (pos file_size)
            (some name.name) db.quota
      ok (
        file_record,
        record db { quota = quota; files = db.files ++ file_record ∷ []; stored = stored },
      )

    unfoldable pub upload_file : Request → Db S → Result (File × Db S)
    unfolding accept_file target_organization check_quota store_file
    upload_file r db = do
      (content_type, file, file_size) ←
          accept_file settings from_buffer reencode r.claimed_type r.file
      (org, tenancy) ← target_organization r db.tenancy
      quota ← check_quota r org (pos file_size) db.quota
      except_as (http "500") (
          store_file r org content_type file file_size
            (record db { tenancy = tenancy; quota = quota }))
