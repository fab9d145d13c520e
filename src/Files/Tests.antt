-- ===== src/Files/Tests.antt =====
-- Runs of the file endpoints on a small disk and small tables.
use python_fastapi_multiauth.Common.{
  ℕ, ◌≤◌, ◌<◌, ◌↔◌, ◌≡◌, refl, select, ◌==◌, true, false, none, some, List, [], ◌∷◌, ◌++◌, length,
  ok, err, http, file_not_found, only_row, only_row-IsOneOrNone, arith,
}
use python_fastapi_multiauth.Common.Int.{pos, ◌+ℤ◌, ◌-ℤ◌}
use mathlib.Core.List.{append-nil, append_assoc, reverse}
use mathlib.Core.List.Permᴰ
use python_fastapi_multiauth.Quota.Model as Quotas
use python_fastapi_multiauth.Quota.Model.{OrganizationQuota, new_quota}
use python_fastapi_multiauth.Quota.Rows.{Holds}
use python_fastapi_multiauth.Files.Stream.{FileObject, stream_size}
use python_fastapi_multiauth.Files.Storage.{
  StoragePath, Filename, local, Disk, local_provider, local_delete, first_two, Sha256, IsSha256,
  storage_upload,
}
use python_fastapi_multiauth.Files.Types.{Mime, text, any_type}
use python_fastapi_multiauth.Files.Model.{File, Db}
use python_fastapi_multiauth.Files.Upload.{
  Settings, Request, Reencode, accept_file, target_organization, check_quota, store_file,
  upload_file,
}
use python_fastapi_multiauth.Files.Access.{get_file, delete_file, list_files}
use python_fastapi_multiauth.Files.Keeping.{Replaced, storage_upload-download}
use python_fastapi_multiauth.Files.Limits.{UploadGuarded, upload_file-Guarded}
use python_fastapi_multiauth.Files.Accounting.{
  Accounted, used, upload_file-Accounted, delete_file-Accounted, delete_file-again,
}
use python_fastapi_multiauth.Files.Listing.{list_files-page}

abbrev five : FileObject
five = record { content = 1 ∷ 2 ∷ 3 ∷ 4 ∷ 5 ∷ []; unread = 1 ∷ 2 ∷ 3 ∷ 4 ∷ 5 ∷ [] }

-- In chunks of two.
streamed : stream_size 6 2 5 five 0 ≡ ok 5
unfolding stream_size
streamed = refl

streamed_too_large : stream_size 6 2 4 five 0 ≡ err (http "413")
unfolding stream_size
streamed_too_large = refl

-- A hash that keeps what it is given, and whose digest is the length.
abbrev kept : Sha256
kept = record { Hash = List ℕ; start = []; update = λ h xs. h ++ xs; hexdigest = λ h. length h }

kept-IsSha256 : IsSha256 kept
kept-IsSha256 = record {
  update_nothing = λ h. append-nil h;
  update_append = λ h xs ys. append_assoc h xs ys;
}

abbrev notes : Filename
notes = record { name = 4; suffix = 1 }

abbrev plain : Mime
plain = record { type = text; subtype = 0 }

abbrev path_of : ℕ → StoragePath
path_of uuid = record {
  org = some 11;
  user = some 7;
  folder = some (first_two uuid);
  unique = uuid;
  suffix = 1;
}

storage_upload-download_example :
    (disk' : Disk) × (storage_upload kept local_provider 50 notes plain (some 11) (some 7) five []
      ≡ ok ((path_of 50, local, 5), disk'))
    × Replaced (path_of 50) (ok (1 ∷ 2 ∷ 3 ∷ 4 ∷ 5 ∷ [])) [] disk'
    × ((disk'' : Disk) × (local_delete (path_of 50) disk' ≡ ok disk'')
        × Replaced (path_of 50) (err file_not_found) disk' disk'')
storage_upload-download_example =
    storage_upload-download kept kept-IsSha256 50 notes plain (some 11) (some 7) five []

abbrev settings : Settings
settings = record {
  max_file_size_mb = 10;
  blocked_file_types_list = [];
  allowed_file_types_list = any_type;
}

abbrev detect : List ℕ → Mime
detect header = plain

abbrev pillow : Reencode
pillow bytes = ok bytes

abbrev quota : OrganizationQuota
quota = record {
  id = 1;
  organization_id = 11;
  max_users = pos 10;
  current_users = pos 1;
  max_storage_bytes = pos 100;
  current_storage_bytes = pos 0;
  max_api_calls_per_month = pos 100;
  current_api_calls_this_month = pos 0;
  max_file_uploads_per_day = pos 2;
  current_file_uploads_today = pos 0;
  max_file_size_bytes = pos 60;
  api_calls_reset_at = 100;
  file_uploads_reset_at = 100;
}

abbrev tables : Db Disk
tables = record {
  tenancy = record {
    users = [];
    organizations = [];
    members = record { user_id = 7; organization_id = 11 } ∷ [];
    invitations = [];
  };
  quota = record { quotas = quota ∷ []; usage_logs = []; subscriptions = [] };
  files = [];
  stored = [];
}

abbrev request : Request
request = record {
  now = 200;
  organization_uuid = 30;
  quota_uuid = 31;
  file_uuid = 50;
  row_uuid = 33;
  current_user = 7;
  organization_id = some 11;
  claimed_type = none;
  filename = some notes;
  file = five;
}

abbrev uploaded : File
uploaded = record {
  id = 33;
  filename = notes;
  content_type = plain;
  size = 5;
  storage_path = path_of 50;
  storage_provider = local;
  uploaded_by_id = 7;
  organization_id = 11;
  is_public = false;
  is_deleted = false;
  checksum = 5;
}

abbrev counted : OrganizationQuota
counted = record quota { current_storage_bytes = pos 5; current_file_uploads_today = pos 1 }

-- The tables after the upload, but for the usage log.
abbrev after : List File → List OrganizationQuota → Db Disk
after files quotas = record tables {
  quota = record tables.quota {
    quotas = quotas;
    usage_logs =
        record {
          organization_id = 11;
          user_id = some 7;
          usage_type = Quotas.file_upload;
          extra_data = record { metadata = some 4; file_size = some (pos 5) };
        }
        ∷ [];
  };
  files = files;
  stored = record { path = path_of 50; bytes = 1 ∷ 2 ∷ 3 ∷ 4 ∷ 5 ∷ [] } ∷ [];
}

abbrev stored_tables : Db Disk
stored_tables = after (uploaded ∷ []) (counted ∷ [])

uploads :
    upload_file only_row settings detect pillow kept local_provider request tables
    ≡ ok (uploaded, stored_tables)
unfolding upload_file accept_file target_organization check_quota store_file local_provider ◌+ℤ◌
uploads = refl

-- To an organisation that the user is not in.
refuses_strangers :
    upload_file only_row settings detect pillow kept local_provider
      (record request { organization_id = some 12 })
      tables
    ≡ err (http "403")
unfolding upload_file accept_file target_organization
refuses_strangers = refl

refuses_blocked :
    upload_file only_row
      (record settings { blocked_file_types_list = plain ∷ [] })
      detect
      pillow
      kept
      local_provider
      request
      tables
    ≡ err (http "415")
unfolding upload_file accept_file
refuses_blocked = refl

quota-Holds : Holds 11 quota tables.quota
quota-Holds = record { distinct = (refl, tt); row = refl }

counted-Holds : Holds 11 counted stored_tables.quota
counted-Holds = record { distinct = (refl, tt); row = refl }

tables-Accounted : Accounted 11 tables
tables-Accounted = record { quota = quota; holds = quota-Holds; balanced = refl }

stored_tables-Accounted : Accounted 11 stored_tables
stored_tables-Accounted = record { quota = counted; holds = counted-Holds; balanced = refl }

upload_file-Guarded_example : UploadGuarded settings detect request tables quota uploaded
upload_file-Guarded_example =
    upload_file-Guarded only_row only_row-IsOneOrNone settings detect pillow kept local_provider
      request tables quota uploads quota-Holds

upload_file-Accounted_example : Accounted 11 stored_tables
upload_file-Accounted_example =
    upload_file-Accounted only_row only_row-IsOneOrNone settings detect pillow kept local_provider
      request tables uploads tables-Accounted 11 tables-Accounted

abbrev gone : File
gone = record uploaded { is_deleted = true }

-- The file is deleted.
abbrev deleted_tables : Db Disk
deleted_tables =
    record (after (gone ∷ []) (record counted { current_storage_bytes = pos 0 } ∷ [])) {
      quota = record stored_tables.quota {
        quotas = record counted { current_storage_bytes = pos 0 } ∷ [];
        usage_logs =
            stored_tables.quota.usage_logs
            ++ record {
              organization_id = 11;
              user_id = some 7;
              usage_type = Quotas.storage_remove;
              extra_data = record { metadata = some 4; file_size = some (pos 5) };
            }
              ∷ [];
      };
    }

deletes : delete_file only_row 31 300 7 33 stored_tables ≡ ok deleted_tables
unfolding delete_file ◌-ℤ◌
deletes = refl

-- A deleted file is still shown to who uploaded it.
shown : get_file only_row 7 33 deleted_tables ≡ ok gone
unfolding get_file
shown = refl

delete_file-Accounted_example : Accounted 11 deleted_tables
delete_file-Accounted_example =
    delete_file-Accounted only_row only_row-IsOneOrNone 31 300 7 33 stored_tables deleted_tables
      uploaded refl refl deletes stored_tables-Accounted 11 stored_tables-Accounted

-- Another file of three bytes is left, and the deleted file of five is deleted again.
abbrev other : File
other = record uploaded { id = 34; size = 3 }

delete_file-again_example :
    (db' : Db Disk) × (delete_file only_row 31 300 7 33
        (after (gone ∷ other ∷ []) (record quota { current_storage_bytes = pos 3 } ∷ []))
      ≡ ok db')
    × Holds 11 quota db'.quota
    × (used 11 db'.files ≡ 3)
unfolding ◌-ℤ◌
delete_file-again_example =
    delete_file-again only_row only_row-IsOneOrNone 31 300 33
      (after (gone ∷ other ∷ []) (record quota { current_storage_bytes = pos 3 } ∷ [])) gone
      (record quota { current_storage_bytes = pos 3 }) refl refl
      (record { distinct = (refl, tt); row = refl })

-- The database returns the rows in the opposite order.
list_files-page_example :
    let files : List File = uploaded ∷ gone ∷ other ∷ [] in
    let response = list_files reverse 7 2 1 files in
    (length (select (λ f. f.id == 33) response.items)
      ≤ length (select (λ f. f.id == 33) (uploaded ∷ other ∷ [])))
    × (length response.items ≡ 1)
    × ((2 ≤ response.pages) ↔ (0 < length response.items))
    × (response.total ≡ 2)
list_files-page_example =
    list_files-page reverse Permᴰ.reverse (λ f. f.id == 33) 7 2 1 (uploaded ∷ gone ∷ other ∷ [])
      (omega arith) (omega arith)

-- A request in the one order and the next in the other show the file on the first page and on the second.
shown_twice :
    let files : List File = uploaded ∷ gone ∷ other ∷ [] in
    ((list_files (λ rows. rows) 7 1 1 files).items ≡ uploaded ∷ [])
    × ((list_files reverse 7 2 1 files).items ≡ uploaded ∷ [])
unfolding list_files
shown_twice = (refl, refl)
