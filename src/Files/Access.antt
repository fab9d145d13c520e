-- ===== src/Files/Access.antt =====
-- The other endpoints of app/api/v1/endpoints/files.py.
use python_fastapi_multiauth.Common.{
  ℕ, ◌+◌, ◌-◌, ◌*◌, ◌/◌, Bool, true, none, some, List, length, not, ◌&&◌, ◌==◌, http, Result, ok,
  err, ◌>>=◌, ◌>>◌, raise_if, OneOrNone, select, except_as,
}
use python_fastapi_multiauth.Common.Int.{pos}
use python_fastapi_multiauth.Quota.Service.{decrement_storage}
use python_fastapi_multiauth.Files.Stream.{take, drop}
use python_fastapi_multiauth.Files.Storage.{StoragePath}
use python_fastapi_multiauth.Files.Model.{File, Db, save_file}

abbrev pub file_is : ℕ → File → Bool
file_is file_id f = f.id == file_id

-- The files that a user's list shows.
abbrev pub listed : ℕ → File → Bool
listed user f = f.uploaded_by_id == user && not f.is_deleted

pub record FileListResponse : Type 0 where
  pub items : List File
  pub total : ℕ
  pub page : ℕ
  pub page_size : ℕ
  pub pages : ℕ

-- `page` and `page_size` are at least 1: FastAPI refuses others. The last is `ceil(total / page_size)`. The
-- query names no order: `in_order` is the one in which the database returns the rows to this request.
unfoldable pub list_files :
    (in_order : List File → List File) → (user page page_size : ℕ) → List File → FileListResponse
list_files in_order user page page_size files =
    let found = select (listed user) files in
    record {
      items = take page_size (drop ((page - 1) * page_size) (in_order found));
      total = length found;
      page = page;
      page_size = page_size;
      pages = (length found + page_size - 1) / page_size;
    }

module _ (one : OneOrNone) {S : Type 0} where
  -- The row, or 404.
  unfoldable pub find_file : ℕ → Db S → Result File
  find_file file_id db = do
    found ← one File (select (file_is file_id) db.files)
    elim found [ none ↦ err (http "404") | some f ↦ ok f ]

  unfoldable pub get_file : (user file_id : ℕ) → Db S → Result File
  unfolding find_file
  get_file user file_id db = do
    file ← find_file file_id db
    raise_if (not (file.uploaded_by_id == user) && not file.is_public) (http "403")
    ok file

  -- `presigned` is `storage_service.get_presigned_url`; a URL is a number.
  unfoldable pub get_download_url :
      (presigned : StoragePath → ℕ → Result ℕ)
      → (user file_id expires_in : ℕ) → Db S
      → Result (ℕ × ℕ)
  unfolding find_file
  get_download_url presigned user file_id expires_in db = do
    file ← find_file file_id db
    raise_if (not (file.uploaded_by_id == user) && not file.is_public) (http "403")
    download_url ← except_as (http "500") (presigned file.storage_path expires_in)
    ok (download_url, expires_in)

  unfoldable pub delete_file : (quota_uuid now user file_id : ℕ) → Db S → Result (Db S)
  unfolding find_file decrement_storage
  delete_file quota_uuid now user file_id db = do
    file ← find_file file_id db
    raise_if (not (file.uploaded_by_id == user)) (http "403")
    let file = record file { is_deleted = true }
    quota ←
        decrement_storage one quota_uuid now file.organization_id (pos file.size) (some user)
          (some file.filename.name) db.quota
    ok (record db { quota = quota; files = save_file file db.files })
