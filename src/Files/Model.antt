-- ===== src/Files/Model.antt =====
-- app/models/file.py, and the tables with what the storage holds. The S3 columns are the path and the bucket once more and
-- are left out, like the timestamps and `original_filename`, which is the file's name.
use python_fastapi_multiauth.Common.{ℕ, Bool, List, save}
use python_fastapi_multiauth.Quota.Model as Quotas
use python_fastapi_multiauth.Tenancy.Model as Organizations
use python_fastapi_multiauth.Files.Types.{Mime}
use python_fastapi_multiauth.Files.Storage.{StoragePath, ProviderName, Filename}

pub record File : Type 0 where
  pub id : ℕ
  pub filename : Filename
  pub content_type : Mime
  pub size : ℕ
  pub storage_path : StoragePath
  pub storage_provider : ProviderName
  pub uploaded_by_id : ℕ
  pub organization_id : ℕ
  pub is_public : Bool
  pub is_deleted : Bool
  pub checksum : ℕ

-- The tables of the three components, and what the provider has stored.
pub record Db (S : Type 0) : Type 0 where
  pub tenancy : Organizations.Db
  pub quota : Quotas.Db
  pub files : List File
  pub stored : S

abbrev pub file_key : File → ℕ
file_key f = f.id

abbrev pub save_file : File → List File → List File
save_file f files = save file_key f files
