-- ===== src/Files/Storage.antt =====
-- app/services/storage.py. A provider is the record of its operations; `LocalStorageService` keeps its files on a
-- disk, `S3StorageService` calls the client of boto3, and `FileStorageService` adds the checksum.
use python_fastapi_multiauth.Common.{
  ℕ, ◌+◌, ◌/◌, ◌≡◌, Bool, true, false, Option, none, some, List, [], ◌∷◌, ◌++◌, length, ◌==◌, ◌&&◌,
  select, update_where, delete_where, exists, file_not_found, storage_error, if◌then◌else◌, Result,
  ok, err, ◌>>=◌,
}
use python_fastapi_multiauth.Files.Types.{Mime}
use python_fastapi_multiauth.Files.Stream.{FileObject, seek_start, each_chunk}

-- The name of an uploaded file, and the number of `Path(filename).suffix`.
pub record Filename : Type 0 where
  pub name : ℕ
  pub suffix : ℕ

-- The parts of a path: the directories that are there, and the file's name, which is a UUID and the suffix of the
-- uploaded file's name. `folder` is the directory of the UUID's first two characters.
pub record StoragePath : Type 0 where
  pub org : Option ℕ
  pub user : Option ℕ
  pub folder : Option ℕ
  pub unique : ℕ
  pub suffix : ℕ

abbrev pub eqb_option : Option ℕ → Option ℕ → Bool
eqb_option none none = true
eqb_option none (some b) = false
eqb_option (some a) none = false
eqb_option (some a) (some b) = a == b

abbrev pub eqb_path : StoragePath → StoragePath → Bool
eqb_path p q =
    eqb_option p.org q.org
    && eqb_option p.user q.user
    && eqb_option p.folder q.folder
    && p.unique == q.unique
    && p.suffix == q.suffix

pub data ProviderName : Type 0 where
  local s3 : ProviderName

-- `StorageService`: what a provider does with what it has stored.
pub record Provider (S : Type 0) : Type 0 where
  pub upload :
      (new_uuid : ℕ) (filename : Filename) (content_type : Mime) (org user : Option ℕ)
      → FileObject
      → S
      → Result (StoragePath × ProviderName × S)
  pub download : StoragePath → S → Result (List ℕ)
  pub delete : StoragePath → S → Result S

-- A file of the local file system.
pub record Stored : Type 0 where
  pub path : StoragePath
  pub bytes : List ℕ

abbrev pub Disk : Type 0
Disk = List Stored

abbrev pub at_path : StoragePath → Stored → Bool
at_path p x = eqb_path x.path p

-- `open(path, "wb")` empties the file, or makes it.
unfoldable pub open_wb : StoragePath → Disk → Disk
open_wb p disk = delete_where (at_path p) disk ++ record { path = p; bytes = [] } ∷ []

-- `f.write(chunk)`
unfoldable pub write_chunk : StoragePath → Disk → List ℕ → Disk
write_chunk p disk chunk =
    update_where (at_path p) (λ x. record x { bytes = x.bytes ++ chunk }) disk

abbrev pub chunk_size : ℕ
chunk_size = 8192

-- The rounds that are enough for a file.
abbrev pub rounds : FileObject → ℕ
rounds f = length f.unread + 1

-- The number of a UUID's first two hexadecimal digits: a UUID has 32, and the divisor is 16 to the power of 30.
abbrev pub first_two : ℕ → ℕ
first_two unique = unique / 1329227995784915872903807060280344576

unfoldable pub local_upload :
    (new_uuid : ℕ) (filename : Filename) (content_type : Mime) (org user : Option ℕ)
    → FileObject
    → Disk
    → Result (StoragePath × ProviderName × Disk)
unfolding open_wb write_chunk each_chunk
local_upload new_uuid filename content_type org user f disk =
    let path : StoragePath = record {
      org = org;
      user = user;
      folder = some (first_two new_uuid);
      unique = new_uuid;
      suffix = filename.suffix;
    } in
    let (disk, f) = each_chunk (write_chunk path) (rounds f) chunk_size f (open_wb path disk) in
    ok (path, local, disk)

-- The file that is found, or the exception if there is none.
abbrev pub first_bytes : List Stored → Result (List ℕ)
first_bytes [] = err file_not_found
first_bytes (x ∷ rest) = ok x.bytes

unfoldable pub local_download : StoragePath → Disk → Result (List ℕ)
local_download p disk = first_bytes (select (at_path p) disk)

unfoldable pub local_delete : StoragePath → Disk → Result Disk
local_delete p disk = ok (if exists (at_path p) disk then delete_where (at_path p) disk else disk)

unfoldable pub local_provider : Provider Disk
unfolding local_upload local_download local_delete
local_provider = record { upload = local_upload; download = local_download; delete = local_delete }

-- The calls of boto3's client on the bucket; what they raise is a `ClientError`.
pub record S3Client (S : Type 0) : Type 0 where
  pub upload_fileobj : (key : StoragePath) (content_type : Mime) → FileObject → S → Option S
  pub get_object : StoragePath → S → Option (List ℕ)
  pub delete_object : StoragePath → S → Option S

-- `raise Exception(...)` on a `ClientError`.
abbrev pub client_result {ℓ} : {A : Type ℓ} → Option A → Result A
client_result none = err storage_error
client_result (some a) = ok a

module _ {S : Type 0} (client : S3Client S) where
  unfoldable pub s3_upload :
      (new_uuid : ℕ) (filename : Filename) (content_type : Mime) (org user : Option ℕ)
      → FileObject
      → S
      → Result (StoragePath × ProviderName × S)
  s3_upload new_uuid filename content_type org user f bucket =
      let key : StoragePath = record {
        org = org;
        user = user;
        folder = none;
        unique = new_uuid;
        suffix = filename.suffix;
      } in
      do
        bucket ← client_result (client.upload_fileobj key content_type f bucket)
        ok (key, s3, bucket)

  unfoldable pub s3_provider : Provider S
  unfolding s3_upload
  s3_provider = record {
    upload = s3_upload;
    download = λ key bucket. client_result (client.get_object key bucket);
    delete = λ key bucket. client_result (client.delete_object key bucket);
  }

-- The object of hashlib.sha256.
pub record Sha256 : Type 1 where
  pub Hash : Type 0
  pub start : Hash
  pub update : Hash → List ℕ → Hash
  pub hexdigest : Hash → ℕ

-- Documented: updates in a row are one update with the bytes in a row.
pub record IsSha256 (sha : Sha256) : Type 0 where
  pub update_nothing : (h : sha.Hash) → sha.update h [] ≡ h
  pub update_append :
      (h : sha.Hash) (xs ys : List ℕ) → sha.update (sha.update h xs) ys ≡ sha.update h (xs ++ ys)

module _ (sha : Sha256) where
  unfoldable pub calculate_checksum : FileObject → ℕ × FileObject
  unfolding each_chunk seek_start
  calculate_checksum f =
      let f = seek_start f in
      let (h, f) = each_chunk sha.update (rounds f) chunk_size f sha.start in
      (sha.hexdigest h, seek_start f)

  module _ {S : Type 0} (provider : Provider S) where
    -- `FileStorageService.upload`
    unfoldable pub storage_upload :
        (new_uuid : ℕ) (filename : Filename) (content_type : Mime) (org user : Option ℕ)
        → FileObject
        → S
        → Result ((StoragePath × ProviderName × ℕ) × S)
    unfolding calculate_checksum
    storage_upload new_uuid filename content_type org user f stored = do
      let (checksum, f) = calculate_checksum f
      (path, name, stored) ← provider.upload new_uuid filename content_type org user f stored
      ok ((path, name, checksum), stored)
