-- ===== src/Files/Keeping.antt =====
-- What is stored, of app/services/storage.py: the files on the local disk under uploads and deletions.
use python_fastapi_multiauth.Common.{
  ℕ, ◌≡◌, refl, ap, ◌∙◌, true, false, Option, none, some, List, [], ◌∷◌, ◌++◌, select, delete_where,
  exists, arith, select-append, select-delete_where, select-update_apart, select-delete_apart,
  select-exists, file_not_found, Bool-cases, inl, inr, Result, ok, err, ◌>>=◌,
}
use mathlib.Core.List.{append-nil, append_assoc}
use python_fastapi_multiauth.Files.Types.{Mime}
use python_fastapi_multiauth.Files.Stream.{FileObject, seek_start, each_chunk-total}
use python_fastapi_multiauth.Files.Storage.{
  StoragePath, Filename, eqb_option, eqb_path, rounds, chunk_size, local, Provider, first_bytes,
  Disk, at_path, open_wb, write_chunk, first_two, local_upload, local_download, local_delete,
  local_provider, Sha256, IsSha256, calculate_checksum, storage_upload,
}

eqb_option_refl : (o : Option ℕ) → eqb_option o o ≡ true
eqb_option_refl none = refl
eqb_option_refl (some a) = ground arith

eqb_path_refl : (p : StoragePath) → eqb_path p p ≡ true
eqb_path_refl p =
    rw (eqb_option_refl p.org, eqb_option_refl p.user, eqb_option_refl p.folder) (ground arith)

eqb_option-eq : (a b : Option ℕ) → eqb_option a b ≡ true → a ≡ b
eqb_option-eq none none e = refl
eqb_option-eq none (some b) e = ground arith
eqb_option-eq (some a) none e = ground arith
eqb_option-eq (some a) (some b) e = ground arith

write-nothing : (p : StoragePath) (disk : Disk) → write_chunk p disk [] ≡ disk
unfolding write_chunk
write-nothing p [] = refl
write-nothing p (x ∷ disk) = ground (arith, write-nothing p disk, append-nil x.bytes)

write-append :
    (p : StoragePath) (disk : Disk) (xs ys : List ℕ)
    → write_chunk p (write_chunk p disk xs) ys ≡ write_chunk p disk (xs ++ ys)
unfolding write_chunk
write-append p [] xs ys = refl
write-append p (x ∷ disk) xs ys =
    ground (arith, write-append p disk xs ys, append_assoc x.bytes xs ys)

select-write :
    (p : StoragePath) (disk : Disk) (chunk : List ℕ)
    → select (at_path p) (write_chunk p disk chunk) ≡ write_chunk p (select (at_path p) disk) chunk
unfolding write_chunk
select-write p [] chunk = refl
select-write p (x ∷ disk) chunk = ground (arith, select-write p disk chunk)

written :
    (p : StoragePath) (disk : Disk) (chunk : List ℕ)
    → select (at_path p) (write_chunk p (open_wb p disk) chunk)
      ≡ record { path = p; bytes = chunk } ∷ []
unfolding write_chunk open_wb
written p disk chunk =
    select-write p (open_wb p disk) chunk
    ∙ ap (λ found. write_chunk p found chunk)
        (select-append (at_path p) (delete_where (at_path p) disk)
          (record { path = p; bytes = [] } ∷ []))
    ∙ rw (select-delete_where (at_path p) disk, eqb_path_refl p, eqb_path_refl p) refl

eqb_path-eq : (p q : StoragePath) → eqb_path p q ≡ true → p ≡ q
eqb_path-eq p q e =
    ground (
      arith,
      eqb_option-eq p.org q.org,
      eqb_option-eq p.user q.user,
      eqb_option-eq p.folder q.folder,
    )

-- A file at one path is not the file at another.
apart :
    (x p other : StoragePath)
    → eqb_path p other ≡ false
    → eqb_path x p ≡ true
    → eqb_path x other ≡ false
apart x p other ne e = rw (eqb_path-eq x p e) ne

written_other :
    (p other : StoragePath) (disk : Disk) (chunk : List ℕ)
    → eqb_path p other ≡ false
    → select (at_path other) (write_chunk p (open_wb p disk) chunk) ≡ select (at_path other) disk
unfolding write_chunk open_wb
written_other p other disk chunk ne =
    select-update_apart (at_path p) (at_path other) _ (open_wb p disk)
      (λ x at. (apart x.path p other ne at, apart x.path p other ne at))
    ∙ select-append (at_path other) (delete_where (at_path p) disk) _
    ∙ rw
        (
          select-delete_apart (at_path p) (at_path other) disk (λ x at. apart x.path p other ne at),
          ne,
        )
        (append-nil (select (at_path other) disk))

-- The file at a path is gone, or holds these bytes, and the files at other paths are what they were.
abbrev pub Replaced : StoragePath → Result (List ℕ) → Disk → Disk → Type 0
Replaced p content disk disk' =
    (local_download p disk' ≡ content)
    × ((other : StoragePath)
        → eqb_path p other ≡ false
        → local_download other disk' ≡ local_download other disk)

upload-Replaced :
    (p : StoragePath) (disk : Disk) (bytes : List ℕ)
    → Replaced p (ok bytes) disk (write_chunk p (open_wb p disk) bytes)
unfolding local_download
upload-Replaced p disk bytes = (
  ap first_bytes (written p disk bytes),
  λ other ne. ap first_bytes (written_other p other disk bytes ne),
)

delete-Replaced :
    (p : StoragePath) (disk : Disk)
    → (disk' : Disk) × (local_delete p disk ≡ ok disk') × Replaced p (err file_not_found) disk disk'
unfolding local_delete local_download
delete-Replaced p disk = elim (Bool-cases (exists (at_path p) disk)) [
  | inl found ↦ (
    delete_where (at_path p) disk,
    rw found refl,
    (
      ap first_bytes (select-delete_where (at_path p) disk),
      λ other ne. ap first_bytes (
          select-delete_apart (at_path p) (at_path other) disk
            (λ x at. apart x.path p other ne at)),
    ),
  )
  | inr missing ↦ (
    disk,
    rw missing refl,
    (ap first_bytes (select-exists (at_path p) disk missing), λ other ne. refl),
  )
]

module _ (sha : Sha256) (law : IsSha256 sha) where
  -- The checksum is the hash of the whole content, wherever the file was read to before.
  checksum-whole :
      (f : FileObject)
      → calculate_checksum sha f
        ≡ (sha.hexdigest (sha.update sha.start f.content), record f { unread = f.content })
  unfolding calculate_checksum seek_start
  checksum-whole f =
      rw
        (each_chunk-total sha.update law.update_nothing law.update_append (rounds (seek_start f))
          chunk_size (seek_start f) sha.start (omega arith) (omega arith))
        refl

  storage_upload-whole :
      {S : Type 0} (provider : Provider S) (new_uuid : ℕ) (filename : Filename)
      (content_type : Mime) (org user : Option ℕ) (f : FileObject) (stored : S)
      → storage_upload sha provider new_uuid filename content_type org user f stored ≡ (
          provider.upload new_uuid filename content_type org user
            (record f { unread = f.content })
            stored
          >>= λ r. ok ((r.0, r.1, sha.hexdigest (sha.update sha.start f.content)), r.2))
  unfolding storage_upload
  storage_upload-whole provider new_uuid filename content_type org user f stored =
      ap
        (λ (c : ℕ × FileObject).
          provider.upload new_uuid filename content_type org user c.1 stored >>= λ r.
          ok ((r.0, r.1, c.0), r.2))
        (checksum-whole f)

  -- A download after an upload gives the whole content, and after a deletion raises; the
  -- checksum is the hash of the whole content, and the files at other paths are what they
  -- were.
  pub storage_upload-download :
      (new_uuid : ℕ) (filename : Filename) (content_type : Mime) (org user : Option ℕ)
      (f : FileObject) (disk : Disk)
      → let path : StoragePath = record {
        org = org;
        user = user;
        folder = some (first_two new_uuid);
        unique = new_uuid;
        suffix = filename.suffix;
      } in
        (disk' : Disk) × (storage_upload sha local_provider new_uuid filename content_type org user
            f disk
          ≡ ok ((path, local, sha.hexdigest (sha.update sha.start f.content)), disk'))
        × Replaced path (ok f.content) disk disk'
        × ((disk'' : Disk) × (local_delete path disk' ≡ ok disk'')
            × Replaced path (err file_not_found) disk' disk'')
  unfolding local_provider local_upload seek_start
  storage_upload-download new_uuid filename content_type org user f disk =
      let path : StoragePath = record {
        org = org;
        user = user;
        folder = some (first_two new_uuid);
        unique = new_uuid;
        suffix = filename.suffix;
      } in
      let disk' = write_chunk path (open_wb path disk) f.content in
      (
        disk',
        storage_upload-whole local_provider new_uuid filename content_type org user f disk
            ∙ ap
                (λ (d : Disk × FileObject).
                  ok ((path, local, sha.hexdigest (sha.update sha.start f.content)), d.0))
                (each_chunk-total (write_chunk path) (write-nothing path) (write-append path)
                  (rounds (seek_start f)) chunk_size (seek_start f) (open_wb path disk)
                  (omega arith) (omega arith)),
        upload-Replaced path disk f.content,
        delete-Replaced path disk',
      )
