-- ===== src/Files/Guards.antt =====
-- The tests of `upload_file` in app/api/v1/endpoints/files.py.
use python_fastapi_multiauth.Common.{
  ℕ, ◌*◌, ◌≤◌, ◌≡◌, sym, ap, true, false, not, Option, List, length, arith, Bool-cases, inl, inr,
  ok, http, bind-ok, raise_if-ok, except_as, except_as-ok, ok-injective,
}
use python_fastapi_multiauth.Files.Stream.{
  FileObject, seek_start, take, stream_size, stream_size-total,
}
use python_fastapi_multiauth.Files.Storage.{rounds, chunk_size}
use python_fastapi_multiauth.Files.Types.{
  Mime, octet_stream, default_allowed_image_types, validate_file_type, type_allowed,
  verify_mime_type,
}
use python_fastapi_multiauth.Files.Upload.{
  Settings, or_else, Reencode, optimize_image, prepare, accept_file,
}

-- The content type is the detected one, and the claim is the same or is tolerated.
verify-detected :
    (from_buffer : List ℕ → Mime) (file : FileObject) (claimed : Mime) {content_type : Mime}
    → verify_mime_type from_buffer file claimed ≡ ok content_type
    → content_type ≡ from_buffer (take 2048 file.content)
unfolding verify_mime_type seek_start
verify-detected from_buffer file claimed {content_type} h = ground (arith)

module _ (settings : Settings) (from_buffer : List ℕ → Mime) (reencode : Reencode) where
  -- What `accept_file` has tested when it returns.
  pub record Accepted (file : FileObject) (content_type : Mime) (stored : FileObject) (size : ℕ)
      : Type 0 where
    pub detected : content_type ≡ from_buffer (take 2048 file.content)
    pub not_blocked : validate_file_type content_type settings.blocked_file_types_list ≡ false
    pub is_allowed : type_allowed settings.allowed_file_types_list content_type ≡ true
    pub small : length file.content ≤ settings.max_file_size_mb * 1024 * 1024
    pub whole : size ≡ length stored.content

  sized :
      (file : FileObject) (size : ℕ)
      → stream_size (rounds file) chunk_size (settings.max_file_size_mb * 1024 * 1024) file 0
        ≡ ok size
      → (size ≡ length file.unread) × (length file.unread ≤ settings.max_file_size_mb * 1024 * 1024)
  sized file size h = ground (
    arith,
    stream_size-total (rounds file) chunk_size (settings.max_file_size_mb * 1024 * 1024) file 0,
  )

  -- The end of `accept_file`.
  prepared :
      {P : Type 0} (actual : Mime) (file : FileObject) (read_size : ℕ)
      → read_size ≡ length file.content
      → {content_type : Mime} {stored : FileObject} {size : ℕ}
      → prepare reencode actual file read_size ≡ ok (content_type, stored, size)
      → (content_type ≡ actual → size ≡ length stored.content → P)
      → P
  unfolding prepare
  prepared actual file read_size measured {content_type} {stored} {size} h use_it =
      elim (Bool-cases (validate_file_type actual default_allowed_image_types)) [
        | inl is_image ↦
            bind-ok (optimize_image reencode file) (λ file. ok (actual, file, length file.content))
              (rw is_image at h)
              (λ output made h.
                use_it (ap (λ t. t.0) (sym (ok-injective h))) (ground (arith, ok-injective h)))
        | inr other ↦
            let h : ok (actual, file, read_size) ≡ ok (content_type, stored, size) =
              rw other at h in
            use_it (ap (λ t. t.0) (sym (ok-injective h))) (ground (arith, ok-injective h))
      ]

  pub accept_file-Accepted :
      (claimed : Option Mime) (file : FileObject) {content_type : Mime} {stored : FileObject}
      {size : ℕ}
      → accept_file settings from_buffer reencode claimed file ≡ ok (content_type, stored, size)
      → Accepted file content_type stored size
  unfolding accept_file
  accept_file-Accepted claimed file {content_type} {stored} {size} h =
      bind-ok
        (except_as (http "415") (verify_mime_type from_buffer file (or_else claimed octet_stream)))
        _ h
        (λ actual verified h.
          raise_if-ok (validate_file_type actual settings.blocked_file_types_list) (http "415") _ h
            (λ not_blocked h.
              raise_if-ok (not (type_allowed settings.allowed_file_types_list actual)) (http "415")
                _ h
                (λ is_allowed h.
                  bind-ok
                    (stream_size (rounds (seek_start file)) chunk_size
                      (settings.max_file_size_mb * 1024 * 1024) (seek_start file) 0)
                    _ h
                    (λ read_size measured h.
                      prepared actual (seek_start file) read_size
                        (sized (seek_start file) read_size measured).0 h
                        (λ same whole. record {
                          detected = rw same (
                              verify-detected from_buffer file _
                                (except_as-ok (http "415") _ verified));
                          not_blocked = rw same not_blocked;
                          is_allowed = rw same (ground (arith, is_allowed));
                          small = (sized (seek_start file) read_size measured).1;
                          whole = whole;
                        })))))
