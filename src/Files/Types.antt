-- ===== src/Files/Types.antt =====
-- Content types: the lists of app/api/v1/endpoints/files.py, and `validate_file_type` and `verify_mime_type` of
-- app/services/storage.py.
use python_fastapi_multiauth.Common.{
  ℕ, Bool, true, List, [], ◌∷◌, ◌++◌, not, ◌&&◌, ◌||◌, ◌==◌, if◌then◌else◌, exists, value_error,
  Result, ok, err,
}
use python_fastapi_multiauth.Files.Stream.{FileObject, read, seek_start, truthy}

-- A content type, "type/subtype": the texts are numbers.
pub record Mime : Type 0 where
  pub type : ℕ
  pub subtype : ℕ

abbrev pub text : ℕ
text = 0

abbrev pub image : ℕ
image = 1

abbrev pub application : ℕ
application = 2

-- "application/octet-stream"
abbrev pub octet_stream : Mime
octet_stream = record { type = application; subtype = 0 }

abbrev pub eqb_mime : Mime → Mime → Bool
eqb_mime a b = a.type == b.type && a.subtype == b.subtype

-- `content_type in allowed_types`
unfoldable pub validate_file_type : Mime → List Mime → Bool
validate_file_type content_type allowed_types = exists (eqb_mime content_type) allowed_types

-- jpeg, png, gif and webp.
abbrev pub default_allowed_image_types : List Mime
default_allowed_image_types =
    record { type = image; subtype = 0 }
    ∷ record { type = image; subtype = 1 }
    ∷ record { type = image; subtype = 2 }
    ∷ record { type = image; subtype = 3 }
    ∷ []

-- pdf, msword, the two of Office Open XML, ms-excel; plain text, CSV and Markdown; JSON.
abbrev pub default_allowed_document_types : List Mime
default_allowed_document_types =
    record { type = application; subtype = 1 }
    ∷ record { type = application; subtype = 2 }
    ∷ record { type = application; subtype = 3 }
    ∷ record { type = application; subtype = 4 }
    ∷ record { type = application; subtype = 5 }
    ∷ record { type = text; subtype = 0 }
    ∷ record { type = text; subtype = 1 }
    ∷ record { type = text; subtype = 2 }
    ∷ record { type = application; subtype = 6 }
    ∷ []

abbrev pub default_allowed_types : List Mime
default_allowed_types = default_allowed_image_types ++ default_allowed_document_types

-- `settings.allowed_file_types_list`: not set, ["*"], or a list.
pub data AllowedTypes : Type 0 where
  unset any_type : AllowedTypes
  only : List Mime → AllowedTypes

-- The test of `upload_file` on the allowed types.
unfoldable pub type_allowed : AllowedTypes → Mime → Bool
unfolding validate_file_type
type_allowed unset content_type = validate_file_type content_type default_allowed_types
type_allowed any_type content_type = true
type_allowed (only allowed_types) content_type = validate_file_type content_type allowed_types

-- `claimed_type.startswith("text/") and actual_type.startswith("text/")`, or the generic type.
abbrev pub tolerated : Mime → Mime → Bool
tolerated claimed_type actual_type =
    claimed_type.type == text && actual_type.type == text || eqb_mime claimed_type octet_stream

-- `from_buffer` is libmagic's detection.
unfoldable pub verify_mime_type : (from_buffer : List ℕ → Mime) → FileObject → Mime → Result Mime
unfolding seek_start
verify_mime_type from_buffer file claimed_type =
    let (header, file) = read 2048 (seek_start file) in
    let actual_type = from_buffer header in
    if not (truthy header)
    then err (value_error "Empty file or unable to read file header")
    else if not (eqb_mime actual_type claimed_type) && not (tolerated claimed_type actual_type)
    then err (value_error "MIME type mismatch")
    else ok actual_type
