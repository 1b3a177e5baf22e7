-- ===== src/Knowledge/Files.antt =====
-- `validate_document_file` of apps/backend/app/files.py on the bytes of an upload. The extension of
-- the file's name, in small letters, is given.
use eap.Prelude.{
  ℕ, String, Bool, true, false, not, ◌&&◌, ◌||◌, ◌*◌, ◌==◌, ltb, List, [], ◌∷◌, if◌then◌else◌,
  str_eq,
}
use eap.Prelude.Table.{length, take}
use eap.Errors.{Result, ◌>>◌, raise_if, empty_file, file_too_large, unsupported_format}

-- `MAX_FILE_SIZE_BYTES`
abbrev pub max_file_size_bytes : ℕ
max_file_size_bytes = 15 * 1024 * 1024

-- `_ALLOWED_EXTENSIONS`
abbrev is_allowed : String → Bool
is_allowed ext =
    str_eq ext "pdf"
    || str_eq ext "docx"
    || str_eq ext "xlsx"
    || str_eq ext "txt"
    || str_eq ext "md"
    || str_eq ext "csv"
    || str_eq ext "json"
    || str_eq ext "html"

abbrev zip_magic : List ℕ
zip_magic = 80 ∷ 75 ∷ 3 ∷ 4 ∷ []

abbrev pdf_magic : List ℕ
pdf_magic = 37 ∷ 80 ∷ 68 ∷ 70 ∷ 45 ∷ []

-- `content.startswith(prefix)`
abbrev pub starts_with : (prefix content : List ℕ) → Bool
starts_with [] content = true
starts_with (p ∷ ps) [] = false
starts_with (p ∷ ps) (c ∷ cs) = p == c && starts_with ps cs

-- `part in content`
abbrev pub contains : (part content : List ℕ) → Bool
contains part [] = starts_with part []
contains part (c ∷ cs) = starts_with part (c ∷ cs) || contains part cs

abbrev is_mismatch : (ext : String) (content : List ℕ) → Bool
is_mismatch ext content =
    if str_eq ext "pdf"
    then not (contains pdf_magic (take 1024 content))
    else (str_eq ext "docx" || str_eq ext "xlsx") && not (starts_with zip_magic content)

unfoldable pub validate_document_file : (ext : String) (content : List ℕ) → Result (Unit {0})
validate_document_file ext content =
    raise_if (length content == 0) 422 empty_file
    >> raise_if (ltb max_file_size_bytes (length content)) 422 file_too_large
    >> raise_if (not (is_allowed ext)) 422 unsupported_format
    >> raise_if (is_mismatch ext content) 422 unsupported_format
