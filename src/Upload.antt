-- ===== src/Upload.antt =====
-- src/upload/upload.service.ts and src/upload/upload.controller.ts: the images of turfs. Cloudinary is
-- a parameter. The limit of FileInterceptor on the size of a file, which is also that of
-- `uploadTurfImages`, is left to it.
pub mod Names
pub mod Images
use turf_sync.Prelude.{
  ℕ, ◌+◌, ◌-◌, ◌*◌, ◌≡◌, Bool, true, false, not, ◌&&◌, ◌||◌, Option, none, some, List, [], ◌∷◌,
  ◌++◌, ◌≢◌, is_some, ltb, ◌==◌, if◌then◌else◌, length, drop,
}
use turf_sync.Table.{find_many, find_unique, update}
use turf_sync.Schema.{Db, Turf, Text, codes}
use turf_sync.Outcome.{
  bad_request, not_found, internal_server_error, known_request_error, record_not_found,
  client_error, type_error, Reason, Result, ok, err,
}
use turf_sync.Turf.Handlers.{change_turf}
use turf_sync.TimeText.{text_eq}

-- A character in front of the first part.
unfoldable pub extend_first : ℕ → List Text → List Text
extend_first c [] = (c ∷ []) ∷ []
extend_first c (part ∷ parts) = (c ∷ part) ∷ parts

-- `s.split('/')`
unfoldable pub split_slash : Text → List Text
unfolding extend_first
split_slash [] = [] ∷ []
split_slash (c ∷ cs) = if c == b'/' then [] ∷ split_slash cs else extend_first c (split_slash cs)

-- `parts.join('/')`
unfoldable pub join_slash : List Text → Text
join_slash [] = []
join_slash (part ∷ []) = part
join_slash (part ∷ next ∷ parts) = part ++ (b'/' ∷ join_slash (next ∷ parts))

-- `parts.slice(-3)`
unfoldable pub last_three : List Text → List Text
last_three parts = drop (length parts - 3) parts

-- `[^/.]*`
unfoldable pub is_plain : Text → Bool
is_plain [] = true
is_plain (c ∷ cs) = not (c == b'/') && (not (c == b'.') && is_plain cs)

-- `[^/.]+`, up to the end
unfoldable pub is_extension : Text → Bool
unfolding is_plain
is_extension [] = false
is_extension (c ∷ cs) = is_plain (c ∷ cs)

-- `s.replace(/\.[^/.]+$/, '')`
unfoldable pub strip_extension : Text → Text
unfolding is_extension
strip_extension [] = []
strip_extension (c ∷ cs) = if c == b'.' && is_extension cs then [] else c ∷ strip_extension cs

-- A text with no slash, such as one part of a path.
abbrev pub is_part : Text → Bool
is_part [] = true
is_part (c ∷ cs) = not (c == b'/') && is_part cs

-- `publicId` of `deleteImage`
unfoldable pub public_id_of : Text → Text
unfolding split_slash join_slash last_three strip_extension
public_id_of url = strip_extension (join_slash (last_three (split_slash url)))

pub record UploadedFile : Type 0 where
  pub size : ℕ
  pub mimetype : Text

-- What `upload_stream` calls back with.
pub data UploadReply : Type 0 where
  failed : UploadReply
  no_url : UploadReply
  secure_url : Text → UploadReply

-- Cloudinary: what it stores under which public id. A file that it takes gets a name in the folder, and
-- the URL ends in its public id and an extension. `destroy` removes what a public id names, if
-- anything; `none` is an exception.
pub record Cloudinary : Type 1 where
  pub Store : Type 0
  pub holds : Text → Store → Bool
  pub upload : Text → UploadedFile → Store → UploadReply × Store
  pub destroy : Text → Store → Option Store
  pub upload_stores :
      (folder : Text) (file : UploadedFile) (s s' : Store) (url : Text)
      → upload folder file s ≡ (secure_url url, s')
      → (base name extension : Text) × (url
          ≡ base ++ (b'/' ∷ (folder ++ (b'/' ∷ (name ++ (b'.' ∷ extension))))))
        × (is_part name ≡ true)
        × (is_extension extension ≡ true)
        × (holds (folder ++ (b'/' ∷ name)) s' ≡ true)
  pub destroy_other :
      (public_id other : Text) (s s' : Store)
      → destroy public_id s ≡ some s'
      → public_id ≢ other
      → holds other s' ≡ holds other s

-- `allowedTypes.includes(file.mimetype)`
abbrev pub is_allowed : Text → Bool
is_allowed mimetype =
    text_eq mimetype (codes "image/jpeg")
    || (text_eq mimetype (codes "image/png") || text_eq mimetype (codes "image/webp"))

-- `images.includes(url)`
unfoldable pub has_image : Text → List Text → Bool
has_image url [] = false
has_image url (image ∷ images) = text_eq image url || has_image url images

-- `images.filter((img) => img !== url)`
abbrev pub without_image : Text → List Text → List Text
without_image url images = find_many (λ image. not (text_eq image url)) images

abbrev pub push_image : Text → Turf → Turf
push_image url t = record t { images = t.images ++ (url ∷ []) }

abbrev pub set_images : List Text → Turf → Turf
set_images images t = record t { images = images }

-- `${turfId}`, of which `uuid` gives the text, in its folder
abbrev pub folder_of : Text → Text
folder_of id = join_slash (codes "turfbook" ∷ codes "turfs" ∷ id ∷ [])

module _ {Store : Type 0} where
  -- The callback of `upload_stream`.
  abbrev pub settle : UploadReply × Store → Result Text × Store
  settle (failed, s) = (err client_error, s)
  settle (no_url, s) = (err (bad_request Reason.upload_failed), s)
  settle (secure_url url, s) = (ok url, s)

  -- The rest of `uploadTurfImage` behind the upload.
  abbrev pub save_image : ℕ → Db → Result Text × Store → Result Text × Db × Store
  save_image turf_id db (err e, s) = (err e, db, s)
  save_image turf_id db (ok url, s) =
      if is_some (find_unique (λ (t : Turf). t.id) turf_id db.turfs)
      then (ok url, change_turf turf_id (push_image url) db, s)
      else (err (known_request_error record_not_found), db, s)

  -- The rest of `deleteTurfImage` behind the deletion.
  abbrev pub save_images :
      ℕ → List Text → Db → Result (Unit {0}) × Store → Result (Unit {0}) × Db × Store
  save_images turf_id images db (err e, s) = (err e, db, s)
  save_images turf_id images db (ok done, s) =
      (ok done, change_turf turf_id (set_images images) db, s)

module _ (cloudinary : Cloudinary) (uuid : ℕ → Text) where
  open cloudinary use {Store, upload, destroy}

  -- `uploadTurfImages`
  unfoldable pub upload_turf_images : UploadedFile → ℕ → Store → Result Text × Store
  upload_turf_images file turf_id s =
      if ltb (5 * 1024 * 1024) file.size
      then (err (bad_request Reason.image_too_large), s)
      else if not (is_allowed file.mimetype)
      then (err (bad_request Reason.invalid_file_type), s)
      else settle (upload (folder_of (uuid turf_id)) file s)

  -- `uploadTurfImage`; of no file, `file.size` throws.
  unfoldable pub upload_turf_image : Option UploadedFile → ℕ → Db → Store → Result Text × Db × Store
  unfolding upload_turf_images
  upload_turf_image none turf_id db s = (err type_error, db, s)
  upload_turf_image (some file) turf_id db s =
      save_image turf_id db (upload_turf_images file turf_id s)

module _ (cloudinary : Cloudinary) where
  open cloudinary use {Store, destroy}

  -- `deleteImage`
  unfoldable pub delete_image : Text → Store → Result (Unit {0}) × Store
  delete_image url s = elim (destroy (public_id_of url) s) [
    | none ↦ (err (internal_server_error Reason.delete_failed), s)
    | some s' ↦ (ok tt, s')
  ]

  -- `deleteTurfImage` behind its guards, where `images` is what the handler has read
  unfoldable pub drop_image : ℕ → Text → List Text → Db → Store → Result (Unit {0}) × Db × Store
  unfolding delete_image
  drop_image turf_id url images db s =
      save_images turf_id (without_image url images) db (delete_image url s)

  -- `deleteTurfImage`
  unfoldable pub delete_turf_image : ℕ → Text → Db → Store → Result (Unit {0}) × Db × Store
  unfolding drop_image
  delete_turf_image turf_id url db s = elim (find_unique (λ (t : Turf). t.id) turf_id db.turfs) [
    | none ↦ (err (not_found Reason.turf_not_found), db, s)
    | some t ↦
        if has_image url t.images
        then drop_image turf_id url t.images db s
        else (err (bad_request Reason.image_not_found), db, s)
  ]
