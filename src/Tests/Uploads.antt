-- ===== src/Tests/Uploads.antt =====
-- A Cloudinary that stores a list of public ids, and an image that is uploaded and deleted.
use turf_sync.Prelude.{
  ℕ, ◌≡◌, ◌≢◌, refl, sym, ap, ◌∙◌, inl, inr, arith, true, ◌||◌, Option, some, List, [], ◌∷◌, ◌++◌,
  Bool-cases,
}
use turf_sync.Schema.{Text, codes, Db}
use turf_sync.Table.{find_many, find_unique}
use turf_sync.Outcome.{Result, ok, err, bad_request, Reason}
use turf_sync.TimeText.{text_eq, text_eq_refl, text_eq→eq}
use turf_sync.Http.Pipes.{transform}
use turf_sync.Upload.{
  Cloudinary, UploadedFile, UploadReply, secure_url, has_image, without_image, public_id_of,
  folder_of, is_extension, is_part, upload_turf_image, delete_turf_image,
}
use turf_sync.Upload.Images.{turf_row, upload_turf_image-delete_turf_image}
use turf_sync.Tests.Data.{turf, open_db}

-- The URL of the file in a folder.
abbrev url_in : Text → Text
url_in folder =
    codes "https://cloud/v1" ++ (b'/' ∷ (folder ++ (b'/' ∷ (codes "pic" ++ (b'.' ∷ codes "jpg")))))

has_image-without_image :
    (other public_id : Text) (s : List Text)
    → public_id ≢ other
    → has_image other (without_image public_id s) ≡ has_image other s
unfolding has_image find_many
has_image-without_image other public_id [] ne = refl
has_image-without_image other public_id (x ∷ xs) ne =
    let same = λ (h : text_eq x public_id ≡ true) (k : text_eq x other ≡ true).
      ne (sym (text_eq→eq x public_id h) ∙ text_eq→eq x other k) in
    let ih = has_image-without_image other public_id xs ne in
    elim (Bool-cases (text_eq x public_id)) [
      | inl t ↦ elim (Bool-cases (text_eq x other)) [
        | inl o ↦ absurd (same t o)
        | inr o ↦ rw (t, o) ih
      ]
      | inr f ↦ rw f (ap (λ b. text_eq x other || b) ih)
    ]

abbrev take_file : Text → UploadedFile → List Text → UploadReply × List Text
take_file folder file s = (secure_url (url_in folder), (folder ++ (b'/' ∷ codes "pic")) ∷ s)

take_file_stores :
    (folder : Text) (file : UploadedFile) (s s' : List Text) (url : Text)
    → take_file folder file s ≡ (secure_url url, s')
    → (base name extension : Text) × (url
        ≡ base ++ (b'/' ∷ (folder ++ (b'/' ∷ (name ++ (b'.' ∷ extension))))))
      × (is_part name ≡ true)
      × (is_extension extension ≡ true)
      × (has_image (folder ++ (b'/' ∷ name)) s' ≡ true)
unfolding has_image is_extension
take_file_stores folder file s s' url h =
    let at_url : url ≡ url_in folder = ground arith in
    let stored : s' ≡ (folder ++ (b'/' ∷ codes "pic")) ∷ s = ground arith in
    (
      codes "https://cloud/v1",
      codes "pic",
      codes "jpg",
      at_url,
      refl,
      refl,
      rw (stored, text_eq_refl (folder ++ (b'/' ∷ codes "pic"))) refl,
    )

destroy_other_lem :
    (public_id other : Text) (s s' : List Text)
    → ◌≡◌ {A = Option (List Text)} (some (without_image public_id s)) (some s')
    → public_id ≢ other
    → has_image other s' ≡ has_image other s
destroy_other_lem public_id other s s' h ne =
    let same : without_image public_id s ≡ s' = ground arith in
    rw (← same) (has_image-without_image other public_id s ne)

abbrev cloud : Cloudinary
cloud = record {
  Store = List Text;
  holds = has_image;
  upload = take_file;
  destroy = λ public_id s. some (without_image public_id s);
  upload_stores = take_file_stores;
  destroy_other = destroy_other_lem;
}

abbrev photo : UploadedFile
photo = record { size = 1000; mimetype = codes "image/png" }

abbrev uuid_text : ℕ → Text
uuid_text n = codes "f302f2a5-e425-4731-8ac0-397d0a1d9ee1"

abbrev photo_url : Text
photo_url = url_in (folder_of (uuid_text 1))

abbrev with_photo : Result Text × Db × List Text
with_photo = upload_turf_image cloud uuid_text (some photo) 1 open_db []

not_a_picture :
    (upload_turf_image cloud uuid_text
      (some (record photo { mimetype = codes "text/html" }))
      1
      open_db
      []).0
    ≡ err (bad_request Reason.invalid_file_type)
unfolding upload_turf_image text_eq
not_a_picture = refl

upload_turf_image-delete_turf_image_example :
    ((delete_turf_image cloud 1 photo_url with_photo.1 with_photo.2).0 ≡ ok tt)
    × ((j : ℕ)
        → turf_row j (delete_turf_image cloud 1 photo_url with_photo.1 with_photo.2).1
          ≡ turf_row j open_db)
    × ((base public_id extension : Text) × (photo_url
          ≡ base ++ (b'/' ∷ (public_id ++ (b'.' ∷ extension))))
        × (is_extension extension ≡ true)
        × (has_image public_id with_photo.2 ≡ true)
        × (has_image public_id (delete_turf_image cloud 1 photo_url with_photo.1 with_photo.2).2
            ≡ true))
unfolding upload_turf_image delete_turf_image public_id_of transform text_eq has_image find_unique
upload_turf_image-delete_turf_image_example =
    upload_turf_image-delete_turf_image cloud uuid_text photo 1 photo_url turf open_db with_photo.1
      [] with_photo.2 (without_image (public_id_of photo_url) with_photo.2) refl refl refl refl refl
