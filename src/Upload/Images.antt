-- ===== src/Upload/Images.antt =====
-- src/upload/upload.controller.ts: what an upload and a deletion leave in the tables and at Cloudinary.
use mathlib.Core.List.{append_assoc}
use turf_sync.Prelude.{
  ℕ, ◌≡◌, refl, sym, ap, ◌∙◌, inl, inr, arith, true, false, not, Option, some, List, [], ◌∷◌, ◌++◌,
  ◌==◌, if◌then◌else◌, ◌*◌, ltb, length, length-append, Bool-cases,
}
use turf_sync.Schema.{Db, Turf, Text, codes}
use turf_sync.Table.{find_many, find_unique}
use turf_sync.Table.Unique.{find_unique-update_self, find_unique-update_ne}
use turf_sync.Outcome.{Result, ok}
use turf_sync.TimeText.{text_eq_refl}
use turf_sync.Http.Pipes.{transform}
use turf_sync.Http.Uuid.{transform-is_part}
use turf_sync.Upload.{
  settle, save_image, join_slash, is_extension, is_allowed, Cloudinary, UploadedFile, UploadReply,
  failed, no_url, secure_url, folder_of, public_id_of, has_image, without_image, push_image,
  set_images, change_turf, upload_turf_image, drop_image, delete_image, delete_turf_image,
}
use turf_sync.Upload.Names.{public_id_of-url}

abbrev pub turf_row : ℕ → Db → Option Turf
turf_row id db = find_unique (λ (t : Turf). t.id) id db.turfs

has_image-push : (url : Text) (images : List Text) → has_image url (images ++ (url ∷ [])) ≡ true
unfolding has_image
has_image-push url [] = rw (text_eq_refl url)
has_image-push url (i ∷ is) = ground (arith, has_image-push url is)

without_image-push :
    (url : Text) (images : List Text)
    → has_image url images ≡ false
    → without_image url (images ++ (url ∷ [])) ≡ images
unfolding has_image find_many
without_image-push url [] h = rw (text_eq_refl url)
without_image-push url (i ∷ is) h = ground (arith, without_image-push url is)

find-change_turf :
    (f : Turf → Turf) (j id : ℕ) (t : Turf) (db : Db)
    → ((x : Turf) → (f x).id ≡ x.id)
    → turf_row id db ≡ some t
    → turf_row j (change_turf id f db) ≡ (if j == id then some (f t) else turf_row j db)
find-change_turf f j id t db same e = elim (Bool-cases (j == id)) [
  | inl y ↦
      let eq : j ≡ id = ground arith in
      rw (y, eq) (find_unique-update_self (λ (x : Turf). x.id) f id t db.turfs same e)
  | inr n ↦
      rw n (find_unique-update_ne (λ (x : Turf). x.id) f j id db.turfs same (λ q. ground arith))
]

save_image-Saved :
    {Store : Type 0} (r : UploadReply × Store) (turf_id : ℕ) (url : Text) (t : Turf) (db db' : Db)
    (s' : Store)
    → turf_row turf_id db ≡ some t
    → save_image turf_id db (settle r) ≡ (ok url, db', s')
    → (r ≡ (secure_url url, s')) × (db' ≡ change_turf turf_id (push_image url) db)
save_image-Saved (failed, s) turf_id url t db db' s' e h = cc
save_image-Saved (no_url, s) turf_id url t db db' s' e h = cc
save_image-Saved {Store} (secure_url u, s) turf_id url t db db' s' e h = saved (rw e at h)
  where
    saved :
        (◌≡◌ {A = Result Text × Db × Store}
          (ok u, change_turf turf_id (push_image u) db, s)
          (ok url, db', s'))
        → (◌≡◌ {A = UploadReply × Store} (secure_url u, s) (secure_url url, s'))
          × (db' ≡ change_turf turf_id (push_image url) db)
    saved k = ground arith

module _ (cloudinary : Cloudinary) (uuid : ℕ → Text) (file : UploadedFile) (turf_id : ℕ) where
  open cloudinary use {Store, upload, destroy, holds}

  -- An upload that is answered with a URL has passed Cloudinary and found the turf.
  upload-Saved :
      (url : Text) (t : Turf) (db db' : Db) (s s' : Store)
      → turf_row turf_id db ≡ some t
      → upload_turf_image cloudinary uuid (some file) turf_id db s ≡ (ok url, db', s')
      → (upload (folder_of (uuid turf_id)) file s ≡ (secure_url url, s'))
        × (db' ≡ change_turf turf_id (push_image url) db)
  unfolding upload_turf_image
  upload-Saved url t db db' s s' e h = elim (Bool-cases (ltb (5 * 1024 * 1024) file.size)) [
    | inl large ↦ absurd (let k = rw large at h in cc)
    | inr small ↦ elim (Bool-cases (not (is_allowed file.mimetype))) [
      | inl other ↦ absurd (let k = rw (small, other) at h in cc)
      | inr allowed ↦
          save_image-Saved (upload (folder_of (uuid turf_id)) file s) turf_id url t db db' s' e
            (rw (small, allowed) at h)
    ]
  ]

  module _ (url : Text) (t : Turf) (db : Db) (s s' s'' : Store) where
    -- The turf with the new image, from which the handler deletes it.
    abbrev saved : Db
    saved = change_turf turf_id (push_image url) db

    saved-delete :
        turf_row turf_id db ≡ some t
        → has_image url t.images ≡ false
        → destroy (public_id_of url) s' ≡ some s''
        → delete_turf_image cloudinary turf_id url saved s'
          ≡ (ok tt, change_turf turf_id (set_images t.images) saved, s'')
    unfolding delete_turf_image drop_image delete_image
    saved-delete e fresh gone =
        let found : turf_row turf_id saved ≡ some (push_image url t) =
          find_unique-update_self (λ (x : Turf). x.id) (push_image url) turf_id t db.turfs
            (λ x. refl) e in
        rw
          (
            delete_turf_image,
            found,
            has_image-push url t.images,
            drop_image,
            delete_image,
            gone,
            without_image-push url t.images fresh,
          )
          refl

    restored :
        turf_row turf_id db ≡ some t
        → (j : ℕ) → turf_row j (change_turf turf_id (set_images t.images) saved) ≡ turf_row j db
    restored e j =
        let first = find-change_turf (push_image url) j turf_id t db (λ x. refl) e in
        let found : turf_row turf_id saved ≡ some (push_image url t) =
          find_unique-update_self (λ (x : Turf). x.id) (push_image url) turf_id t db.turfs
            (λ x. refl) e in
        let second =
          find-change_turf (set_images t.images) j turf_id (push_image url t) saved (λ x. refl)
            found in
        elim (Bool-cases (j == turf_id)) [
          | inl y ↦
              let same : j ≡ turf_id = ground arith in
              second ∙ rw y (sym (ap (λ k. turf_row k db) same ∙ e))
          | inr n ↦ second ∙ rw n (first ∙ rw n refl)
        ]

-- Cloudinary keeps the image that an upload stored and a deletion was to destroy: `deleteImage`
-- destroys another public id.
kept_asset :
    (cloudinary : Cloudinary) (id name url : Text) (s s' : cloudinary.Store)
    → public_id_of url ≡ join_slash (codes "turfs" ∷ id ∷ name ∷ [])
    → cloudinary.destroy (public_id_of url) s ≡ some s'
    → cloudinary.holds (folder_of id ++ (b'/' ∷ name)) s'
      ≡ cloudinary.holds (folder_of id ++ (b'/' ∷ name)) s
unfolding join_slash
kept_asset cloudinary id name url s s' e gone =
    cloudinary.destroy_other (public_id_of url) (folder_of id ++ (b'/' ∷ name)) s s' gone
      (λ h. let k = ap length (sym e ∙ h) in omega (arith, length-append id (b'/' ∷ name)))

-- An image that `uploadTurfImage` has added to a turf, under a URL that the turf did not have, is
-- deleted again by `deleteTurfImage`, where Cloudinary throws no exception: the request is answered
-- with success and every turf has its images back as they were. But what the URL names, the public
-- id between its start and its extension, is stored at Cloudinary behind the deletion as before it.
-- The text of the turf's id holds no slash.
pub upload_turf_image-delete_turf_image :
    (cloudinary : Cloudinary) (uuid : ℕ → Text) (file : UploadedFile) (turf_id : ℕ) (url : Text)
    (t : Turf) (db db' : Db) (s s' s'' : cloudinary.Store)
    → transform (uuid turf_id) ≡ ok (uuid turf_id)
    → turf_row turf_id db ≡ some t
    → has_image url t.images ≡ false
    → upload_turf_image cloudinary uuid (some file) turf_id db s ≡ (ok url, db', s')
    → cloudinary.destroy (public_id_of url) s' ≡ some s''
    → ((delete_turf_image cloudinary turf_id url db' s').0 ≡ ok tt)
      × ((j : ℕ) → turf_row j (delete_turf_image cloudinary turf_id url db' s').1 ≡ turf_row j db)
      × ((base public_id extension : Text) × (url
            ≡ base ++ (b'/' ∷ (public_id ++ (b'.' ∷ extension))))
          × (is_extension extension ≡ true)
          × (cloudinary.holds public_id s' ≡ true)
          × (cloudinary.holds public_id (delete_turf_image cloudinary turf_id url db' s').2 ≡ true))
upload_turf_image-delete_turf_image cloudinary uuid file turf_id url t db db' s s' s'' piped e fresh
      up gone =
    let (replied, eq) = upload-Saved cloudinary uuid file turf_id url t db db' s s' e up in
    let (base, name, extension, shape, plain, extends, stored) =
      cloudinary.upload_stores (folder_of (uuid turf_id)) file s s' url replied in
    let id = uuid turf_id in
    let part = transform-is_part id id piped in
    let public_id = folder_of id ++ (b'/' ∷ name) in
    let destroyed =
      ap public_id_of shape ∙ public_id_of-url base id name extension part plain extends in
    let kept = kept_asset cloudinary id name url s' s'' destroyed gone in
    let done = saved-delete cloudinary uuid file turf_id url t db s s' s'' e fresh gone in
    rw (eq, done)
      (
        refl,
        restored cloudinary uuid file turf_id url t db s s' s'' e,
        (
          base,
          public_id,
          extension,
          shape
              ∙ ap (λ x. base ++ (b'/' ∷ x))
                  (sym (append_assoc (folder_of id) (b'/' ∷ name) (b'.' ∷ extension))),
          extends,
          stored,
          kept ∙ stored,
        ),
      )
