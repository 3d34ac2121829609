-- ===== src/Upload/Names.antt =====
-- src/upload/upload.service.ts: which public id `deleteImage` makes of the URL of an image.
use turf_sync.Prelude.{
  ◌-◌, ◌≡◌, refl, sym, ap, ◌∙◌, inl, inr, arith, true, false, List, [], ◌∷◌, ◌++◌, ◌==◌, length,
  length-append, drop, Bool-cases,
}
use mathlib.Core.List.{append_assoc}
use turf_sync.Schema.{Text, codes}
use turf_sync.Upload.{
  is_part, folder_of, split_slash, join_slash, last_three, is_plain, is_extension, strip_extension,
  public_id_of,
}

split_slash-is_part : (s : Text) → is_part s ≡ true → split_slash s ≡ s ∷ []
unfolding split_slash
split_slash-is_part [] h = refl
split_slash-is_part (c ∷ cs) h = ground (arith, split_slash-is_part cs)

split_slash-cons : (s : Text) → (p : Text) × (ps : List Text) × (split_slash s ≡ p ∷ ps)
unfolding split_slash
split_slash-cons [] = ([], [], refl)
split_slash-cons (c ∷ cs) =
    let (p, ps, e) = split_slash-cons cs in
    elim (Bool-cases (c == b'/')) [
      | inl t ↦ ([], split_slash cs, rw t refl)
      | inr f ↦ (c ∷ p, ps, rw (f, e) refl)
    ]

split_slash-append : (s t : Text) → split_slash (s ++ (b'/' ∷ t)) ≡ split_slash s ++ split_slash t
unfolding split_slash
split_slash-append [] t = refl
split_slash-append (c ∷ cs) t =
    let ih = split_slash-append cs t in
    let (p, ps, e) = split_slash-cons cs in
    elim (Bool-cases (c == b'/')) [ inl t ↦ rw (t, ih) refl | inr f ↦ rw (f, ih, e) refl ]

drop-length {ℓ} : {A : Type ℓ} (xs ys : List A) → drop (length xs) (xs ++ ys) ≡ ys
drop-length [] ys = refl
drop-length (x ∷ xs) ys = drop-length xs ys

last_three-append :
    (parts : List Text) (a b c : Text) → last_three (parts ++ (a ∷ b ∷ c ∷ [])) ≡ a ∷ b ∷ c ∷ []
unfolding last_three
last_three-append parts a b c =
    let n : length (parts ++ (a ∷ b ∷ c ∷ [])) - 3 ≡ length parts =
      omega (arith, length-append parts (a ∷ b ∷ c ∷ [])) in
    rw n (drop-length parts (a ∷ b ∷ c ∷ []))

is_plain-dot : (s t : Text) → is_plain (s ++ (b'.' ∷ t)) ≡ false
unfolding is_plain
is_plain-dot [] t = refl
is_plain-dot (c ∷ cs) t = ground (arith, is_plain-dot cs t)

is_extension-dot : (s t : Text) → is_extension (s ++ (b'.' ∷ t)) ≡ false
unfolding is_extension
is_extension-dot [] t = refl
is_extension-dot (c ∷ cs) t = is_plain-dot (c ∷ cs) t

strip_extension-dot :
    (s extension : Text)
    → is_extension extension ≡ true
    → strip_extension (s ++ (b'.' ∷ extension)) ≡ s
unfolding strip_extension
strip_extension-dot [] extension h = rw h
strip_extension-dot (c ∷ cs) extension h =
    ground (arith, strip_extension-dot cs extension h, is_extension-dot cs extension)

is_part-plain :
    (s t : Text) → is_part s ≡ true → is_plain t ≡ true → is_part (s ++ (b'.' ∷ t)) ≡ true
unfolding is_plain
is_part-plain [] t h k = plain_part t k
  where
    plain_part : (t : Text) → is_plain t ≡ true → is_part t ≡ true
    plain_part [] k = refl
    plain_part (c ∷ cs) k = ground (arith, plain_part cs)
is_part-plain (c ∷ cs) t h k = ground (arith, is_part-plain cs t)

split_slash-file :
    (id name extension : Text)
    → is_part id ≡ true
    → is_part name ≡ true
    → is_extension extension ≡ true
    → split_slash (folder_of id ++ (b'/' ∷ (name ++ (b'.' ∷ extension))))
      ≡ codes "turfbook" ∷ codes "turfs" ∷ id ∷ (name ++ (b'.' ∷ extension)) ∷ []
unfolding split_slash join_slash is_plain is_extension
split_slash-file id name extension h k e =
    let file = name ++ (b'.' ∷ extension) in
    let file_part =
      split_slash-is_part file (is_part-plain name extension k (plain_extension extension e)) in
    let parts : split_slash (id ++ (b'/' ∷ file)) ≡ id ∷ file ∷ [] =
      split_slash-append id file ∙ rw (split_slash-is_part id h, file_part) refl in
    rw parts refl
  where
    plain_extension : (t : Text) → is_extension t ≡ true → is_plain t ≡ true
    plain_extension [] e = refl
    plain_extension (c ∷ cs) e = e

-- Of the public id `turfbook/turfs/<id>/<name>` in the URL, `deleteImage` keeps the last three parts.
pub public_id_of-url :
    (base id name extension : Text)
    → is_part id ≡ true
    → is_part name ≡ true
    → is_extension extension ≡ true
    → public_id_of (base ++ (b'/' ∷ (folder_of id ++ (b'/' ∷ (name ++ (b'.' ∷ extension))))))
      ≡ join_slash (codes "turfs" ∷ id ∷ name ∷ [])
unfolding public_id_of
public_id_of-url base id name extension h k e =
    let file = name ++ (b'.' ∷ extension) in
    let front = split_slash base ++ (codes "turfbook" ∷ []) in
    let parts = split_slash-append base (folder_of id ++ (b'/' ∷ file)) in
    let regrouped =
      append_assoc (split_slash base) (codes "turfbook" ∷ []) (codes "turfs" ∷ id ∷ file ∷ []) in
    let kept = last_three-append front (codes "turfs") id file in
    let dotted = append_assoc id (b'/' ∷ name) (b'.' ∷ extension) in
    rw (parts, split_slash-file id name extension h k e, ← regrouped, kept)
      (ap (λ x. codes "turfs" ++ (b'/' ∷ x))
        (sym (ap strip_extension dotted) ∙ strip_extension-dot (id ++ (b'/' ∷ name)) extension e))
