-- ===== src/Http/Uuid.antt =====
-- src/common/pipes/parse-uuid.pipe.ts: the texts that the pipe lets through.
use mathlib.Core.List.{append-nil}
use turf_sync.Prelude.{
  ℕ, zero, suc, ◌≡◌, ◌↔◌, refl, ap, subst, ◌∙◌, inl, inr, arith, Bool, true, false, List, [], ◌∷◌,
  ◌++◌, ◌==◌, Bool-cases,
}
use turf_sync.Schema.{Text}
use turf_sync.Outcome.{ok}
use turf_sync.Upload.{is_part}
use turf_sync.Http.Pipes.{
  is_hex, is_variant, is_dash, is_four, repeated, matches, uuid_regex, transform,
}

-- `n` hexadecimal digits.
abbrev pub IsHex : ℕ → Text → Type 0
IsHex zero [] = Unit
IsHex zero (c ∷ cs) = ⊥
IsHex (suc n) [] = ⊥
IsHex (suc n) (c ∷ cs) = (is_hex c ≡ true) × IsHex n cs

matches-repeated :
    (n : ℕ) (ps : List (ℕ → Bool)) (s : Text)
    → matches (repeated n is_hex ps) s ≡ true
    → (a r : Text) × (s ≡ a ++ r) × IsHex n a × (matches ps r ≡ true)
unfolding matches repeated
matches-repeated zero ps s h = ([], s, refl, tt, h)
matches-repeated (suc n) ps [] h = absurd (cc)
matches-repeated (suc n) ps (c ∷ cs) h =
    let (a, r, e, hex, rest) = matches-repeated n ps cs (ground arith) in
    (c ∷ a, r, ap (λ t. c ∷ t) e, (ground arith, hex), rest)

repeated-matches :
    (n : ℕ) (ps : List (ℕ → Bool)) (a r : Text)
    → IsHex n a
    → matches ps r ≡ true
    → matches (repeated n is_hex ps) (a ++ r) ≡ true
unfolding matches repeated
repeated-matches zero ps [] r hex h = h
repeated-matches zero ps (c ∷ cs) r hex h = absurd hex
repeated-matches (suc n) ps [] r hex h = absurd hex
repeated-matches (suc n) ps (c ∷ cs) r (x, hex) h = ground (arith, repeated-matches n ps cs r hex h)

matches-cons :
    (p : ℕ → Bool) (ps : List (ℕ → Bool)) (s : Text)
    → matches (p ∷ ps) s ≡ true
    → (c : ℕ) × (cs : Text) × (s ≡ c ∷ cs) × (p c ≡ true) × (matches ps cs ≡ true)
unfolding matches
matches-cons p ps [] h = absurd (cc)
matches-cons p ps (c ∷ cs) h = (c, cs, refl, ground arith, ground arith)

matches-group :
    (n : ℕ) (ps : List (ℕ → Bool)) (s : Text)
    → matches (repeated n is_hex (is_dash ∷ ps)) s ≡ true
    → (a r : Text) × (s ≡ a ++ (b'-' ∷ r)) × IsHex n a × (matches ps r ≡ true)
matches-group n ps s h =
    let (a, r, e, hex, m) = matches-repeated n (is_dash ∷ ps) s h in
    let (c, cs, f, dash, m') = matches-cons is_dash ps r m in
    let same : c ≡ b'-' = ground arith in
    (a, cs, e ∙ ap (λ t. a ++ t) (f ∙ ap (λ x. x ∷ cs) same), hex, m')

matches-nil : (s : Text) → matches [] s ≡ true → s ≡ []
unfolding matches
matches-nil [] h = refl
matches-nil (c ∷ cs) h = cc

matches-head :
    (p : ℕ → Bool) (ps : List (ℕ → Bool)) (c : ℕ) (cs : Text)
    → p c ≡ true
    → matches ps cs ≡ true
    → matches (p ∷ ps) (c ∷ cs) ≡ true
unfolding matches
matches-head p ps c cs h k = rw (h, k) refl

group-matches :
    (n : ℕ) (ps : List (ℕ → Bool)) (a r : Text)
    → IsHex n a
    → matches ps r ≡ true
    → matches (repeated n is_hex (is_dash ∷ ps)) (a ++ (b'-' ∷ r)) ≡ true
group-matches n ps a r hex h =
    repeated-matches n (is_dash ∷ ps) a (b'-' ∷ r) hex (unfold matches in h)

-- A UUID of version 4: five groups of hexadecimal digits, in either case.
pub record IsUuid (s : Text) : Type 0 where
  pub time_low : Text
  pub time_mid : Text
  pub time_hi : Text
  pub variant : ℕ
  pub clock_seq : Text
  pub node : Text
  pub shape :
      s
      ≡ time_low
        ++ (b'-'
            ∷ (time_mid
                ++ (b'-' ∷ b'4' ∷ (time_hi ++ (b'-' ∷ variant ∷ (clock_seq ++ (b'-' ∷ node)))))))
  pub low_hex : IsHex 8 time_low
  pub mid_hex : IsHex 4 time_mid
  pub hi_hex : IsHex 3 time_hi
  pub variant_is : is_variant variant ≡ true
  pub seq_hex : IsHex 3 clock_seq
  pub node_hex : IsHex 12 node

four_eq : (c : ℕ) → is_four c ≡ true → c ≡ b'4'
four_eq c h = ground arith

matches-IsUuid : (s : Text) → matches uuid_regex s ≡ true → IsUuid s
unfolding uuid_regex
matches-IsUuid s h =
    let (low, r1, e1, low_hex, m1) = matches-group 8 _ s h in
    let (mid, r2, e2, mid_hex, m2) = matches-group 4 _ r1 m1 in
    let (four, r3, e3, four_is, m3) = matches-cons is_four _ r2 m2 in
    let (hi, r4, e4, hi_hex, m4) = matches-group 3 _ r3 m3 in
    let (variant, r5, e5, variant_is, m5) = matches-cons is_variant _ r4 m4 in
    let (seq, r6, e6, seq_hex, m6) = matches-group 3 _ r5 m5 in
    let (node, r7, e7, node_hex, m7) = matches-repeated 12 [] r6 m6 in
    let version = four_eq four four_is in
    let ends : r6 ≡ node = e7 ∙ ap (λ t. node ++ t) (matches-nil r7 m7) ∙ append-nil node in
    record {
      time_low = low;
      time_mid = mid;
      time_hi = hi;
      variant = variant;
      clock_seq = seq;
      node = node;
      shape =
          e1
          ∙ ap (λ t. low ++ (b'-' ∷ t))
              (e2
                ∙ ap (λ t. mid ++ (b'-' ∷ t))
                    (e3
                      ∙ ap (λ x. x ∷ r3) version
                      ∙ ap (λ t. b'4' ∷ t)
                          (e4
                            ∙ ap (λ t. hi ++ (b'-' ∷ t))
                                (e5
                                  ∙ ap (λ t. variant ∷ t)
                                      (e6 ∙ ap (λ t. seq ++ (b'-' ∷ t)) ends)))));
      low_hex = low_hex;
      mid_hex = mid_hex;
      hi_hex = hi_hex;
      variant_is = variant_is;
      seq_hex = seq_hex;
      node_hex = node_hex;
    }

IsUuid-matches : (s : Text) → IsUuid s → matches uuid_regex s ≡ true
unfolding uuid_regex matches
IsUuid-matches s u =
    let digits = repeated 12 is_hex [] in
    let seq = repeated 3 is_hex (is_dash ∷ digits) in
    let low = repeated 3 is_hex (is_dash ∷ is_variant ∷ seq) in
    let last = u.clock_seq ++ (b'-' ∷ u.node) in
    let late = u.time_hi ++ (b'-' ∷ u.variant ∷ last) in
    let end : matches digits u.node ≡ true =
      subst (λ t. matches digits t ≡ true) (append-nil u.node)
        (repeated-matches 12 [] u.node [] u.node_hex refl) in
    let clock = group-matches 3 digits u.clock_seq u.node u.seq_hex end in
    let variant = matches-head is_variant seq u.variant last u.variant_is clock in
    let hi = group-matches 3 (is_variant ∷ seq) u.time_hi (u.variant ∷ last) u.hi_hex variant in
    let version = matches-head is_four low b'4' late refl hi in
    let mid = group-matches 4 (is_four ∷ low) u.time_mid (b'4' ∷ late) u.mid_hex version in
    rw u.shape (
      group-matches 8 (repeated 4 is_hex (is_dash ∷ is_four ∷ low)) u.time_low
        (u.time_mid ++ (b'-' ∷ b'4' ∷ late)) u.low_hex mid)

-- No test of the pattern accepts a slash.
abbrev Reject : List (ℕ → Bool) → Type 0
Reject [] = Unit
Reject (p ∷ ps) = (p b'/' ≡ false) × Reject ps

Reject-repeated : (n : ℕ) (ps : List (ℕ → Bool)) → Reject ps → Reject (repeated n is_hex ps)
unfolding repeated
Reject-repeated zero ps h = h
Reject-repeated (suc n) ps h = (refl, Reject-repeated n ps h)

matches-is_part :
    (ps : List (ℕ → Bool)) (s : Text) → Reject ps → matches ps s ≡ true → is_part s ≡ true
unfolding matches
matches-is_part [] [] r h = refl
matches-is_part [] (c ∷ cs) r h = cc
matches-is_part (p ∷ ps) [] r h = cc
matches-is_part (p ∷ ps) (c ∷ cs) (refused, r) h = elim (Bool-cases (c == b'/')) [
  | inl slash ↦
      let same : c ≡ b'/' = ground arith in
      let both : p c ≡ false = ap p same ∙ refused in absurd (ground arith)
  | inr other ↦ let ih = matches-is_part ps cs r (ground arith) in rw (other, ih) refl
]

Reject-uuid_regex : Reject uuid_regex
unfolding uuid_regex
Reject-uuid_regex = Reject-repeated 8 _ (
  refl,
  Reject-repeated 4 _ (
    refl,
    (
      refl,
      Reject-repeated 3 _ (refl, (refl, Reject-repeated 3 _ (refl, Reject-repeated 12 [] tt))),
    ),
  ),
)

-- The pipe passes a text on, unchanged, exactly where it is a UUID of version 4 in the groups 8-4-4-4-12
-- of hexadecimal digits in either case, with the version 4 and the variant 8, 9, a or b.
pub transform_iff : (s t : Text) → (transform s ≡ ok t) ↔ ((t ≡ s) × IsUuid s)
unfolding transform
transform_iff s t = (to, from)
  where
    to : transform s ≡ ok t → (t ≡ s) × IsUuid s
    to h = elim (Bool-cases (matches uuid_regex s)) [
      | inl y ↦ let k = rw y at h in (ground arith, matches-IsUuid s y)
      | inr n ↦ absurd (let k = rw n at h in cc)
    ]

    from : (t ≡ s) × IsUuid s → transform s ≡ ok t
    from (e, u) = rw (IsUuid-matches s u, e) refl

-- A text that the pipe lets through holds no slash.
pub transform-is_part : (s t : Text) → transform s ≡ ok t → is_part s ≡ true
transform-is_part s t h =
    matches-is_part uuid_regex s Reject-uuid_regex (IsUuid-matches s ((transform_iff s t).0 h).1)
