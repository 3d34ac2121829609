-- ===== src/Http/Pipes.antt =====
-- src/common/pipes/parse-uuid.pipe.ts: ParseUUIDPipe. The regular expression is a list of tests, one for
-- each character that it matches.
use turf_sync.Prelude.{
  ℕ, zero, suc, Bool, true, false, ◌&&◌, ◌||◌, List, [], ◌∷◌, leb, ◌==◌, if◌then◌else◌,
}
use turf_sync.Schema.{Text}
use turf_sync.TimeText.{is_digit}
use turf_sync.Outcome.{bad_request, Reason, Result, ok, err}

-- `[0-9a-f]` with the flag `i`
abbrev pub is_hex : ℕ → Bool
is_hex c = is_digit c || (leb b'a' c && leb c b'f' || leb b'A' c && leb c b'F')

-- `[89ab]` with the flag `i`
abbrev pub is_variant : ℕ → Bool
is_variant c = c == b'8' || (c == b'9' || (c == b'a' || (c == b'b' || (c == b'A' || c == b'B'))))

abbrev pub is_dash : ℕ → Bool
is_dash c = c == b'-'

abbrev pub is_four : ℕ → Bool
is_four c = c == b'4'

-- `p{n}` in front of a pattern
unfoldable pub repeated : ℕ → (ℕ → Bool) → List (ℕ → Bool) → List (ℕ → Bool)
repeated zero p rest = rest
repeated (suc n) p rest = p ∷ repeated n p rest

-- `^…$`, of the whole text
unfoldable pub matches : List (ℕ → Bool) → List ℕ → Bool
matches [] [] = true
matches [] (c ∷ cs) = false
matches (p ∷ ps) [] = false
matches (p ∷ ps) (c ∷ cs) = p c && matches ps cs

-- `uuidRegex`
unfoldable pub uuid_regex : List (ℕ → Bool)
uuid_regex = repeated 8 is_hex (
    is_dash
    ∷ repeated 4 is_hex (
        is_dash
        ∷ is_four
        ∷ repeated 3 is_hex
            (is_dash ∷ is_variant ∷ repeated 3 is_hex (is_dash ∷ repeated 12 is_hex []))))

-- `transform`
unfoldable pub transform : Text → Result Text
unfolding matches uuid_regex repeated
transform value =
    if matches uuid_regex value then ok value else err (bad_request Reason.invalid_uuid)
