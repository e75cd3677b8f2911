-- ===== src/Device/Path.antt =====
-- `validate_device_path` of backend/disk_utils.py, over the code points of the path.
pub mod Grammar
use drive_eraser.Prelude.{
  ℕ, String, Bool, true, false, not, ◌&&◌, ◌||◌, Option, none, some, List, [], ◌∷◌, leb, ◌==◌,
  codes, any, if◌then◌else◌,
}

-- `[a-zA-Z0-9_\-:.]`
unfoldable pub is_path_char : ℕ → Bool
is_path_char c =
    (leb b'a' c && leb c b'z')
    || (leb b'A' c && leb c b'Z')
    || (leb b'0' c && leb c b'9')
    || c == b'_'
    || c == b'-'
    || c == b':'
    || c == b'.'

-- `(/[a-zA-Z0-9_\-:.]+)+\Z`. The flag tells that the segment at hand has a character already, and
-- the first clause that the match has come to the end of the text.
unfoldable pub in_segment : Bool → List ℕ → Bool
in_segment started [] = started
in_segment started (c ∷ cs) =
    if is_path_char c
    then in_segment true cs
    else elim (started && c == b'/') [ true ↦ in_segment false cs | false ↦ false ]

unfoldable pub segments : List ℕ → Bool
segments [] = false
segments (c ∷ cs) = c == b'/' && in_segment false cs

-- `^/dev` and the segments
unfoldable pub matches : List ℕ → Bool
matches (a ∷ b ∷ c ∷ d ∷ rest) = a == b'/' && b == b'd' && c == b'e' && d == b'v' && segments rest
matches _ = false

-- `".." in device`
unfoldable pub has_dots : List ℕ → Bool
has_dots [] = false
has_dots (c ∷ []) = false
has_dots (c ∷ d ∷ cs) = (c == b'.' && d == b'.') || has_dots (d ∷ cs)

unfoldable pub valid_codes : List ℕ → Bool
valid_codes [] = false
valid_codes (c ∷ cs) =
    let path = c ∷ cs in
    if has_dots path || any (λ x. x == 10) path || any (λ x. x == 13) path
    then false
    else matches path

-- `None` is refused, as every falsy value is.
unfoldable pub validate_device_path : Option String → Bool
validate_device_path none = false
validate_device_path (some device) = valid_codes (codes device)
