-- ===== src/Verification/Nvme/Field.antt =====
-- The two regular expressions of the NVMe check: a numeric field of the log, and the controller of
-- a namespace path. Both match in one way only, so each is a scanner without backtracking.
use Prim.Native.Char.{code}
use Prim.Native.String.{◌++◌}
use drive_eraser.Prelude.{
  ℕ, ◌+◌, ◌-◌, ◌*◌, String, Bool, true, false, ◌&&◌, ◌||◌, Option, none, some, List, [], ◌∷◌, leb,
  ◌==◌, codes, if◌then◌else◌,
}

unfoldable pub is_digit : ℕ → Bool
is_digit c = leb b'0' c && leb c b'9'

is_letter : ℕ → Bool
is_letter c = (leb b'a' c && leb c b'z') || (leb b'A' c && leb c b'Z')

lower_code : ℕ → ℕ
lower_code c = if leb b'A' c && leb c b'Z' then c + 32 else c

is_space_code : ℕ → Bool
is_space_code c = c == 32 || (leb 9 c && leb c 13) || (leb 28 c && leb c 31)

-- the value of a digit in the base, if it is one
decimal : ℕ → Option ℕ
unfolding is_digit
decimal c = if is_digit c then some (c - b'0') else none

hexadecimal : ℕ → Option ℕ
unfolding is_digit lower_code
hexadecimal c =
    if is_digit c
    then some (c - b'0')
    else if leb b'a' (lower_code c) && leb (lower_code c) b'f'
    then some (lower_code c - b'a' + 10)
    else none

-- `\b` behind a digit: the text ends, or no word character follows
at_boundary : List ℕ → Bool
unfolding is_digit is_letter
at_boundary [] = true
at_boundary (c ∷ cs) = if is_digit c || is_letter c || c == b'_' then false else true

-- The longest run of digits, as a number; at least one digit is wanted, and a boundary behind.
number_run : (ℕ → Option ℕ) → ℕ → Option ℕ → List ℕ → Option ℕ
number_run digit base value [] = value
number_run digit base value (c ∷ cs) = elim (digit c) [
  | none ↦ if at_boundary (c ∷ cs) then value else none
  | some d ↦ number_run digit base (some (elim value [ none ↦ d | some v ↦ v * base + d ])) cs
]

-- `0x[0-9a-fA-F]+|\d+`: behind `0x` the second alternative stops at a word character, and fails
number : List ℕ → Option ℕ
unfolding number_run at_boundary decimal hexadecimal lower_code
number (a ∷ b ∷ cs) =
    if a == b'0' && lower_code b == b'x'
    then number_run hexadecimal 16 none cs
    else number_run decimal 10 none (a ∷ b ∷ cs)
number cs = number_run decimal 10 none cs

-- `\s*` and the number
skip_spaces : List ℕ → Option ℕ
unfolding number is_space_code
skip_spaces [] = none
skip_spaces (c ∷ cs) = if is_space_code c then skip_spaces cs else number (c ∷ cs)

-- `[^\r\n:]*:`
to_colon : List ℕ → Option ℕ
unfolding skip_spaces
to_colon [] = none
to_colon (c ∷ cs) =
    if c == b':' then skip_spaces cs else if c == 10 || c == 13 then none else to_colon cs

-- the field's name, whatever the case of its letters, and what follows it
at_field : List ℕ → List ℕ → Option ℕ
unfolding to_colon lower_code
at_field [] cs = to_colon cs
at_field (f ∷ fs) [] = none
at_field (f ∷ fs) (c ∷ cs) = if lower_code f == lower_code c then at_field fs cs else none

-- `re.search`: the first position at which the expression matches
search_field : List ℕ → List ℕ → Option ℕ
unfolding at_field
search_field name [] = at_field name []
search_field name (c ∷ cs) =
    let rest = search_field name cs in
    elim (at_field name (c ∷ cs)) [ none ↦ rest | some v ↦ some v ]

unfoldable pub parse_numeric_field : String → String → Option ℕ
unfolding search_field
parse_numeric_field name output = search_field (codes name) (codes output)

-- `\d+\Z`, with one digit seen or none
digits_to_end : Bool → List ℕ → Bool
unfolding is_digit
digits_to_end seen [] = seen
digits_to_end seen (c ∷ cs) = is_digit c && digits_to_end true cs

-- Behind `/dev/nvme`: the digits of the controller, if `n` and digits follow up to the end.
controller_digits : Bool → String → Option String
unfolding digits_to_end
controller_digits seen String.[] = none
controller_digits seen (String.◌∷◌ c s) = elim (is_digit (code c)) [
  | true ↦ elim (controller_digits true s) [
    | none ↦ none
    | some digits ↦ some (String.◌∷◌ c digits)
  ]
  | false ↦ if seen && code c == b'n' && digits_to_end false (codes s) then some String.[] else none
]

-- the text behind a prefix
behind_prefix : List ℕ → String → Option String
behind_prefix [] s = some s
behind_prefix (p ∷ ps) String.[] = none
behind_prefix (p ∷ ps) (String.◌∷◌ c s) = if p == code c then behind_prefix ps s else none

-- `re.match(r'^(/dev/nvme\d+)n\d+\Z', device)`, and its group
unfoldable pub namespace_controller : String → Option String
unfolding behind_prefix controller_digits
namespace_controller device = elim (behind_prefix (codes "/dev/nvme") device) [
  | none ↦ none
  | some rest ↦ elim (controller_digits false rest) [
    | none ↦ none
    | some digits ↦ some ("/dev/nvme" ++ digits)
  ]
]
