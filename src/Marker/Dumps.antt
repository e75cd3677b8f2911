-- ===== src/Marker/Dumps.antt =====
-- `json.dumps(fields, separators=(",", ":")).encode("utf-8")` of a flat object, as the marker code of
-- backend/verification.py and backend/disk_utils.py calls it, with its `sort_keys`.
pub mod Scanned
use drive_eraser.Prelude.{
  ℕ, zero, suc, ◌+◌, ◌-◌, ◌*◌, ◌/◌, ◌%◌, String, Bool, true, false, not, ◌&&◌, ◌||◌, List, [], ◌∷◌,
  ◌++◌, ltb, leb, ◌==◌, codes, if◌then◌else◌,
}

-- A value of a marker: any other value than the first three by what `json.dumps` prints of it, and by
-- whether it is true.
pub data Value : Type 0 where
  null : Value
  number : ℕ → Value
  text : String → Value
  other : (printed : List ℕ) → (truth : Bool) → Value

abbrev pub Field : Type 0
Field = String × Value

-- a digit of `'\\u{0:04x}'.format(n)`
unfoldable pub hex_digit : ℕ → ℕ
hex_digit n = if ltb n 10 then n + 48 else n + 87

-- `\uXXXX`
unfoldable pub unicode_escape : ℕ → List ℕ
unicode_escape n =
    b'\\'
    ∷ b'u'
    ∷ hex_digit (n / 4096 % 16)
    ∷ hex_digit (n / 256 % 16)
    ∷ hex_digit (n / 16 % 16)
    ∷ hex_digit (n % 16)
    ∷ []

-- a code point that is neither a quote, nor a backslash, nor printable; beyond 0xffff a pair of surrogates
unfoldable pub control_code : ℕ → List ℕ
control_code c =
    if c == 10
    then b'\\' ∷ b'n' ∷ []
    else if c == 13
    then b'\\' ∷ b'r' ∷ []
    else if c == 9
    then b'\\' ∷ b't' ∷ []
    else if c == 12
    then b'\\' ∷ b'f' ∷ []
    else if c == 8
    then b'\\' ∷ b'b' ∷ []
    else if ltb c 65536
    then unicode_escape c
    else unicode_escape (55296 + (c - 65536) / 1024 % 1024)
      ++ unicode_escape (56320 + (c - 65536) % 1024)

-- One code point in a JSON string, in ASCII.
unfoldable pub escape_code : ℕ → List ℕ
escape_code c =
    if c == b'"'
    then b'\\' ∷ b'"' ∷ []
    else if c == b'\\'
    then b'\\' ∷ b'\\' ∷ []
    else if leb 32 c && leb c 126
    then c ∷ []
    else control_code c

unfoldable pub escape : List ℕ → List ℕ
escape [] = []
escape (c ∷ cs) = escape_code c ++ escape cs

unfoldable pub print_string : String → List ℕ
print_string s = b'"' ∷ (escape (codes s) ++ (b'"' ∷ []))

-- The decimal digits; as many rounds as the number are enough, since each divides by ten.
unfoldable pub decimal : (rounds n : ℕ) → List ℕ
decimal zero n = (48 + n % 10) ∷ []
decimal (suc rounds) n =
    let more = decimal rounds (n / 10) in
    if ltb n 10 then (48 + n % 10) ∷ [] else more ++ ((48 + n % 10) ∷ [])

unfoldable pub print_value : Value → List ℕ
print_value null = b'n' ∷ b'u' ∷ b'l' ∷ b'l' ∷ []
print_value (number n) = decimal n n
print_value (text s) = print_string s
print_value (other printed truth) = printed

unfoldable pub print_field : Field → List ℕ
print_field (key, value) = print_string key ++ (b':' ∷ print_value value)

unfoldable pub print_more : List Field → List ℕ
print_more [] = []
print_more (f ∷ fs) = b',' ∷ (print_field f ++ print_more fs)

unfoldable pub print_fields : List Field → List ℕ
print_fields [] = []
print_fields (f ∷ fs) = print_field f ++ print_more fs

unfoldable pub dumps : List Field → List ℕ
dumps fields = b'{' ∷ (print_fields fields ++ (b'}' ∷ []))

-- `sort_keys=True`: the keys are ordered by their code points
unfoldable pub codes_le : List ℕ → List ℕ → Bool
codes_le [] ds = true
codes_le (c ∷ cs) [] = false
codes_le (c ∷ cs) (d ∷ ds) = ltb c d || (c == d && codes_le cs ds)

unfoldable pub insert_field : Field → List Field → List Field
insert_field f [] = f ∷ []
insert_field (key, value) ((k, v) ∷ fs) =
    let later = (k, v) ∷ insert_field (key, value) fs in
    if codes_le (codes key) (codes k) then (key, value) ∷ (k, v) ∷ fs else later

unfoldable pub sort_keys : List Field → List Field
sort_keys [] = []
sort_keys (f ∷ fs) = insert_field f (sort_keys fs)
