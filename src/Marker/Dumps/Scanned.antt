-- ===== src/Marker/Dumps/Scanned.antt =====
-- The scan of backend/disk_utils.py for the end of an object, over what `json.dumps` prints.
use drive_eraser.Prelude.{
  ℕ, zero, suc, ◌+◌, ◌-◌, ◌/◌, ◌%◌, ◌<◌, ◌≡◌, ◌≢◌, refl, ap, ◌∙◌, String, Bool, true, false, ◌&&◌,
  some, List, [], ◌∷◌, ◌++◌, ltb, leb, ◌==◌, arith, codes, length, length-append, Bool-cases, inl,
  inr, if◌then◌else◌,
}
use mathlib.Core.List.{append_assoc}
use drive_eraser.Device.Json.{Lexer, Brace, outside, inside, no_brace, read_byte, find_close}
use drive_eraser.Marker.Dumps.{
  Value, null, number, text, other, Field, hex_digit, unicode_escape, control_code, escape_code,
  escape, print_string, decimal, print_value, print_field, print_more, print_fields, dumps,
}

-- The scan passes the bytes and is where it was, inside a string or outside.
abbrev Passes : Lexer → List ℕ → Type 0
Passes l bs =
    (i depth : ℕ) (rest : List ℕ)
    → find_close i l depth (bs ++ rest) ≡ find_close (i + length bs) l depth rest

abbrev Passed : List ℕ → Type 0
Passed = Passes inside

abbrev Skipped : List ℕ → Type 0
Skipped = Passes outside

empty-Passes : (l : Lexer) → Passes l []
empty-Passes l i depth rest =
    let place : i ≡ i + 0 = omega arith in ap (λ (j : ℕ). find_close j l depth rest) place

append-Passes : (l : Lexer) (xs ys : List ℕ) → Passes l xs → Passes l ys → Passes l (xs ++ ys)
append-Passes l xs ys p q i depth rest =
    let place : i + length xs + length ys ≡ i + length (xs ++ ys) =
      omega (arith, length-append xs ys) in
    rw (append_assoc xs ys rest) (
      p i depth (ys ++ rest)
      ∙ q (i + length xs) depth rest
      ∙ ap (λ (j : ℕ). find_close j l depth rest) place)

eqb-false : (c d : ℕ) → c ≢ d → (c == d) ≡ false
eqb-false c d h = ground arith

plain-Passed : (c : ℕ) → c ≢ b'"' → c ≢ b'\\' → Passed (c ∷ [])
unfolding find_close read_byte
plain-Passed c q b i depth rest = rw (eqb-false c b'\\' b, eqb-false c b'"' q) refl

escaped-Passed : (c : ℕ) → Passed (b'\\' ∷ c ∷ [])
unfolding find_close read_byte
escaped-Passed c i depth rest = let place : i + 1 + 1 ≡ i + 2 = omega arith in rw place refl

append-Passed : (xs ys : List ℕ) → Passed xs → Passed ys → Passed (xs ++ ys)
append-Passed = append-Passes inside

append-Skipped : (xs ys : List ℕ) → Skipped xs → Skipped ys → Skipped (xs ++ ys)
append-Skipped = append-Passes outside

hex-Passed : (n : ℕ) → n < 16 → Passed (hex_digit n ∷ [])
unfolding hex_digit
hex-Passed n h = plain-Passed (if ltb n 10 then n + 48 else n + 87) (ground arith) (ground arith)

digits-Passed :
    (m n o p : ℕ)
    → m < 16
    → n < 16
    → o < 16
    → p < 16
    → Passed (b'\\' ∷ b'u' ∷ hex_digit m ∷ hex_digit n ∷ hex_digit o ∷ hex_digit p ∷ [])
digits-Passed m n o p hm hn ho hp =
    let last =
      append-Passed (hex_digit o ∷ []) (hex_digit p ∷ []) (hex-Passed o ho) (hex-Passed p hp) in
    let three =
      append-Passed (hex_digit n ∷ []) (hex_digit o ∷ hex_digit p ∷ []) (hex-Passed n hn) last in
    let four =
      append-Passed (hex_digit m ∷ []) (hex_digit n ∷ hex_digit o ∷ hex_digit p ∷ [])
        (hex-Passed m hm) three in
    append-Passed (b'\\' ∷ b'u' ∷ []) (hex_digit m ∷ hex_digit n ∷ hex_digit o ∷ hex_digit p ∷ [])
      (escaped-Passed b'u') four

unicode-Passed : (n : ℕ) → Passed (unicode_escape n)
unfolding unicode_escape
unicode-Passed n =
    digits-Passed (n / 4096 % 16) (n / 256 % 16) (n / 16 % 16) (n % 16) (omega arith) (omega arith)
      (omega arith) (omega arith)

-- A test that leads to one of two lists that are passed.
if-Passed : (b : Bool) (xs ys : List ℕ) → Passed xs → Passed ys → Passed (if b then xs else ys)
if-Passed true xs ys p q = p
if-Passed false xs ys p q = q

control_code-Passed : (c : ℕ) → Passed (control_code c)
unfolding control_code
control_code-Passed c = if-Passed (c == 10) _ _ (escaped-Passed b'n') (
    if-Passed (c == 13) _ _ (escaped-Passed b'r') (
      if-Passed (c == 9) _ _ (escaped-Passed b't') (
        if-Passed (c == 12) _ _ (escaped-Passed b'f') (
          if-Passed (c == 8) _ _ (escaped-Passed b'b') (
            if-Passed (ltb c 65536) _ _ (unicode-Passed c) (
              append-Passed _ _ (unicode-Passed (55296 + (c - 65536) / 1024 % 1024))
                (unicode-Passed (56320 + (c - 65536) % 1024))))))))

escape_code-Passed : (c : ℕ) → Passed (escape_code c)
unfolding escape_code control_code
escape_code-Passed c = elim (Bool-cases (c == b'"')) [
  | inl quote ↦ rw quote (escaped-Passed b'"')
  | inr no_quote ↦ elim (Bool-cases (c == b'\\')) [
    | inl backslash ↦ rw (no_quote, backslash) (escaped-Passed b'\\')
    | inr no_backslash ↦
        rw (no_quote, no_backslash)
          (if-Passed (leb 32 c && leb c 126) (c ∷ []) (control_code c)
            (plain-Passed c (ground arith) (ground arith)) (control_code-Passed c))
  ]
]

escape-Passed : (cs : List ℕ) → Passed (escape cs)
unfolding escape
escape-Passed [] = empty-Passes inside
escape-Passed (c ∷ cs) =
    append-Passed (escape_code c) (escape cs) (escape_code-Passed c) (escape-Passed cs)

read_plain : (c : ℕ) → c ≢ b'"' → c ≢ b'{' → c ≢ b'}' → read_byte outside c ≡ (outside, no_brace)
unfolding read_byte
read_plain c q o e = rw (eqb-false c b'"' q, eqb-false c b'{' o, eqb-false c b'}' e) refl

plain-Skipped : (c : ℕ) → c ≢ b'"' → c ≢ b'{' → c ≢ b'}' → Skipped (c ∷ [])
unfolding find_close
plain-Skipped c q o e i depth rest =
    let read = read_plain c q o e in
    rw (read, find_close) (ap (λ (r : Lexer × Brace). find_close (i + 1) r.0 depth rest) read)

cons-Skipped :
    (c : ℕ) (bs : List ℕ) → c ≢ b'"' → c ≢ b'{' → c ≢ b'}' → Skipped bs → Skipped (c ∷ bs)
cons-Skipped c bs q o e s = append-Skipped (c ∷ []) bs (plain-Skipped c q o e) s

print_string-Skipped : (s : String) → Skipped (print_string s)
unfolding print_string find_close read_byte
print_string-Skipped s i depth rest =
    let body = escape (codes s) in
    let place : i + 1 + length body + 1 ≡ i + length (print_string s) =
      omega (arith, length-append body (b'"' ∷ [])) in
    let passed = escape-Passed (codes s) (i + 1) depth (b'"' ∷ rest) in
    rw (append_assoc body (b'"' ∷ []) rest)
      (passed ∙ ap (λ (j : ℕ). find_close j outside depth rest) place)

digit-Skipped : (n : ℕ) → Skipped ((48 + n % 10) ∷ [])
digit-Skipped n = plain-Skipped (48 + n % 10) (omega arith) (omega arith) (omega arith)

decimal-Skipped : (rounds n : ℕ) → Skipped (decimal rounds n)
unfolding decimal
decimal-Skipped zero n = digit-Skipped n
decimal-Skipped (suc rounds) n = elim (Bool-cases (ltb n 10)) [
  | inl small ↦ rw small (digit-Skipped n)
  | inr large ↦ rw large (
      append-Skipped (decimal rounds (n / 10)) ((48 + n % 10) ∷ [])
        (decimal-Skipped rounds (n / 10)) (digit-Skipped n))
]

-- The value is one of those that the station writes.
abbrev pub IsPlain : Value → Type 0
IsPlain null = Unit
IsPlain (number n) = Unit
IsPlain (text s) = Unit
IsPlain (other printed truth) = ⊥

print_value-Skipped : (v : Value) → IsPlain v → Skipped (print_value v)
unfolding print_value
print_value-Skipped null p =
    cons-Skipped b'n' (b'u' ∷ b'l' ∷ b'l' ∷ []) (omega arith) (omega arith) (omega arith) (
      cons-Skipped b'u' (b'l' ∷ b'l' ∷ []) (omega arith) (omega arith) (omega arith) (
        cons-Skipped b'l' (b'l' ∷ []) (omega arith) (omega arith) (omega arith)
          (plain-Skipped b'l' (omega arith) (omega arith) (omega arith))))
print_value-Skipped (number n) p = decimal-Skipped n n
print_value-Skipped (text s) p = print_string-Skipped s
print_value-Skipped (other printed truth) p = absurd p

abbrev pub ArePlain : List Field → Type 0
ArePlain [] = Unit
ArePlain ((key, value) ∷ fs) = IsPlain value × ArePlain fs

print_field-Skipped : (key : String) (v : Value) → IsPlain v → Skipped (print_field (key, v))
unfolding print_field
print_field-Skipped key v p =
    append-Skipped (print_string key) (b':' ∷ print_value v) (print_string-Skipped key) (
      cons-Skipped b':' (print_value v) (omega arith) (omega arith) (omega arith)
        (print_value-Skipped v p))

print_more-Skipped : (fs : List Field) → ArePlain fs → Skipped (print_more fs)
unfolding print_more
print_more-Skipped [] p = empty-Passes outside
print_more-Skipped ((key, v) ∷ fs) p =
    cons-Skipped b',' (print_field (key, v) ++ print_more fs) (omega arith) (omega arith)
      (omega arith)
      (append-Skipped (print_field (key, v)) (print_more fs) (print_field-Skipped key v p.0)
        (print_more-Skipped fs p.1))

print_fields-Skipped : (fs : List Field) → ArePlain fs → Skipped (print_fields fs)
unfolding print_fields
print_fields-Skipped [] p = empty-Passes outside
print_fields-Skipped ((key, v) ∷ fs) p =
    append-Skipped (print_field (key, v)) (print_more fs) (print_field-Skipped key v p.0)
      (print_more-Skipped fs p.1)

-- The end that the scan finds is the last byte of the object, whatever its texts hold.
pub find_close-dumps :
    (fs : List Field) (rest : List ℕ)
    → ArePlain fs
    → (end : ℕ) × (find_close 0 outside 0 (dumps fs ++ rest) ≡ some end)
      × (end + 1 ≡ length (dumps fs))
unfolding dumps find_close read_byte
find_close-dumps fs rest p =
    let body = print_fields fs in
    (
      1 + length body,
      rw (append_assoc body (b'}' ∷ []) rest) (print_fields-Skipped fs p 1 1 (b'}' ∷ rest)),
      omega (arith, length-append body (b'}' ∷ [])),
    )
