-- ===== src/Marker/Parsed.antt =====
-- How a block that begins with an object of the station is taken apart.
use drive_eraser.Prelude.{
  ℕ, ◌+◌, ◌-◌, ◌≤◌, ◌<◌, ◌≡◌, refl, ap, String, false, Option, some, List, [], ◌∷◌, ◌++◌, arith,
  ltb, leb, codes, length, length-append,
}
use drive_eraser.Device.Json.{outside, open_braces, bottom, stack_step, read_byte, find_json_bounds}
use drive_eraser.Marker.Dumps.{
  text, Field, print_string, print_value, print_field, print_fields, dumps, escape, escape_code,
}
use drive_eraser.Marker.Dumps.Scanned.{ArePlain, find_close-dumps}
use drive_eraser.Marker.Read.{
  marker_signature, max_json_size, Crypto, find_bytes, take, slice, check_fields, check_parsed,
  check_bounds, check_marker, marker_in,
}

abbrev pub begins : List Field → List Field
begins fs = ("signature", text marker_signature) ∷ fs

find_signature :
    (fs : List Field) (rest : List ℕ)
    → find_bytes (codes marker_signature) 0 (dumps (begins fs) ++ rest) ≡ some 14
unfolding find_bytes dumps print_fields print_field print_string print_value escape escape_code
find_signature fs rest = refl

open_at_signature :
    (fs : List Field) (rest : List ℕ)
    → bottom (open_braces 15 0 outside [] (dumps (begins fs) ++ rest)) ≡ some 0
unfolding open_braces bottom stack_step read_byte dumps print_fields print_field print_string
    print_value escape escape_code
open_at_signature fs rest = refl

lt-leb : (a b : ℕ) → a < b → leb b a ≡ false
lt-leb a b h = ground arith

le-ltb : (a b : ℕ) → a ≤ b → ltb b a ≡ false
le-ltb a b h = ground arith

length-begins : (fs : List Field) → 14 < length (dumps (begins fs))
unfolding dumps print_fields print_field print_string print_value escape escape_code
length-begins fs = omega arith

take_all : (xs ys : List ℕ) → take (length xs) (xs ++ ys) ≡ xs
unfolding take
take_all [] ys = refl
take_all (x ∷ xs) ys = ap (λ (us : List ℕ). x ∷ us) (take_all xs ys)

slice_all : (xs ys : List ℕ) (end : ℕ) → end + 1 ≡ length xs → slice 0 end (xs ++ ys) ≡ xs
unfolding slice
slice_all xs ys end h =
    let place : end + 1 - 0 ≡ length xs = omega (arith, h) in rw place (take_all xs ys)

-- The object at the start of the block is found and cut out whole.
bounds_begins :
    (fs : List Field) (rest : List ℕ)
    → ArePlain fs
    → (end : ℕ) × (find_json_bounds (dumps (begins fs) ++ rest) 14 ≡ some (0, end))
      × (slice 0 end (dumps (begins fs) ++ rest) ≡ dumps (begins fs))
unfolding find_json_bounds
bounds_begins fs rest plain =
    let bytes = dumps (begins fs) in
    let (end, found, last) = find_close-dumps (begins fs) rest (tt, plain) in
    let long : leb (length (bytes ++ rest)) 14 ≡ false =
      lt-leb 14 (length (bytes ++ rest))
        (omega (arith, length-append bytes rest, length-begins fs)) in
    (end, rw (long, open_at_signature fs rest, found) refl, slice_all bytes rest end last)

-- An object that begins with the signature is parsed, wherever it ends in the block.
pub parsed_whole :
    (c : Crypto) (passphrase : Option String) (fs : List Field) (rest : List ℕ)
    → ArePlain fs
    → length (dumps (begins fs)) ≤ max_json_size
    → c.loads (dumps (begins fs)) ≡ some (begins fs)
    → marker_in c passphrase (dumps (begins fs) ++ rest) ≡ check_fields c passphrase (begins fs)
unfolding marker_in check_marker check_bounds check_parsed
parsed_whole c passphrase fs rest plain short law =
    let (end, found, cut) = bounds_begins fs rest plain in
    let small = le-ltb (length (dumps (begins fs))) max_json_size short in
    rw (find_signature fs rest, check_marker, found, check_bounds, cut, small, law, check_parsed)
      refl
