-- ===== src/Verification/SataErase.antt =====
-- `verify_sata_secure_erase` of backend/verification.py: what `hdparm -I` says of the drive's security.
-- The expressions that ignore case are matched against the text in lower case; each of them matches in one
-- way only. The keys `locked` and `frozen` of the details are left out.
pub mod Verdict
use Prim.Native.Char.{Char, code}
use drive_eraser.Prelude.{
  String, Bool, true, false, not, ◌&&◌, ◌||◌, Option, none, some, List, [], ◌∷◌, leb, ◌==◌, map,
  str_eq, lower, strip, lstrip, is_space, is_prefix, drop_chars, any, if◌then◌else◌,
}
use drive_eraser.Device.{CommandResult, Tools, validate_device_path}
use drive_eraser.Verification.Report.{details_of, Report, failure, verified}
use drive_eraser.Verification.Nvme.{extract_command_output}
use drive_eraser.Verification.Sata.{split_lines}

-- `[ \t]`
is_blank : Char → Bool
is_blank c = code c == 32 || code c == 9

unfoldable pub skip_blanks : String → String
unfolding is_blank
skip_blanks String.[] = String.[]
skip_blanks (String.◌∷◌ c s) = if is_blank c then skip_blanks s else String.◌∷◌ c s

-- `(?:[ \t]+.*\n?)+`: the lines from here on that begin with a blank; none is the empty text.
unfoldable pub indented_block : (in_line : Bool) → String → String
unfolding is_blank
indented_block in_line String.[] = String.[]
indented_block in_line (String.◌∷◌ c s) =
    if in_line || is_blank c
    then String.◌∷◌ c (indented_block (not (code c == 10)) s)
    else String.[]

-- `\n` and the block
unfoldable pub next_block : String → String
next_block String.[] = String.[]
next_block (String.◌∷◌ c s) = if code c == 10 then indented_block false s else String.[]

-- `[ \t]*security:[ \t]*\n` and the block
unfoldable pub block_at : String → String
block_at s =
    let heading = skip_blanks s in
    if is_prefix "security:" heading
    then next_block (skip_blanks (drop_chars 9 heading))
    else String.[]

unfoldable pub indented_section : (line_start : Bool) → String → String
indented_section line_start String.[] = String.[]
indented_section line_start (String.◌∷◌ c s) =
    let here = if line_start then block_at (String.◌∷◌ c s) else String.[] in
    let rest = indented_section (code c == 10) s in if str_eq here "" then rest else here

-- `\s*\n`
unfoldable pub blank_line : String → Bool
blank_line String.[] = false
blank_line (String.◌∷◌ c s) = code c == 10 || (is_space c && blank_line s)

-- `(.*?)(?:\n\s*\n|$)`
unfoldable pub until_gap : String → String
until_gap String.[] = String.[]
until_gap (String.◌∷◌ c s) =
    if code c == 10 && (str_eq s "" || blank_line s) then String.[] else String.◌∷◌ c (until_gap s)

-- `security:\s*(.*?)(?:\n\s*\n|$)`
unfoldable pub loose_section : String → String
loose_section String.[] = String.[]
loose_section (String.◌∷◌ c s) =
    if is_prefix "security:" (String.◌∷◌ c s)
    then until_gap (lstrip (drop_chars 9 (String.◌∷◌ c s)))
    else loose_section s

unfoldable pub extract_sata_security_section : String → String
extract_sata_security_section output =
    let indented = indented_section true (lower output) in
    if str_eq indented "" then loose_section (lower output) else indented

-- `\w`
is_word_char : Char → Bool
is_word_char c =
    (leb b'a' (code c) && leb (code c) b'z')
    || (leb b'A' (code c) && leb (code c) b'Z')
    || (leb b'0' (code c) && leb (code c) b'9')
    || code c == b'_'

ends_word : String → Bool
unfolding is_word_char
ends_word String.[] = true
ends_word (String.◌∷◌ c s) = not (is_word_char c)

word_at : String → String → Bool
unfolding ends_word
word_at String.[] s = ends_word s
word_at (String.◌∷◌ w ws) String.[] = false
word_at (String.◌∷◌ w ws) (String.◌∷◌ c s) = code w == code c && word_at ws s

-- `re.search(r"\bword\b", s)`
unfoldable pub has_word : String → (in_word : Bool) → String → Bool
unfolding word_at is_word_char
has_word word in_word String.[] = false
has_word word in_word (String.◌∷◌ c s) =
    (not in_word && word_at word (String.◌∷◌ c s)) || has_word word (is_word_char c) s

-- Some line has the word, and no `not`.
unfoldable pub line_flag : String → List String → Bool
line_flag word lines =
    any (λ line. has_word word false line && not (has_word "not" false line)) lines

-- `re.search(r"^[ \t]*heading", s, re.IGNORECASE | re.MULTILINE)`
unfoldable pub has_heading : String → (line_start : Bool) → String → Bool
has_heading heading line_start String.[] = false
has_heading heading line_start (String.◌∷◌ c s) =
    (line_start && is_prefix heading (skip_blanks (String.◌∷◌ c s)))
    || has_heading heading (code c == 10) s

abbrev pub section_lines : String → List String
section_lines section = map strip (split_lines section)

unfoldable pub without_section : String → String → CommandResult → Report
without_section method output r =
    if not r.ok
    then failure method "verification_error" "hdparm_identify_failed"
    else if has_heading "configuration:" true (lower output)
        || has_heading "geometry:" true (lower output)
    then verified (record (details_of method) {
      mode = some "post_hdparm_identify";
      note = some "security_section_absent";
    })
    else failure method "verification_error" "hdparm_parsing_failed"

unfoldable pub identify_verdict : String → CommandResult → Report
identify_verdict method r =
    let output = extract_command_output r in
    let security_section = extract_sata_security_section output in
    if str_eq (strip (lower output)) ""
    then (if r.ok
        then failure method "verification_error" "hdparm_output_empty"
        else failure method "verification_error" "hdparm_identify_failed")
    else if str_eq security_section ""
    then without_section method output r
    else if line_flag "enabled" (section_lines security_section)
    then failure method "verification_failed" "sata_security_still_enabled"
    else verified (record (details_of method) { mode = some "post_hdparm_identify" })

unfoldable pub identify : Tools → String → String → Option String → Report
identify tools device method none =
    failure method "verification_error" "hdparm_not_available_for_verification"
identify tools device method (some hdparm_cmd) =
    if str_eq hdparm_cmd ""
    then failure method "verification_error" "hdparm_not_available_for_verification"
    else identify_verdict method (tools.run 0 (hdparm_cmd ∷ "-I" ∷ device ∷ []))

unfoldable pub verify_sata_secure_erase : Tools → String → String → Report
verify_sata_secure_erase tools device method =
    if validate_device_path (some device)
    then identify tools device method (tools.path_of "hdparm")
    else failure method "verification_error" "invalid_device_path"
