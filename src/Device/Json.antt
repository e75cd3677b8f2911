-- ===== src/Device/Json.antt =====
-- `_find_json_bounds` of backend/disk_utils.py: the JSON object around a position in a block read
-- from a drive. Both scans of the source treat a byte the same way, by `read_byte`, so that braces
-- inside JSON strings do not count.
pub mod Bounds
use drive_eraser.Prelude.{
  ℕ, zero, suc, ◌+◌, ◌-◌, Bool, true, false, Option, none, some, List, [], ◌∷◌, leb, ◌==◌, length,
  drop, if◌then◌else◌,
}

-- whether the scan stands in a string literal, and behind a backslash in it
pub record Lexer : Type 0 where
  pub in_string : Bool
  pub escaped : Bool

abbrev pub outside : Lexer
outside = record { in_string = false; escaped = false }

abbrev pub inside : Lexer
inside = record { in_string = true; escaped = false }

pub data Brace : Type 0 where
  no_brace open_brace close_brace : Brace

read_in_string : Bool → ℕ → Lexer
read_in_string true c = inside
read_in_string false c =
    if c == b'\\'
    then record { in_string = true; escaped = true }
    else if c == b'"'
    then outside
    else inside

read_outside : ℕ → Lexer × Brace
read_outside c =
    if c == b'"'
    then (inside, no_brace)
    else if c == b'{'
    then (outside, open_brace)
    else if c == b'}'
    then (outside, close_brace)
    else (outside, no_brace)

-- One byte: the new state, and the structural brace that it is.
unfoldable pub read_byte : Lexer → ℕ → Lexer × Brace
unfolding read_in_string read_outside
read_byte l c = if l.in_string then (read_in_string l.escaped c, no_brace) else read_outside c

-- `brace_stack.append(i)` and `if brace_stack: brace_stack.pop()`, the top of the stack first
unfoldable pub stack_step : ℕ → Brace → List ℕ → List ℕ
stack_step i no_brace stack = stack
stack_step i open_brace stack = i ∷ stack
stack_step i close_brace [] = []
stack_step i close_brace (k ∷ stack) = stack

-- The first scan: `count` bytes from position `i` on.
unfoldable pub open_braces : (count i : ℕ) → Lexer → List ℕ → List ℕ → List ℕ
open_braces zero i l stack data' = stack
open_braces (suc count) i l stack [] = stack
open_braces (suc count) i l stack (c ∷ cs) =
    let (l', brace) = read_byte l c in open_braces count (i + 1) l' (stack_step i brace stack) cs

-- `brace_stack[0]`
unfoldable pub bottom : List ℕ → Option ℕ
bottom [] = none
bottom (k ∷ []) = some k
bottom (k ∷ j ∷ stack) = bottom (j ∷ stack)

-- The second scan: the position where the depth comes back to 0. It starts at an opening brace, so
-- the depth is positive at every closing one.
unfoldable pub find_close : ℕ → Lexer → ℕ → List ℕ → Option ℕ
find_close i l depth [] = none
find_close i l depth (c ∷ cs) =
    let (l', brace) = read_byte l c in
    elim brace [
      | no_brace ↦ find_close (i + 1) l' depth cs
      | open_brace ↦ find_close (i + 1) l' (depth + 1) cs
      | close_brace ↦ if depth - 1 == 0 then some i else find_close (i + 1) l' (depth - 1) cs
    ]

with_close : ℕ → Option ℕ → Option (ℕ × ℕ)
with_close start none = none
with_close start (some close) = some (start, close)

close_from : List ℕ → Option ℕ → Option (ℕ × ℕ)
unfolding with_close
close_from data' none = none
close_from data' (some start) = with_close start (find_close start outside 0 (drop start data'))

-- `none` stands for the source's (-1, -1).
unfoldable pub find_json_bounds : List ℕ → ℕ → Option (ℕ × ℕ)
unfolding close_from
find_json_bounds data' marker =
    if leb (length data') marker
    then none
    else close_from data' (bottom (open_braces (marker + 1) 0 outside [] data'))
