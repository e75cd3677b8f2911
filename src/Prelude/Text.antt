-- ===== src/Prelude/Text.antt =====
-- The text functions of Python that the backend uses, over native texts. `lower` and `strip` are
-- those of Python on ASCII texts, which is what device tools, policies and requests hold.
use Prim.Native.Nat.{ℕ, zero, suc, ◌-◌}
use Prim.Native.Char.{Char, code}
use Prim.Native.String.{String, char_at}
use mathlib.Core.Path.{◌≡◌}
use mathlib.Core.Bool.{Bool, true, false, ◌&&◌, ◌||◌, not}
use mathlib.Core.Logic.{◌≢◌}
use mathlib.Core.List.{List, [], ◌∷◌}
use mathlib.Core.Option.{Option, none, some}
use native.Mathlib.Omega.{arith}
use text.Mathlib.Text
use text.Mathlib.TextEquality.{eq_iff}
use drive_eraser.Prelude.Tests.{leb, ◌==◌, if◌then◌else◌}

-- `s == t` on texts
abbrev pub str_eq : String → String → Bool
str_eq s t = Text.◌==◌ s t

-- The code points of a text: its bytes, if it is ASCII.
abbrev pub codes : String → List ℕ
codes String.[] = []
codes (String.◌∷◌ c s) = code c ∷ codes s

lower_char : Char → Char
lower_char c =
    if leb b'A' (code c) && leb (code c) b'Z'
    then char_at "abcdefghijklmnopqrstuvwxyz" (code c - b'A')
    else c

-- `s.lower()`
unfoldable pub lower : String → String
unfolding lower_char
lower String.[] = String.[]
lower (String.◌∷◌ c s) = String.◌∷◌ (lower_char c) (lower s)

upper_char : Char → Char
upper_char c =
    if leb b'a' (code c) && leb (code c) b'z'
    then char_at "ABCDEFGHIJKLMNOPQRSTUVWXYZ" (code c - b'a')
    else c

-- `s.upper()`
unfoldable pub upper : String → String
unfolding upper_char
upper String.[] = String.[]
upper (String.◌∷◌ c s) = String.◌∷◌ (upper_char c) (upper s)

unfoldable pub is_space : Char → Bool
is_space c =
    code c == 32 || (leb 9 (code c) && leb (code c) 13) || (leb 28 (code c) && leb (code c) 31)

unfoldable pub lstrip : String → String
unfolding is_space
lstrip String.[] = String.[]
lstrip (String.◌∷◌ c s) = if is_space c then lstrip s else String.◌∷◌ c s

-- A space is dropped at the end of the text, and where all that follows it was dropped.
keep_space : Char → String → String
keep_space c String.[] = if is_space c then String.[] else String.◌∷◌ c String.[]
keep_space c (String.◌∷◌ d s) = String.◌∷◌ c (String.◌∷◌ d s)

unfoldable pub rstrip : String → String
unfolding is_space keep_space
rstrip String.[] = String.[]
rstrip (String.◌∷◌ c s) = keep_space c (rstrip s)

-- `s.strip()`
unfoldable pub strip : String → String
unfolding lstrip rstrip
strip s = rstrip (lstrip s)

-- `os.path.basename(path)`: what follows the last slash
basename_from : String → String → String
basename_from last String.[] = last
basename_from last (String.◌∷◌ c s) = basename_from (if code c == b'/' then s else last) s

unfoldable pub basename : String → String
unfolding basename_from
basename path = basename_from path path

-- `s[n:]`
unfoldable pub drop_chars : ℕ → String → String
drop_chars zero s = s
drop_chars (suc n) String.[] = String.[]
drop_chars (suc n) (String.◌∷◌ c s) = drop_chars n s

-- `needle in hay`
unfoldable pub is_prefix : String → String → Bool
is_prefix String.[] t = true
is_prefix (String.◌∷◌ c s) String.[] = false
is_prefix (String.◌∷◌ c s) (String.◌∷◌ d t) = code c == code d && is_prefix s t

unfoldable pub contains : String → String → Bool
unfolding is_prefix
contains needle String.[] = is_prefix needle String.[]
contains needle (String.◌∷◌ c s) = is_prefix needle (String.◌∷◌ c s) || contains needle s

-- `s in {a, b, …}` and `s in [a, b, …]`
unfoldable pub member : String → List String → Bool
member s [] = false
member s (t ∷ ts) = str_eq s t || member s ts

-- The truth of a text that may be absent: `None` and `""` are false.
abbrev pub truthy : Option String → Bool
truthy none = false
truthy (some s) = not (str_eq s "")

-- `str(o or d)`
unfoldable pub or_else : Option String → String → String
or_else none d = d
or_else (some s) d = if str_eq s "" then d else s

pub str_eq_ne : (s t : String) → str_eq s t ≡ false → s ≢ t
str_eq_ne s t h = ground (arith, eq_iff s t)

pub ne-str_eq : (s t : String) → s ≢ t → str_eq s t ≡ false
ne-str_eq s t h = ground (arith, eq_iff s t)
