-- ===== src/Device/Path/Grammar.antt =====
-- The language that `validate_device_path` accepts, without its scanner.
use mathlib.Core.Path.{subst}
use mathlib.Core.Bool.{false≢true}
use drive_eraser.Prelude.{
  ℕ, String, ◌≡◌, refl, ◌≢◌, ◌↔◌, Bool, true, false, ◌&&◌, some, List, [], ◌∷◌, ◌++◌, arith, ◌==◌,
  ==_iff, All, any, codes, Bool-cases, ◌⊎◌, inl, inr, ap, sym, ◌∙◌,
}
use drive_eraser.Device.Path.{
  is_path_char, in_segment, segments, matches, has_dots, valid_codes, validate_device_path,
}

-- A segment of a path: one allowed character or more.
abbrev pub IsSegment : List ℕ → Type 0
IsSegment cs = (cs ≢ []) × All (λ c. is_path_char c ≡ true) cs

-- `/a/b/c` from its segments
abbrev pub render : List (List ℕ) → List ℕ
render [] = []
render (s ∷ ss) = b'/' ∷ (s ++ render ss)

-- A path below /dev with one segment or more.
pub record IsDevicePath (path : List ℕ) : Type 0 where
  pub parts : List (List ℕ)
  pub some_part : parts ≢ []
  pub each : All IsSegment parts
  pub spelled : path ≡ b'/' ∷ b'd' ∷ b'e' ∷ b'v' ∷ render parts

-- What is left of a segment, and the segments behind it.
record Split (started : Bool) (cs : List ℕ) : Type 0 where
  first : List ℕ
  rest : List (List ℕ)
  begun : (started ≡ true) ⊎ (first ≢ [])
  allowed : All (λ c. is_path_char c ≡ true) first
  others : All IsSegment rest
  whole : cs ≡ first ++ render rest

slash_step :
    (started : Bool) (c : ℕ) (cs : List ℕ)
    → is_path_char c ≡ false
    → in_segment started (c ∷ cs) ≡ true
    → (started ≡ true) × (c ≡ b'/') × (in_segment false cs ≡ true)
unfolding in_segment
slash_step started c cs bad h = ground arith

add_char :
    (started : Bool) (c : ℕ) (cs : List ℕ)
    → is_path_char c ≡ true
    → Split true cs
    → Split started (c ∷ cs)
add_char started c cs good s = record {
  first = c ∷ s.first;
  rest = s.rest;
  begun = inr (λ e. cc);
  allowed = (good, s.allowed);
  others = s.others;
  whole = ap (λ (t : List ℕ). c ∷ t) s.whole;
}

not_started : {cs : List ℕ} → (false ≡ true) ⊎ (cs ≢ []) → cs ≢ []
not_started (inl e) = absurd (false≢true e)
not_started (inr n) = n

add_slash :
    (started : Bool) (c : ℕ) (cs : List ℕ)
    → started ≡ true
    → c ≡ b'/'
    → Split false cs
    → Split started (c ∷ cs)
add_slash started c cs begun e s = record {
  first = [];
  rest = s.first ∷ s.rest;
  begun = inl begun;
  allowed = tt;
  others = ((not_started s.begun, s.allowed), s.others);
  whole = cc (e, s.whole);
}

in_segment-Split : (started : Bool) (cs : List ℕ) → in_segment started cs ≡ true → Split started cs
in_segment-Split started [] h = record {
  first = [];
  rest = [];
  begun = inl (unfold in_segment in h);
  allowed = tt;
  others = tt;
  whole = refl;
}
in_segment-Split started (c ∷ cs) h = elim (Bool-cases (is_path_char c)) [
  | inl good ↦
      add_char started c cs good (in_segment-Split true cs (unfold in_segment in ground (arith, h)))
  | inr bad ↦
      let (begun, e, next) = slash_step started c cs bad h in
      add_slash started c cs begun e (in_segment-Split false cs next)
]

slash_is_no_char : is_path_char b'/' ≡ false
unfolding is_path_char
slash_is_no_char = refl

nil_begun : {started : Bool} → (started ≡ true) ⊎ (◌≢◌ {A = List ℕ} [] []) → started ≡ true
nil_begun (inl e) = e
nil_begun (inr n) = absurd (n refl)

-- The scanner takes what is left of a segment, and the segments behind it.
in_segment-append :
    (rest : List (List ℕ)) (first : List ℕ) (started : Bool)
    → (started ≡ true) ⊎ (first ≢ [])
    → All (λ c. is_path_char c ≡ true) first
    → All IsSegment rest
    → in_segment started (first ++ render rest) ≡ true
unfolding in_segment
in_segment-append [] [] started b a o = nil_begun b
in_segment-append (s ∷ rest) [] started b a o =
    rw (slash_is_no_char, nil_begun b) (in_segment-append rest s false (inr o.0.0) o.0.1 o.1)
in_segment-append rest (c ∷ cs) started b a o =
    rw a.0 (in_segment-append rest cs true (inl refl) a.1 o)

segments-parts :
    (cs : List ℕ)
    → segments cs ≡ true
    → (parts : List (List ℕ)) × (parts ≢ []) × All IsSegment parts × (cs ≡ render parts)
unfolding segments
segments-parts [] h = cc
segments-parts (c ∷ cs) h =
    let s = in_segment-Split false cs (ground (arith, h)) in
    (
      s.first ∷ s.rest,
      (λ e. cc),
      ((not_started s.begun, s.allowed), s.others),
      ground (arith, s.whole),
    )

matches-IsDevicePath : (cs : List ℕ) → matches cs ≡ true → IsDevicePath cs
unfolding matches
matches-IsDevicePath (a ∷ b ∷ c ∷ d ∷ rest) h =
    let (parts, some_part, each, spelled) = segments-parts rest (ground (arith, h)) in
    record {
      parts = parts;
      some_part = some_part;
      each = each;
      spelled = ground (arith, spelled, h);
    }
matches-IsDevicePath _ h = cc

render-segments :
    (parts : List (List ℕ)) → parts ≢ [] → All IsSegment parts → segments (render parts) ≡ true
unfolding segments
render-segments [] n a = absurd (n refl)
render-segments (s ∷ ss) n a = in_segment-append ss s false (inr a.0.0) a.0.1 a.1

has_dots-append : (before after : List ℕ) → has_dots (before ++ b'.' ∷ b'.' ∷ after) ≡ true
unfolding has_dots
has_dots-append [] after = refl
has_dots-append (c ∷ []) after = ground (arith, has_dots-append [] after)
has_dots-append (c ∷ d ∷ before) after = ground (arith, has_dots-append (d ∷ before) after)

-- Two dots in a row stand nowhere in the path.
abbrev pub NoDots : List ℕ → Type 0
NoDots path = (before after : List ℕ) → path ≢ before ++ b'.' ∷ b'.' ∷ after

-- Where the scanner for `..` answers yes, there are two dots in a row.
record Dots (path : List ℕ) : Type 0 where
  before : List ℕ
  after : List ℕ
  spelled : path ≡ before ++ b'.' ∷ b'.' ∷ after

later-Dots : (c : ℕ) {path : List ℕ} → Dots path → Dots (c ∷ path)
later-Dots c d = record {
  before = c ∷ d.before;
  after = d.after;
  spelled = ap (λ (t : List ℕ). c ∷ t) d.spelled;
}

has_dots-Dots : (path : List ℕ) → has_dots path ≡ true → Dots path
unfolding has_dots
has_dots-Dots [] h = cc
has_dots-Dots (c ∷ []) h = cc
has_dots-Dots (c ∷ d ∷ cs) h = elim (Bool-cases (c == b'.' && d == b'.')) [
  | inl yes_dots ↦ record { before = []; after = cs; spelled = ground arith }
  | inr other ↦ later-Dots c (has_dots-Dots (d ∷ cs) (ground (arith, h)))
]

NoDots-has_dots : (path : List ℕ) → NoDots path → has_dots path ≡ false
NoDots-has_dots path n = elim (Bool-cases (has_dots path)) [
  | inl dots ↦ let d = has_dots-Dots path dots in absurd (n d.before d.after d.spelled)
  | inr none_found ↦ none_found
]

has_dots-NoDots : (path : List ℕ) → has_dots path ≡ false → NoDots path
has_dots-NoDots path h before after e =
    false≢true (sym h ∙ ap has_dots e ∙ has_dots-append before after)

module _ (x : ℕ) (odd : is_path_char x ≡ false) (no_slash : x ≢ b'/') where
  any-append :
      (cs ds : List ℕ)
      → All (λ c. is_path_char c ≡ true) cs
      → any (λ c. c == x) ds ≡ false
      → any (λ c. c == x) (cs ++ ds) ≡ false
  any-append [] ds a h = h
  any-append (c ∷ cs) ds a h = elim (Bool-cases (c == x)) [
    | inl same ↦ absurd (false≢true (sym odd ∙ ap is_path_char (sym ((==_iff c x).0 same)) ∙ a.0))
    | inr other ↦ rw other (any-append cs ds a.1 h)
  ]

  any-render :
      (parts : List (List ℕ)) → All IsSegment parts → any (λ c. c == x) (render parts) ≡ false
  any-render [] a = refl
  any-render (s ∷ ss) a = ground (arith, any-append s (render ss) a.0.1 (any-render ss a.1))

controls_are_odd : (is_path_char 10 ≡ false) × (is_path_char 13 ≡ false)
unfolding is_path_char
controls_are_odd = (refl, refl)

matches-render :
    (parts : List (List ℕ))
    → parts ≢ []
    → All IsSegment parts
    → matches (b'/' ∷ b'd' ∷ b'e' ∷ b'v' ∷ render parts) ≡ true
unfolding matches
matches-render parts n a = render-segments parts n a

valid_codes-render :
    (parts : List (List ℕ))
    → parts ≢ []
    → All IsSegment parts
    → NoDots (b'/' ∷ b'd' ∷ b'e' ∷ b'v' ∷ render parts)
    → valid_codes (b'/' ∷ b'd' ∷ b'e' ∷ b'v' ∷ render parts) ≡ true
unfolding valid_codes
valid_codes-render parts n a dots =
    rw
      (
        NoDots-has_dots _ dots,
        any-render 10 controls_are_odd.0 (λ e. omega arith) parts a,
        any-render 13 controls_are_odd.1 (λ e. omega arith) parts a,
      )
      (matches-render parts n a)

valid_codes-matches :
    (path : List ℕ) → valid_codes path ≡ true → (has_dots path ≡ false) × (matches path ≡ true)
unfolding valid_codes
valid_codes-matches [] h = cc
valid_codes-matches (c ∷ cs) h = ground arith

-- A device path is accepted exactly when it is `/dev` followed by one or more segments, each a
-- slash and one or more letters, digits or `_ - : .`, and it holds no two dots in a row.
pub validate_device_path_iff :
    (device : String)
    → (validate_device_path (some device) ≡ true)
      ↔ (IsDevicePath (codes device) × NoDots (codes device))
unfolding validate_device_path
validate_device_path_iff device = (
  λ h.
      let (dots, m) = valid_codes-matches (codes device) h in
      (matches-IsDevicePath (codes device) m, has_dots-NoDots (codes device) dots),
  λ (path, dots).
      subst (λ cs. valid_codes cs ≡ true) (sym path.spelled)
        (valid_codes-render path.parts path.some_part path.each (subst NoDots path.spelled dots)),
)
