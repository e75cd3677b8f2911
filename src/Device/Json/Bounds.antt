-- ===== src/Device/Json/Bounds.antt =====
-- Where the bounds that `find_json_bounds` finds lie.
use mathlib.Core.Path.{subst}
use native.Mathlib.Nat.{zero-add, suc-add}
use drive_eraser.Prelude.{
  ℕ, zero, suc, ◌+◌, ◌-◌, ◌≤◌, ◌<◌, ◌≡◌, refl, false, some, List, [], ◌∷◌, arith, ◌==◌, length,
  drop, get_elem?, sym, ap, ◌∙◌, if◌then◌else◌, Bool-cases, ◌⊎◌, inl, inr,
}
use drive_eraser.Device.Json.{
  Lexer, outside, Brace, no_brace, open_brace, close_brace, read_byte, stack_step, open_braces,
  bottom, find_close, find_json_bounds,
}

data BraceCase (b : Brace) : Type 0 where
  none_here : b ≡ no_brace → BraceCase b
  opens : b ≡ open_brace → BraceCase b
  closes : b ≡ close_brace → BraceCase b

Brace-cases : (b : Brace) → BraceCase b
Brace-cases no_brace = none_here refl
Brace-cases open_brace = opens refl
Brace-cases close_brace = closes refl

-- What is found from the next position on is found from this one on.
later :
    (i c : ℕ) (cs : List ℕ) (e : ℕ)
    → (i + 1 ≤ e) × (e < i + 1 + length cs) × (get_elem? cs (e - (i + 1)) ≡ some b'}')
    → (i ≤ e) × (e < i + suc (length cs)) × (get_elem? (c ∷ cs) (e - i) ≡ some b'}')
later i c cs e (lo, hi, at) =
    let step : e - i ≡ suc (e - (i + 1)) = omega arith in (omega arith, omega arith, rw step at)

read_byte-close : (l : Lexer) (c : ℕ) → (read_byte l c).1 ≡ close_brace → c ≡ b'}'
unfolding read_byte
read_byte-close l c h = ground arith

read_byte-open :
    (l : Lexer) (c : ℕ)
    → (read_byte l c).1 ≡ open_brace
    → (c ≡ b'{')
      × (read_byte outside c ≡ (outside, open_brace))
      × ((read_byte l c).0 ≡ outside)
      × (l.in_string ≡ false)
unfolding read_byte
read_byte-open l c h = ground arith

module _ (i : ℕ) (l : Lexer) (depth c : ℕ) (cs : List ℕ) where
  close-no_brace :
      (read_byte l c).1 ≡ no_brace
      → find_close i l depth (c ∷ cs) ≡ find_close (i + 1) (read_byte l c).0 depth cs
  unfolding find_close
  close-no_brace h = ground arith

  close-open_brace :
      (read_byte l c).1 ≡ open_brace
      → find_close i l depth (c ∷ cs) ≡ find_close (i + 1) (read_byte l c).0 (depth + 1) cs
  unfolding find_close
  close-open_brace h = ground arith

  close-close_brace :
      (read_byte l c).1 ≡ close_brace
      → find_close i l depth (c ∷ cs)
        ≡ (if depth - 1 == 0 then some i else find_close (i + 1) (read_byte l c).0 (depth - 1) cs)
  unfolding find_close
  close-close_brace h = ground arith

here_at :
    (i c : ℕ) (cs : List ℕ) (e : ℕ)
    → i ≡ e
    → c ≡ b'}'
    → (i ≤ e) × (e < i + suc (length cs)) × (get_elem? (c ∷ cs) (e - i) ≡ some b'}')
here_at i c cs e p q =
    let z : e - i ≡ 0 = omega arith in (omega arith, omega arith, rw z (ap some q))

-- The closing position lies in the bytes that were read, and holds a closing brace.
find_close-at :
    (i : ℕ) (l : Lexer) (depth : ℕ) (cs : List ℕ) (e : ℕ)
    → find_close i l depth cs ≡ some e
    → (i ≤ e) × (e < i + length cs) × (get_elem? cs (e - i) ≡ some b'}')
find_close-at i l depth [] e h = unfold find_close in cc h
find_close-at i l depth (c ∷ cs) e h = elim (Brace-cases (read_byte l c).1) [
  | none_here n ↦ later i c cs e (
      find_close-at (i + 1) (read_byte l c).0 depth cs e
        (sym (close-no_brace i l depth c cs n) ∙ h))
  | opens o ↦ later i c cs e (
      find_close-at (i + 1) (read_byte l c).0 (depth + 1) cs e
        (sym (close-open_brace i l depth c cs o) ∙ h))
  | closes k ↦
      let h' = rw (close-close_brace i l depth c cs k) at h in
      elim (Bool-cases (depth - 1 == 0)) [
        | inl last ↦ here_at i c cs e (ground (arith, h')) (read_byte-close l c k)
        | inr more ↦
            later i c cs e
              (find_close-at (i + 1) (read_byte l c).0 (depth - 1) cs e (ground (arith, h')))
      ]
]

-- How the brace at the bottom of the final stack came there. Either it was there when the scan of
-- `cs` began, and then the brace that closes it, at the depth of the stack, lies behind the `count`
-- bytes that were scanned; or it is one of those bytes, and then the same holds of a scan that
-- begins at it.
abbrev Enclosing : (count i : ℕ) → Lexer → List ℕ → List ℕ → ℕ → Type 0
Enclosing count i l stack cs s =
    ((bottom stack ≡ some s)
      × ((e : ℕ) → find_close i l (length stack) cs ≡ some e → i + count ≤ e))
    ⊎ ((i ≤ s)
        × (s < i + count)
        × (get_elem? cs (s - i) ≡ some b'{')
        × ((e : ℕ) → find_close s outside 0 (drop (s - i) cs) ≡ some e → i + count ≤ e))

-- A brace that opens behind the first byte.
behind :
    (count i c : ℕ) (cs : List ℕ) (l : Lexer) (stack : List ℕ) (s : ℕ)
    → (i + 1 ≤ s)
      × (s < i + 1 + count)
      × (get_elem? cs (s - (i + 1)) ≡ some b'{')
      × ((e : ℕ) → find_close s outside 0 (drop (s - (i + 1)) cs) ≡ some e → i + 1 + count ≤ e)
    → Enclosing (suc count) i l stack (c ∷ cs) s
behind count i c cs l stack s (lo, hi, at, far) =
    let step : s - i ≡ suc (s - (i + 1)) = omega arith in
    inr (omega arith, omega arith, rw step at, rw step (λ e h. omega (arith, far e h)))

module _ (count i c : ℕ) (cs : List ℕ) (l : Lexer) (s : ℕ) where
  enclose_same :
      (stack : List ℕ)
      → (read_byte l c).1 ≡ no_brace
      → Enclosing count (i + 1) (read_byte l c).0 stack cs s
      → Enclosing (suc count) i l stack (c ∷ cs) s
  enclose_same stack n (inl (b, far)) =
      inl (b, λ e h. omega (arith, far e (sym (close-no_brace i l _ c cs n) ∙ h)))
  enclose_same stack n (inr at) = behind count i c cs l stack s at

  opened_here :
      (read_byte l c).1 ≡ open_brace
      → i ≡ s
      → ((e : ℕ) → find_close (i + 1) (read_byte l c).0 1 cs ≡ some e → i + 1 + count ≤ e)
      → Enclosing (suc count) i l [] (c ∷ cs) s
  opened_here o p far =
      let (brace, fresh, out, code) = read_byte-open l c o in
      let z : s - i ≡ 0 = omega arith in
      inr (
        omega arith,
        omega arith,
        rw z (ap some brace),
        rw (z, ← p)
            λ e h. omega (
              arith,
              far e (
                  rw out (
                    sym (
                      close-open_brace i outside 0 c cs (ap (λ (q : Lexer × Brace). q.1) fresh)
                      ∙ ap (λ (q : Lexer × Brace). find_close (i + 1) q.0 (0 + 1) cs) fresh)
                    ∙ h)),
            ),
      )

  enclose_open :
      (stack : List ℕ)
      → (read_byte l c).1 ≡ open_brace
      → Enclosing count (i + 1) (read_byte l c).0 (i ∷ stack) cs s
      → Enclosing (suc count) i l stack (c ∷ cs) s
  unfolding bottom
  enclose_open stack o (inr at) = behind count i c cs l stack s at
  enclose_open [] o (inl (b, far)) = opened_here o (ground (arith, b)) far
  enclose_open (k ∷ ks) o (inl (b, far)) =
      let deeper : suc (length (k ∷ ks)) ≡ length (k ∷ ks) + 1 = omega arith in
      inl (b, λ e h. omega (arith, far e (rw deeper (sym (close-open_brace i l _ c cs o) ∙ h))))

  enclose_close :
      (stack : List ℕ)
      → (read_byte l c).1 ≡ close_brace
      → Enclosing count (i + 1) (read_byte l c).0 (stack_step i close_brace stack) cs s
      → Enclosing (suc count) i l stack (c ∷ cs) s
  unfolding bottom stack_step
  enclose_close stack k (inr at) = behind count i c cs l stack s at
  enclose_close [] k (inl (b, far)) = cc b
  enclose_close (j ∷ []) k (inl (b, far)) = cc b
  enclose_close (j ∷ h ∷ hs) k (inl (b, far)) =
      let less : length (j ∷ h ∷ hs) - 1 ≡ length (h ∷ hs) = omega arith in
      inl (
        b,
        λ e found.
            omega
              (arith, far e (ground (arith, sym (close-close_brace i l _ c cs k) ∙ found, less))),
      )

  enclose_byte :
      (stack : List ℕ)
      → Enclosing count (i + 1) (read_byte l c).0 (stack_step i (read_byte l c).1 stack) cs s
      → Enclosing (suc count) i l stack (c ∷ cs) s
  enclose_byte stack h = elim (Brace-cases (read_byte l c).1) [
    | none_here n ↦ enclose_same stack n (unfold stack_step in rw n at h)
    | opens o ↦ enclose_open stack o (unfold stack_step in rw o at h)
    | closes k ↦ enclose_close stack k (rw k at h)
  ]

open_braces-Enclosing :
    (count i : ℕ) (l : Lexer) (stack cs : List ℕ) (s : ℕ)
    → bottom (open_braces count i l stack cs) ≡ some s
    → Enclosing count i l stack cs s
unfolding open_braces
open_braces-Enclosing zero i l stack cs s h =
    inl (h, λ e found. omega (arith, (find_close-at i l (length stack) cs e found).0))
open_braces-Enclosing (suc count) i l stack [] s h =
    inl (h, λ e found. unfold find_close in cc found)
open_braces-Enclosing (suc count) i l stack (c ∷ cs) s h = enclose_byte count i c cs l s stack (
    open_braces-Enclosing count (i + 1) (read_byte l c).0 (stack_step i (read_byte l c).1 stack) cs
      s h)

bottom_inside :
    (count : ℕ) (cs : List ℕ) (s : ℕ)
    → Enclosing count 0 outside [] cs s
    → (s < count)
      × (get_elem? cs s ≡ some b'{')
      × ((e : ℕ) → find_close s outside 0 (drop s cs) ≡ some e → count ≤ e)
unfolding bottom
bottom_inside count cs s (inl (b, far)) = cc b
bottom_inside count cs s (inr (lo, hi, at, far)) =
    let plain : s - 0 ≡ s = omega arith in
    (omega arith, rw plain at at, λ e h. omega (arith, far e (rw plain h)))

get_elem?-drop : (n m : ℕ) (cs : List ℕ) → get_elem? (drop n cs) m ≡ get_elem? cs (n + m)
get_elem?-drop zero m cs = rw zero-add
get_elem?-drop (suc n) m [] = refl
get_elem?-drop (suc n) m (c ∷ cs) = rw suc-add (get_elem?-drop n m cs)

length-drop : (n : ℕ) (cs : List ℕ) → length (drop n cs) ≡ length cs - n
length-drop zero cs = omega arith
length-drop (suc n) [] = omega arith
length-drop (suc n) (c ∷ cs) = omega (arith, length-drop n cs)

-- What the two scans answer where bounds are found.
found_parts :
    (data' : List ℕ) (marker start close : ℕ)
    → find_json_bounds data' marker ≡ some (start, close)
    → (marker < length data')
      × (bottom (open_braces (marker + 1) 0 outside [] data') ≡ some start)
      × (find_close start outside 0 (drop start data') ≡ some close)
unfolding find_json_bounds
found_parts data' marker start close h = ground arith

-- The bounds that are found enclose the marker: an opening brace stands at the start, at or before
-- the marker, a closing brace at the end, behind the marker and inside the block.
pub find_json_bounds-encloses :
    (data' : List ℕ) (marker start close : ℕ)
    → find_json_bounds data' marker ≡ some (start, close)
    → (start ≤ marker)
      × (marker < close)
      × (close < length data')
      × (get_elem? data' start ≡ some b'{')
      × (get_elem? data' close ≡ some b'}')
find_json_bounds-encloses data' marker start close h =
    let (inside, opened, closed) = found_parts data' marker start close h in
    let (before, brace, far) =
      bottom_inside (marker + 1) data' start
        (open_braces-Enclosing (marker + 1) 0 outside [] data' start opened) in
    let (lo, hi, at) = find_close-at start outside 0 (drop start data') close closed in
    let past : start + (close - start) ≡ close = omega arith in
    (
      omega arith,
      omega (arith, far close closed),
      omega (arith, length-drop start data'),
      brace,
      subst (λ n. get_elem? data' n ≡ some b'}') past
          (sym (get_elem?-drop start (close - start) data') ∙ at),
    )
