-- ===== src/Sampled/Hashes/Judged.antt =====
-- What the verdict of the comparison says of the chunks.
use drive_eraser.Prelude.{
  ℕ, ◌+◌, ◌<◌, String, ◌≡◌, ◌≢◌, refl, sym, ◌∙◌, ◌⊎◌, inl, inr, true, not, Option, none, some, List,
  [], ◌∷◌, arith, all, any, length, str_eq, In, here, there, any-In, Bool-cases, eq_iff,
}
use drive_eraser.Sampled.Retry.{Result, ok, error}
use drive_eraser.Sampled.Station.{Station, read_sample, read_size}
use drive_eraser.Sampled.Zeros.{has_nonzero}
use drive_eraser.Sampled.Zeros.Clean.{Zeros, has_nonzero-Zeros}
use drive_eraser.Sampled.Hashes.{
  Digest, zero_bytes, Sample, is_unchanged, unchanged_of, Recheck, cut_off, rechecked,
  was_zero_chunk, recheck_unchanged, recheck_result, all_same, hashes_by, befores, afters,
  reread_result, nothing_changed, judge, attested,
}

In-unchanged_of :
    (xs : List Sample) {x : Sample} → In x xs → is_unchanged x ≡ true → In x (unchanged_of xs)
unfolding unchanged_of
In-unchanged_of [] at h = elim at [ ]
In-unchanged_of (x ∷ xs) here h = rw h here
In-unchanged_of (y ∷ xs) (there at) h = elim (Bool-cases (is_unchanged y)) [
  | inl kept ↦ rw kept (there (In-unchanged_of xs at h))
  | inr left ↦ rw left (In-unchanged_of xs at h)
]

at_each :
    (digest : Digest) (s : Station) (capacity : ℕ) (x : Sample) (xs : List Sample)
    → was_zero_chunk digest s capacity x ≡ true
    → ((y : Sample) → In y xs → was_zero_chunk digest s capacity y ≡ true)
    → (y : Sample) → In y (x ∷ xs)
    → was_zero_chunk digest s capacity y ≡ true
at_each digest s capacity x xs now later y here = now
at_each digest s capacity x xs now later y (there at) = later y at

recheck-zeros :
    (digest : Digest) (s : Station) (capacity check : ℕ) (found : Option ℕ) (xs : List Sample)
    → recheck_unchanged digest s capacity check found xs ≡ rechecked none
    → (found ≡ none) × ((x : Sample) → In x xs → was_zero_chunk digest s capacity x ≡ true)
unfolding recheck_unchanged
recheck-zeros digest s capacity check found [] h = (cc h, λ x at. elim at [ ])
recheck-zeros digest s capacity check found (x ∷ xs) h = elim (Bool-cases (s.interrupted check)) [
  | inl stop ↦ cc (rw (stop, recheck_unchanged) at h)
  | inr on ↦ elim (Bool-cases (was_zero_chunk digest s capacity x)) [
    | inl zeros ↦
        let (none_yet, rest) =
          recheck-zeros digest s capacity (check + 1) found xs
            (rw (on, zeros, recheck_unchanged) at h) in
        (none_yet, at_each digest s capacity x xs zeros rest)
    | inr data_left ↦
        let (never, rest) =
          recheck-zeros digest s capacity (check + 1) (some x.offset) xs
            (rw (on, data_left, recheck_unchanged) at h) in
        cc never
  ]
]

-- The chunk changed, or was read as zeros before: its hash was that of as many zeros.
abbrev pub Cleared : Digest → Station → ℕ → Sample → Type 0
Cleared digest s capacity x =
    (x.after ≢ x.before) ⊎ (x.before ≡ digest (zero_bytes (read_size s capacity x.offset)))

-- A chunk changed, and each chunk is cleared.
abbrev pub SomeChanged : Digest → Station → ℕ → List Sample → Type 0
SomeChanged digest s capacity xs =
    ((x : Sample) × In x xs × (x.after ≢ x.before))
    × ((x : Sample) → In x xs → Cleared digest s capacity x)

-- All hashes are one, and the first chunk was read once more, as zeros and at least one.
abbrev pub NoneChanged : Station → ℕ → List Sample → Type 0
NoneChanged s capacity xs =
    (first : Sample) × (rest : List Sample) × (xs ≡ first ∷ rest)
    × ((x : Sample) → In x xs → (x.before ≡ first.before) × (x.after ≡ first.before))
    × (bytes : List ℕ) × (read_sample s capacity (length xs) first.offset ≡ ok bytes)
    × (0 < length bytes)
    × Zeros bytes

module _ (digest : Digest) (s : Station) (capacity : ℕ) where
  changed_at : (x : Sample) → not (is_unchanged x) ≡ true → x.after ≢ x.before
  unfolding is_unchanged
  changed_at x h = ground (arith, eq_iff x.after x.before)

  chunk-Cleared :
      (xs : List Sample)
      → recheck_unchanged digest s capacity (length xs) none (unchanged_of xs) ≡ rechecked none
      → (x : Sample) → In x xs
      → Cleared digest s capacity x
  unfolding was_zero_chunk
  chunk-Cleared xs h x at = elim (Bool-cases (is_unchanged x)) [
    | inr moved ↦ inl (changed_at x (rw moved))
    | inl kept ↦
        let zeros =
          (recheck-zeros digest s capacity (length xs) none (unchanged_of xs) h).1 x
            (In-unchanged_of xs at kept) in
        inr ((eq_iff _ _).0 zeros)
  ]

  recheck_attests : (r : Recheck) → attested (recheck_result r) ≡ true → r ≡ rechecked none
  unfolding attested recheck_result
  recheck_attests cut_off h = cc h
  recheck_attests (rechecked none) h = refl
  recheck_attests (rechecked (some offset)) h = cc h

  reread_attests :
      (r : Result (List ℕ))
      → attested (reread_result r) ≡ true
      → (bytes : List ℕ) × (r ≡ ok bytes) × (0 < length bytes) × Zeros bytes
  unfolding attested reread_result
  reread_attests (error code details) h = cc h
  reread_attests (ok []) h = cc h
  reread_attests (ok (b ∷ bs)) h = elim (Bool-cases (has_nonzero (b ∷ bs))) [
    | inl found ↦ cc (rw (found, reread_result, attested) at h)
    | inr fine ↦ (b ∷ bs, refl, omega arith, has_nonzero-Zeros (b ∷ bs) fine)
  ]

  hashes_by_same :
      (hash : Sample → String) (h : String) (xs : List Sample)
      → all (λ k. str_eq h k) (hashes_by hash xs) ≡ true
      → (x : Sample) → In x xs
      → hash x ≡ h
  hashes_by_same hash h [] e x at = elim at [ ]
  hashes_by_same hash h (x ∷ xs) e y here = ground (arith, eq_iff h (hash x))
  hashes_by_same hash h (y ∷ xs) e x (there at) = hashes_by_same hash h xs (ground arith) x at

  hashes_by-all_same :
      (hash : Sample → String) (x : Sample) (xs : List Sample)
      → all_same (hashes_by hash (x ∷ xs)) ≡ true
      → (y : Sample) → In y (x ∷ xs)
      → hash y ≡ hash x
  unfolding all_same
  hashes_by-all_same hash x xs e y here = refl
  hashes_by-all_same hash x xs e y (there at) = hashes_by_same hash (hash x) xs e y at

  nothing_changed-NoneChanged :
      (xs : List Sample)
      → attested (nothing_changed s capacity xs) ≡ true
      → NoneChanged s capacity xs
  unfolding nothing_changed attested
  nothing_changed-NoneChanged [] h = cc h
  nothing_changed-NoneChanged (x ∷ xs) h =
      let (one_before, one_after, kept, reread) = tests in
      let (bytes, answer, some_bytes, zeros) = reread_attests _ reread in
      let later : x.after ≡ x.before = sym ((eq_iff x.before x.after).0 kept) in
      (
        x,
        xs,
        refl,
        λ y at. (
          hashes_by-all_same (λ z. z.before) x xs one_before y at,
          hashes_by-all_same (λ z. z.after) x xs one_after y at ∙ later,
        ),
        bytes,
        answer,
        some_bytes,
        zeros,
      )
    where
      tests :
          (all_same (befores (x ∷ xs)) ≡ true)
          × (all_same (afters (x ∷ xs)) ≡ true)
          × (str_eq x.before x.after ≡ true)
          × (attested (reread_result (read_sample s capacity (length (x ∷ xs)) x.offset)) ≡ true)
      tests = ground arith

  pub judge_attests :
      (xs : List Sample)
      → attested (judge digest s capacity xs) ≡ true
      → SomeChanged digest s capacity xs ⊎ NoneChanged s capacity xs
  unfolding judge
  judge_attests xs h = elim (Bool-cases (any (λ x. not (is_unchanged x)) xs)) [
    | inl some_changed ↦
        let (x, at, moved) = any-In _ xs some_changed in
        inl (
          (x, at, changed_at x moved),
          chunk-Cleared xs (recheck_attests _ (rw (some_changed, judge) at h)),
        )
    | inr none_changed ↦ inr (nothing_changed-NoneChanged xs (rw (none_changed, judge) at h))
  ]
