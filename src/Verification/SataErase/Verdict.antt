-- ===== src/Verification/SataErase/Verdict.antt =====
-- When the security that a SATA drive shows attests a secure erase.
use drive_eraser.Prelude.{
  String, ◌≡◌, ◌↔◌, ◌≢◌, refl, true, false, not, ◌&&◌, ◌||◌, Option, none, some, List, [], ◌∷◌,
  arith, str_eq, strip, lower, Bool-cases, inl, inr, ◌⊎◌, In, any-In, In-any, eq_iff, str_eq_ne,
  ne-str_eq,
}
use drive_eraser.Device.{CommandResult, Tools, validate_device_path}
use drive_eraser.Verification.Nvme.{extract_command_output}
use drive_eraser.Verification.SataErase.{
  extract_sata_security_section, has_word, line_flag, has_heading, section_lines, without_section,
  identify_verdict, identify, verify_sata_secure_erase,
}

abbrev pub section_of : CommandResult → String
section_of r = extract_sata_security_section (extract_command_output r)

-- The section is missing, while the command succeeded and printed another section.
pub record Absent (r : CommandResult) : Type 0 where
  pub missing : section_of r ≡ ""
  pub ok : r.ok ≡ true
  pub heading :
      (has_heading "configuration:" true (lower (extract_command_output r)) ≡ true)
      ⊎ (has_heading "geometry:" true (lower (extract_command_output r)) ≡ true)

-- Each line of the section with the word `enabled` has the word `not` too.
pub record Disabled (r : CommandResult) : Type 0 where
  pub present : section_of r ≢ ""
  pub negated :
      (line : String)
      → In line (section_lines (section_of r))
      → has_word "enabled" false line ≡ true
      → has_word "not" false line ≡ true

pub record Unsecured (r : CommandResult) : Type 0 where
  pub said : strip (lower (extract_command_output r)) ≢ ""
  pub shown : Absent r ⊎ Disabled r

line_flag-negated :
    (word : String) (lines : List String)
    → line_flag word lines ≡ false
    → (line : String) → In line lines
    → has_word word false line ≡ true
    → has_word "not" false line ≡ true
unfolding line_flag
line_flag-negated word lines unset line at said = elim (Bool-cases (has_word "not" false line)) [
  | inl negated ↦ negated
  | inr plain ↦
      let set =
        In-any (λ l. has_word word false l && not (has_word "not" false l)) lines line at
          (rw (said, plain)) in
      cc (set, unset)
]

negated-line_flag :
    (word : String) (lines : List String)
    → ((line : String)
        → In line lines
        → has_word word false line ≡ true
        → has_word "not" false line ≡ true)
    → line_flag word lines ≡ false
unfolding line_flag
negated-line_flag word lines h = elim (Bool-cases (line_flag word lines)) [
  | inl set ↦
      let (line, at, both) =
        any-In (λ l. has_word word false l && not (has_word "not" false l)) lines set in
      let negated = h line at (ground arith) in absurd (ground arith)
  | inr unset ↦ unset
]

-- The tests of `identify_verdict`
identify_verdict-tests :
    (method : String) (r : CommandResult)
    → ((identify_verdict method r).ok ≡ true) ↔ (
        (str_eq (strip (lower (extract_command_output r))) "" ≡ false)
        × (((str_eq (section_of r) "" ≡ true)
              × (r.ok ≡ true)
              × ((has_heading "configuration:" true (lower (extract_command_output r))
                    || has_heading "geometry:" true (lower (extract_command_output r)))
                  ≡ true))
            ⊎ ((str_eq (section_of r) "" ≡ false)
                × (line_flag "enabled" (section_lines (section_of r)) ≡ false))))
unfolding identify_verdict without_section
identify_verdict-tests method r = (λ h. ground arith, λ h. ground arith)

-- The answer of `hdparm -I` attests a secure erase exactly when it is not blank and either it has a
-- security section of which each line with the word `enabled` has the word `not`, whatever the exit status, or
-- it has no such section, the command succeeded, and a configuration or geometry section is there.
pub identify_verdict_iff :
    (method : String) (r : CommandResult) → ((identify_verdict method r).ok ≡ true) ↔ Unsecured r
identify_verdict_iff method r = (
  λ h.
      let (said, shown) = (identify_verdict-tests method r).0 h in
      record {
        said = str_eq_ne _ _ said;
        shown = elim shown [
          | inl (missing, ok, heading) ↦ inl (record {
            missing = (eq_iff (section_of r) "").0 missing;
            ok = ok;
            heading = ground arith;
          })
          | inr (present, unset) ↦ inr (record {
            present = str_eq_ne _ _ present;
            negated = line_flag-negated "enabled" _ unset;
          })
        ];
      },
  λ u. (identify_verdict-tests method r).1 (
    ne-str_eq _ _ u.said,
    elim u.shown [
      | inl a ↦ inl ((eq_iff (section_of r) "").1 a.missing, a.ok, ground (arith, a.heading))
      | inr d ↦ inr (ne-str_eq _ _ d.present, negated-line_flag "enabled" _ d.negated)
    ],
  ),
)

-- What the station saw of a drive whose secure erase it attests.
pub record ShownErased (tools : Tools) (device : String) : Type 0 where
  pub valid : validate_device_path (some device) ≡ true
  pub hdparm : String
  pub found : tools.path_of "hdparm" ≡ some hdparm
  pub named : hdparm ≢ ""
  pub unsecured : Unsecured (tools.run 0 (hdparm ∷ "-I" ∷ device ∷ []))

identify-ok :
    (tools : Tools) (device method : String) (path : Option String)
    → (identify tools device method path).ok ≡ true
    → (hdparm : String) × (path ≡ some hdparm)
      × (hdparm ≢ "")
      × Unsecured (tools.run 0 (hdparm ∷ "-I" ∷ device ∷ []))
unfolding identify
identify-ok tools device method none h = cc h
identify-ok tools device method (some hdparm) h = elim (Bool-cases (str_eq hdparm "")) [
  | inl empty ↦ cc (rw (empty, identify) at h)
  | inr named ↦ (
    hdparm,
    refl,
    str_eq_ne _ _ named,
    (identify_verdict_iff method _).0 (rw (named, identify) at h),
  )
]

-- A secure erase is verified only of a valid device path, on the answer of one run of the hdparm that the
-- station has; this answer is not blank, and either no line of its security section has the word
-- `enabled` without the word `not`, or it has no such section, the command succeeded, and a
-- configuration or geometry section is there.
pub verify_sata_secure_erase-ShownErased :
    (tools : Tools) (device method : String)
    → (verify_sata_secure_erase tools device method).ok ≡ true
    → ShownErased tools device
unfolding verify_sata_secure_erase
verify_sata_secure_erase-ShownErased tools device method h =
    elim (Bool-cases (validate_device_path (some device))) [
      | inl valid ↦
          let (hdparm, found, named, unsecured) =
            identify-ok tools device method (tools.path_of "hdparm") (ground (arith, h)) in
          record {
            valid = valid;
            hdparm = hdparm;
            found = found;
            named = named;
            unsecured = unsecured;
          }
      | inr invalid ↦ absurd (ground (arith, h))
    ]
