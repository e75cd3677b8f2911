-- ===== src/JobValidation/Sound.antt =====
-- What an accepted erase request guarantees (backend/job_validation.py, `validate_single_bay`).
use mathlib.Core.Path.{subst}
use drive_eraser.Prelude.{
  String, ◌≡◌, ◌≢◌, true, false, Option, none, some, List, [], ◌∷◌, arith, eq_iff, str_eq, member,
  get_or, basename, In, here, there, All, Bool-cases, inl, inr,
}
use drive_eraser.Config.{Drive, Policy}
use drive_eraser.JobValidation.{
  accepted, Host, Request, Validated, at_bay, find_drive, first_supported, first_of_list,
  fallback_method, or_fallback, build_recommended_method, is_placeholder, os_path, os_dev_node,
  same_node, is_os_device, names_os_path, path_checks, by_path_names, select_drive, audit_check,
  resolve_device, override_of, checked_override, choose_method, require_method, validate_single_bay,
}

pub find_drive-In :
    (bay : String) (ds : List Drive) {d : Drive}
    → find_drive bay ds ≡ some d
    → In d ds × (at_bay bay d ≡ true)
unfolding find_drive
find_drive-In bay [] h = cc
find_drive-In bay (x ∷ ds) {d} h = elim (Bool-cases (at_bay bay x)) [
  | inl hit ↦
      let e : x ≡ d = ground arith in
      (subst (λ y. In y (x ∷ ds)) e here, subst (λ y. at_bay bay y ≡ true) e hit)
  | inr miss ↦ let (rest, at) = find_drive-In bay ds (rw miss at h) in (there rest, at)
]

pub member-In : (s : String) (ts : List String) → member s ts ≡ true → In s ts
unfolding member
member-In s [] h = cc
member-In s (t ∷ ts) h = elim (Bool-cases (str_eq s t)) [
  | inl same ↦ rw ((eq_iff s t).0 same) here
  | inr other ↦ there (member-In s ts (ground arith))
]

first_supported-In :
    (ms supported : List String) {m : String}
    → first_supported ms supported ≡ some m
    → In m supported
unfolding first_supported
first_supported-In [] supported h = cc
first_supported-In (x ∷ ms) supported {m} h = elim (Bool-cases (member x supported)) [
  | inl found ↦
      let e : x ≡ m = ground arith in subst (λ y. In y supported) e (member-In x supported found)
  | inr absent ↦ first_supported-In ms supported (rw absent at h)
]

fallback_method-In :
    (supported : List String) {m : String} → fallback_method supported ≡ some m → In m supported
unfolding fallback_method first_of_list member
fallback_method-In [] h = cc
fallback_method-In (x ∷ xs) {m} h = elim (Bool-cases (member "overwrite" (x ∷ xs))) [
  | inl found ↦
      let e : ◌≡◌ {A = String} "overwrite" m = ground arith in
      subst (λ y. In y (x ∷ xs)) e (member-In "overwrite" (x ∷ xs) found)
  | inr absent ↦ let e : x ≡ m = ground arith in subst (λ y. In y (x ∷ xs)) e here
]

or_fallback-In :
    (o : Option String) (supported : List String) {m : String}
    → ((k : String) → o ≡ some k → In k supported)
    → or_fallback o supported ≡ some m
    → In m supported
unfolding or_fallback
or_fallback-In none supported known h = fallback_method-In supported h
or_fallback-In (some k) supported {m} known h = known m h

-- The recommended method is one that the drive supports.
pub build_recommended_method-In :
    (drive : Drive) (policy : Policy) {m : String}
    → build_recommended_method drive policy ≡ some m
    → In m drive.supported_methods
unfolding build_recommended_method
build_recommended_method-In drive policy h =
    or_fallback-In _ drive.supported_methods (λ k. first_supported-In _ drive.supported_methods) h

-- A by-path name is neither the host disk's by-path name nor one with the same last component.
abbrev pub AvoidsOsPath : Option String → Option String → Type 0
AvoidsOsPath path os =
    (p s : String)
    → path ≡ some p
    → os ≡ some s
    → p ≢ ""
    → s ≢ ""
    → (p ≢ s) × (basename p ≢ basename s)

names_os_path-Avoids :
    (path os : Option String) → names_os_path path os ≡ false → AvoidsOsPath path os
unfolding names_os_path
names_os_path-Avoids path os h p s ep es np ns =
    ground (arith, eq_iff p "", eq_iff s "", eq_iff p s, eq_iff (basename p) (basename s))

path_checks-Avoids :
    (os : Option String) (paths : List (Option String))
    → path_checks os paths ≡ accepted tt
    → All (λ path. AvoidsOsPath path os) paths
unfolding path_checks
path_checks-Avoids os [] h = tt
path_checks-Avoids os (p ∷ ps) h = elim (Bool-cases (names_os_path p os)) [
  | inl bad ↦ let e = rw bad at h in cc e
  | inr good ↦ (names_os_path-Avoids p os good, path_checks-Avoids os ps (rw good at h))
]

is_os_device-false :
    (host : Host) (device dev : String)
    → is_os_device host device ≡ false
    → os_dev_node host ≡ some dev
    → dev ≢ ""
    → host.realpath device ≢ host.realpath dev
unfolding is_os_device same_node
is_os_device-false host device dev h e n =
    ground (arith, eq_iff dev "", eq_iff (host.realpath device) (host.realpath dev))

-- What has to hold of an erase that may be queued.
pub record IsCleared (host : Host) (r : Request) (drives : List Drive) (p : Policy) (v : Validated)
    : Type 0 where
  pub listed : In v.drive drives
  pub in_bay : at_bay r.bay v.drive ≡ true
  pub unlocked : v.drive.locked ≡ false
  pub erasable : (v.drive.role ≢ some "os") × (v.drive.role ≢ some "reserved")
  pub present : v.drive.present ≡ true
  pub primary_path : v.drive.sas_secondary_path ≡ false
  pub resolved : (v.drive.device ≡ some v.device) × (v.device ≢ "")
  pub not_os_device :
      (dev : String)
      → os_dev_node host ≡ some dev
      → dev ≢ ""
      → host.realpath v.device ≢ host.realpath dev
  pub not_os_path : All (λ path. AvoidsOsPath path (os_path host)) (by_path_names v.drive)
  pub supported : In v.method v.drive.supported_methods
  pub audited :
      p.strict_audit_mode ≡ some true
      → (is_placeholder "System Operator" r.technician ≡ false)
        × (is_placeholder "INTERNAL" r.ticket_number ≡ false)
  pub by_policy :
      p.allow_method_override ≡ some false
      → (m : String) → build_recommended_method v.drive p ≡ some m
      → m ≢ ""
      → v.method ≡ m

require_method-eq :
    (bay : String) (o : Option String) {m : String}
    → require_method bay o ≡ accepted m
    → (o ≡ some m) × (m ≢ "")
unfolding require_method
require_method-eq bay none h = cc
require_method-eq bay (some k) {m} h = elim (Bool-cases (str_eq k "")) [
  | inl empty ↦ let e = rw empty at h in cc e
  | inr full ↦ ground (arith, eq_iff k "", eq_iff m "")
]

choose_method-In :
    (bay : String) (p : Policy) (d : Drive) (chosen : Option String) {m : String}
    → choose_method bay p d (build_recommended_method d p) chosen ≡ accepted (some m)
    → In m d.supported_methods
unfolding choose_method checked_override
choose_method-In bay p d none h = build_recommended_method-In d p (ground arith)
choose_method-In bay p d (some c) {m} h = elim (Bool-cases (str_eq c "")) [
  | inl empty ↦ build_recommended_method-In d p (ground arith)
  | inr full ↦
      let e : c ≡ m = ground arith in
      subst (λ y. In y d.supported_methods) e (member-In c d.supported_methods (ground arith))
]

choose_method-by_policy :
    (bay : String) (p : Policy) (d : Drive) (recommended chosen : Option String) {m : String}
    → choose_method bay p d recommended chosen ≡ accepted (some m)
    → p.allow_method_override ≡ some false
    → (k : String) → recommended ≡ some k
    → k ≢ ""
    → m ≡ k
unfolding choose_method checked_override
choose_method-by_policy bay p d recommended none h off k e n = ground arith
choose_method-by_policy bay p d recommended (some c) {m} h off k e n =
    ground (arith, eq_iff k "", eq_iff c k)

-- The answer of every check on the way to an accepted request.
record Passed (host : Host) (r : Request) (drives : List Drive) (p : Policy) (v : Validated)
    : Type 0 where
  found : find_drive r.bay drives ≡ some v.drive
  unlocked : v.drive.locked ≡ false
  role : member (get_or v.drive.role "") ("os" ∷ "reserved" ∷ []) ≡ false
  present : v.drive.present ≡ true
  primary_path : v.drive.sas_secondary_path ≡ false
  audit : audit_check (get_or p.strict_audit_mode false) r.technician r.ticket_number ≡ accepted tt
  device : resolve_device r.bay v.drive.device ≡ accepted v.device
  not_os : is_os_device host v.device ≡ false
  paths : path_checks (os_path host) (by_path_names v.drive) ≡ accepted tt
  method :
      choose_method r.bay p v.drive
        (build_recommended_method v.drive p)
        (override_of r.method_override)
      ≡ accepted (some v.method)
  named : v.method ≢ ""

validate_single_bay-Passed :
    (host : Host) (r : Request) (drives : List Drive) (p : Policy) {v : Validated}
    → validate_single_bay host r drives p ≡ accepted v
    → Passed host r drives p v
unfolding validate_single_bay select_drive require_method
validate_single_bay-Passed host r drives p {v} h = ground (arith, eq_iff v.method "")

role-ne :
    (role : Option String)
    → member (get_or role "") ("os" ∷ "reserved" ∷ []) ≡ false
    → (role ≢ some "os") × (role ≢ some "reserved")
unfolding member
role-ne none h = (λ e. cc, λ e. cc)
role-ne (some k) h = (λ e. ground (arith, eq_iff k "os"), λ e. ground (arith, eq_iff k "reserved"))

resolve_device-eq :
    (bay : String) (o : Option String) {d : String}
    → resolve_device bay o ≡ accepted d
    → (o ≡ some d) × (d ≢ "")
unfolding resolve_device
resolve_device-eq bay none h = cc
resolve_device-eq bay (some k) {d} h = elim (Bool-cases (str_eq k "")) [
  | inl empty ↦ let e = rw empty at h in cc e
  | inr full ↦ ground (arith, eq_iff k "", eq_iff d "")
]

-- A request that `validate_single_bay` accepts is cleared: the drive is one of the listed drives and
-- sits in the requested bay; it is present, not locked, not in an OS or reserved role and not a
-- secondary SAS path; its device is known and does not resolve to the host's disk, and none of its
-- by-path names is the host disk's; the method is one that the drive supports; in strict audit mode
-- technician and ticket are given; and where the policy forbids overrides the method is the
-- recommended one, if there is one.
pub validate_single_bay-IsCleared :
    (host : Host) (r : Request) (drives : List Drive) (p : Policy) {v : Validated}
    → validate_single_bay host r drives p ≡ accepted v
    → IsCleared host r drives p v
validate_single_bay-IsCleared host r drives p {v} h =
    let s = validate_single_bay-Passed host r drives p h in
    let (listed, in_bay) = find_drive-In r.bay drives s.found in
    record {
      listed = listed;
      in_bay = in_bay;
      unlocked = s.unlocked;
      erasable = role-ne v.drive.role s.role;
      present = s.present;
      primary_path = s.primary_path;
      resolved = resolve_device-eq r.bay v.drive.device s.device;
      not_os_device = λ dev. is_os_device-false host v.device dev s.not_os;
      not_os_path = path_checks-Avoids (os_path host) (by_path_names v.drive) s.paths;
      supported = choose_method-In r.bay p v.drive (override_of r.method_override) s.method;
      audited = λ strict. unfold audit_check in ground (arith, s.audit);
      by_policy =
          choose_method-by_policy r.bay p v.drive _ (override_of r.method_override) s.method;
    }
