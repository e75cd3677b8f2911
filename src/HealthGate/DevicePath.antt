-- ===== src/HealthGate/DevicePath.antt =====
-- `validate_device_path` of backend/smart_utils.py: a path or a bare name of a SATA, SAS or NVMe device.
-- Each of its two regular expressions matches in one way only.
use Prim.Native.Char.{code}
use Prim.Native.String.{◌++◌}
use drive_eraser.Prelude.{
  ℕ, String, Bool, true, false, not, ◌&&◌, ◌||◌, Option, none, some, List, [], ◌∷◌, ltb, leb, ◌==◌,
  codes, str_eq, is_prefix, drop_chars, if◌then◌else◌,
}
use drive_eraser.Device.{validate_device_path}
use drive_eraser.Verification.Nvme.Field.{is_digit}

-- `s.lstrip("/")`
unfoldable pub lstrip_slashes : String → String
lstrip_slashes String.[] = String.[]
lstrip_slashes (String.◌∷◌ c s) = if code c == b'/' then lstrip_slashes s else String.◌∷◌ c s

-- `s.replace("dev/", "", 1)`
unfoldable pub remove_dev : String → String
remove_dev String.[] = String.[]
remove_dev (String.◌∷◌ c s) =
    if is_prefix "dev/" (String.◌∷◌ c s)
    then drop_chars 4 (String.◌∷◌ c s)
    else String.◌∷◌ c (remove_dev s)

unfoldable pub all_digits : List ℕ → Bool
all_digits [] = true
all_digits (c ∷ cs) = is_digit c && all_digits cs

unfoldable pub letters_digits : List ℕ → Bool
letters_digits [] = true
letters_digits (c ∷ cs) =
    let rest = letters_digits cs in if leb b'a' c && leb c b'z' then rest else all_digits (c ∷ cs)

-- `^sd[a-z]+[0-9]*\Z`
unfoldable pub is_sd_name : List ℕ → Bool
is_sd_name (s ∷ d ∷ c ∷ cs) =
    s == b's' && d == b'd' && leb b'a' c && leb c b'z' && letters_digits cs
is_sd_name cs = false

-- One character behind `nvme`: the numbers that were begun, and whether a digit must come.
unfoldable pub nvme_step : (numbers : ℕ) → (wanted : Bool) → ℕ → Option (ℕ × Bool)
nvme_step numbers wanted c =
    if is_digit c
    then some (numbers, false)
    else if wanted
    then none
    else if c == b'n' && numbers == 0
    then some (1, true)
    else if c == b'p' && ltb numbers 2
    then some (2, true)
    else none

unfoldable pub nvme_rest : (numbers : ℕ) → (wanted : Bool) → List ℕ → Bool
nvme_rest numbers wanted [] = not wanted
nvme_rest numbers wanted (c ∷ cs) = elim (nvme_step numbers wanted c) [
  | none ↦ false
  | some (n, w) ↦ nvme_rest n w cs
]

-- `^nvme[0-9]+(n[0-9]+)?(p[0-9]+)?\Z`
unfoldable pub is_nvme_name : List ℕ → Bool
is_nvme_name (n ∷ v ∷ m ∷ e ∷ cs) =
    n == b'n' && v == b'v' && m == b'm' && e == b'e' && nvme_rest 0 true cs
is_nvme_name cs = false

unfoldable pub full_path : String → String
full_path device = if is_prefix "/dev/" device then device else "/dev/" ++ device

unfoldable pub device_name : String → String
device_name device = if is_prefix "/" device then remove_dev (lstrip_slashes device) else device

unfoldable pub validate_smart_path : String → Bool
validate_smart_path device =
    let name = codes (device_name device) in
    if str_eq device ""
    then false
    else if not (validate_device_path (some (full_path device)))
    then false
    else is_sd_name name || is_nvme_name name
