-- ===== src/EraseCommand.antt =====
-- `prepare_erase_command` of backend/erase_commands.py: the command that erases a drive. The SATA
-- password of the policy is an argument.
pub mod Target
use drive_eraser.Prelude.{
  String, not, ◌&&◌, ◌||◌, Option, none, some, List, [], ◌∷◌, str_eq, lower, strip, member, or_else,
  if◌then◌else◌,
}
use Prim.Native.String.{◌++◌}
use drive_eraser.Device.{Tools, validate_device_path}
use drive_eraser.Verification.Nvme.{namespace_controller}
use drive_eraser.Verification.Dispatch.{is_crypto_or_block, is_secure_erase}

-- `{"ok": True, "command": …}` and `{"ok": False, "error": …}`
pub data Prepared : Type 0 where
  ready : List String → Prepared
  refused : (error : String) → Prepared

-- `if not command: return …`
unfoldable pub with_command : Option String → String → (String → Prepared) → Prepared
with_command none error build = refused error
with_command (some path) error build = if str_eq path "" then refused error else build path

-- `--sanact` takes 4 for a crypto erase and 2 for a block erase
unfoldable pub sanitize_command : String → String → String → Prepared
sanitize_command path method device =
    ready
      (path ∷ "sanitize" ∷ device ∷ "--sanact" ∷ (if str_eq method "crypto" then "4" else "2") ∷ [])

-- The controller of a namespace path takes the place of the device.
unfoldable pub nvme_erase : String → String → String → Option String → Prepared
nvme_erase path method device none = sanitize_command path method device
nvme_erase path method device (some controller) =
    if validate_device_path (some controller)
    then sanitize_command path method controller
    else refused "invalid_extracted_device_path"

unfoldable pub erase_flag : String → String
erase_flag method =
    if str_eq method "enhanced_secure_erase"
    then "--security-erase-enhanced"
    else "--security-erase"

unfoldable pub security_erase : String → String → String → String → Prepared
security_erase password method device path =
    ready (path ∷ "--user-master" ∷ "u" ∷ erase_flag method ∷ password ∷ device ∷ [])

-- The branch of "block" and "crypto"; the texts are normalised already.
unfoldable pub sanitize : Tools → String → String → String → Prepared
sanitize tools device iface method =
    if str_eq iface "nvme"
    then with_command (tools.path_of "nvme") "nvme_not_available"
        (λ path. nvme_erase path method device (namespace_controller device))
    else if str_eq iface "sata"
    then with_command (tools.path_of "hdparm") "hdparm_not_available" (λ path. ready (
        path
        ∷ "--yes-i-know-what-i-am-doing"
        ∷ (if str_eq method "crypto"
            then "--sanitize-crypto-scramble"
            else "--sanitize-block-erase")
        ∷ device
        ∷ []))
    else if str_eq iface "sas"
    then with_command (tools.path_of "sg_sanitize") "sg_sanitize_not_available"
        (λ path. ready (path ∷ "--block" ∷ device ∷ []))
    else refused ("unsupported_method_or_interface:" ++ method ++ ":" ++ iface)

unfoldable pub by_method : Tools → String → String → String → String → Prepared
by_method tools password device iface method =
    if str_eq method "overwrite"
    then with_command (tools.path_of "dd") "dd_not_available" (λ path. ready (
        path
        ∷ "if=/dev/zero"
        ∷ ("of=" ++ device)
        ∷ "bs=16M"
        ∷ "status=none"
        ∷ "conv=fdatasync"
        ∷ []))
    else if is_secure_erase method
    then with_command (tools.path_of "hdparm") "hdparm_not_available"
        (security_erase password method device)
    else if is_crypto_or_block method
    then sanitize tools device iface method
    else refused ("unsupported_method_or_interface:" ++ method ++ ":" ++ iface)

unfoldable pub prepare_erase_command :
    Tools → String → String → Option String → Option String → Prepared
prepare_erase_command tools password device interface_type method =
    let selected = lower (strip (or_else method "")) in
    let iface = lower (strip (or_else interface_type "")) in
    if not (str_eq iface "") && not (member iface ("sata" ∷ "sas" ∷ "nvme" ∷ []))
    then refused ("unsupported_interface:" ++ iface)
    else by_method tools password device iface selected
