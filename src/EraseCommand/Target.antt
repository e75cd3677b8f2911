-- ===== src/EraseCommand/Target.antt =====
-- What a prepared erase command erases.
use Prim.Native.String.{◌++◌}
use mathlib.Core.Path.{subst}
use drive_eraser.Prelude.{
  String, ◌≡◌, refl, ◌⊎◌, inl, inr, true, not, ◌&&◌, Option, none, some, List, [], ◌∷◌, In, here,
  there, arith, str_eq, Bool-cases, member, lower, strip, or_else,
}
use drive_eraser.Device.{Tools, validate_device_path}
use drive_eraser.Verification.Nvme.{namespace_controller}
use drive_eraser.Verification.Dispatch.{is_crypto_or_block, is_secure_erase}
use drive_eraser.EraseCommand.{
  Prepared, ready, refused, with_command, sanitize_command, nvme_erase, security_erase, sanitize,
  by_method, prepare_erase_command,
}

-- The argument of the command that names what is erased: the device, or its controller.
pub record Targets (device : String) (command : List String) : Type 0 where
  pub target : String
  pub named : In target command
  pub addressed :
      (target ≡ device)
      ⊎ (target ≡ "of=" ++ device)
      ⊎ (namespace_controller device ≡ some target) × (validate_device_path (some target) ≡ true)

abbrev pub Safe : String → Prepared → Type 0
Safe device (ready command) = Targets device command
Safe device (refused error) = Unit

pub with_command-Safe :
    (device : String) (path : Option String) (error : String) (build : String → Prepared)
    → ((p : String) → Safe device (build p))
    → Safe device (with_command path error build)
unfolding with_command
with_command-Safe device none error build h = tt
with_command-Safe device (some p) error build h = elim (Bool-cases (str_eq p "")) [
  | inl empty ↦ rw empty tt
  | inr found ↦ rw found (h p)
]

nvme_erase-Safe :
    (path method device : String) (controller : Option String)
    → namespace_controller device ≡ controller
    → Safe device (nvme_erase path method device controller)
unfolding nvme_erase sanitize_command
nvme_erase-Safe path method device none e = record {
  target = device;
  named = there (there here);
  addressed = inl refl;
}
nvme_erase-Safe path method device (some c) e = elim (Bool-cases (validate_device_path (some c))) [
  | inl valid ↦
      rw valid (record { target = c; named = there (there here); addressed = inr (inr (e, valid)) })
  | inr invalid ↦ rw invalid tt
]

sanitize-Safe :
    (tools : Tools) (device iface method : String)
    → Safe device (sanitize tools device iface method)
unfolding sanitize
sanitize-Safe tools device iface method = elim (Bool-cases (str_eq iface "nvme")) [
  | inl nvme ↦ rw nvme (
      with_command-Safe device (tools.path_of "nvme") _ _
        (λ p. nvme_erase-Safe p method device _ refl))
  | inr no_nvme ↦ elim (Bool-cases (str_eq iface "sata")) [
    | inl sata ↦
        rw (no_nvme, sata)
          (with_command-Safe device (tools.path_of "hdparm") _ _ (λ p. record {
            target = device;
            named = there (there (there here));
            addressed = inl refl;
          }))
    | inr no_sata ↦ elim (Bool-cases (str_eq iface "sas")) [
      | inl sas ↦
          rw (no_nvme, no_sata, sas)
            (with_command-Safe device (tools.path_of "sg_sanitize") _ _
              (λ p. record { target = device; named = there (there here); addressed = inl refl }))
      | inr no_sas ↦ rw (no_nvme, no_sata, no_sas) tt
    ]
  ]
]

by_method-Safe :
    (tools : Tools) (password device iface method : String)
    → Safe device (by_method tools password device iface method)
unfolding by_method security_erase
by_method-Safe tools password device iface method = elim (Bool-cases (str_eq method "overwrite")) [
  | inl over ↦ rw over (
      with_command-Safe device (tools.path_of "dd") _ _ (λ p. record {
        target = "of=" ++ device;
        named = there (there here);
        addressed = inr (inl refl);
      }))
  | inr other ↦ elim (Bool-cases (is_secure_erase method)) [
    | inl secure ↦
        rw (other, secure)
          (with_command-Safe device (tools.path_of "hdparm") _ _ (λ p. record {
            target = device;
            named = there (there (there (there (there here))));
            addressed = inl refl;
          }))
    | inr plain ↦ elim (Bool-cases (is_crypto_or_block method)) [
      | inl clean ↦ rw (other, plain, clean) (sanitize-Safe tools device iface method)
      | inr unknown ↦ rw (other, plain, unknown) tt
    ]
  ]
]

pub Safe-Targets :
    (device : String) (p : Prepared) {command : List String}
    → Safe device p
    → p ≡ ready command
    → Targets device command
Safe-Targets device (ready c) {command} s e =
    let same : c ≡ command = ground (arith, e) in subst (Targets device) same s
Safe-Targets device (refused x) s e = cc e

-- A command that is prepared to erase a drive names the device that was asked for (for an overwrite
-- as `of=`), or for an NVMe namespace its controller, and then that path is valid.
pub prepare_erase_command-Targets :
    (tools : Tools) (password device : String) (interface_type method : Option String)
    {command : List String}
    → prepare_erase_command tools password device interface_type method ≡ ready command
    → Targets device command
unfolding prepare_erase_command
prepare_erase_command-Targets tools password device i m h =
    let selected = lower (strip (or_else m "")) in
    let iface = lower (strip (or_else i "")) in
    elim (Bool-cases (not (str_eq iface "") && not (member iface ("sata" ∷ "sas" ∷ "nvme" ∷ [])))) [
      | inl unknown ↦ cc (rw unknown at h)
      | inr known ↦
          Safe-Targets device _ (by_method-Safe tools password device iface selected)
            (rw known at h)
    ]
