-- ===== src/Ofe/License.antt =====
-- include/ofe/license/license_engine.h: the fingerprint of a machine and the check of a token.
pub mod Canonical
mod Tests
use Prim.Native.String.{String, ◌++◌ as ◌<>◌}
use rudra_org.Common.{ℕ, Bool, true, false, Option, none, some, List, [], ◌∷◌, ◌++◌, if◌then◌else◌}
use rudra_org.Common.Text.{Text, numeral}

pub record HardwareFingerprint : Type 0 where
  pub cpu_signature : Text
  pub mac_address : Text
  pub disk_signature : Text
  pub machine_id : Text

unfoldable pub canonical : HardwareFingerprint → Text
canonical f =
    f.cpu_signature
    ++ (b'|' ∷ (f.mac_address ++ (b'|' ∷ (f.disk_signature ++ (b'|' ∷ f.machine_id)))))

-- The machine: the four registers of `__get_cpuid`, if it answers, which paths are there, the
-- entries of a directory in the order of its iterator, and the line that `std::getline` reads from
-- a file, if it opens and is not empty.
pub record Machine : Type 0 where
  pub get_cpuid : Option (ℕ × ℕ × ℕ × ℕ)
  pub exists : String → Bool
  pub directory : String → List String
  pub first_line : String → Option Text

-- The line of a file, if there is one and it is not empty.
abbrev pub not_empty : Option Text → Option Text
not_empty none = none
not_empty (some []) = none
not_empty (some (c ∷ cs)) = some (c ∷ cs)

abbrev pub or_empty : Option Text → Text
or_empty none = []
or_empty (some value) = value

-- The first result of a loop that returns at its first success.
abbrev pub or_else : Option Text → Option Text → Option Text
or_else none further = further
or_else (some value) further = some value

abbrev pub first_of : (String → Option Text) → List String → Option Text
first_of test [] = none
first_of test (path ∷ paths) = or_else (test path) (first_of test paths)

abbrev pub registers : Option (ℕ × ℕ × ℕ × ℕ) → Text
registers none = []
registers (some (eax, ebx, ecx, edx)) =
    numeral 10 10 eax
    ++ (b':' ∷ (numeral 10 10 ebx ++ (b':' ∷ (numeral 10 10 ecx ++ (b':' ∷ numeral 10 10 edx)))))

unfoldable pub cpu_signature : Machine → Text
cpu_signature machine = registers machine.get_cpuid

unfoldable pub mac_address : Machine → Text
mac_address machine =
    let net_dir : String = "/sys/class/net" in
    if machine.exists net_dir
    then or_empty (
        first_of (λ entry. not_empty (machine.first_line (entry <> "/address")))
          (machine.directory net_dir))
    else []

unfoldable pub disk_signature : Machine → Text
disk_signature machine =
    let block_dir : String = "/sys/block" in
    if machine.exists block_dir
    then or_empty (
        first_of
          (λ entry.
            or_else (not_empty (machine.first_line (entry <> "/device/serial")))
              (not_empty (machine.first_line (entry <> "/device/wwid"))))
          (machine.directory block_dir))
    else []

unfoldable pub machine_id : Machine → Text
machine_id machine = or_empty (
    first_of (λ candidate. not_empty (machine.first_line candidate))
      ("/etc/machine-id" ∷ "/var/lib/dbus/machine-id" ∷ []))

unfoldable pub collect_fingerprint : Machine → HardwareFingerprint
collect_fingerprint machine = record {
  cpu_signature = cpu_signature machine;
  mac_address = mac_address machine;
  disk_signature = disk_signature machine;
  machine_id = machine_id machine;
}

-- `ILicenseVerifier::verify_rsa2048_token`
abbrev pub Verifier : Type 0
Verifier = (token public_key_pem : Text) → HardwareFingerprint → Bool

unfoldable pub verify_token : Option Verifier → Machine → (token public_key_pem : Text) → Bool
verify_token none machine token public_key_pem = false
verify_token (some verify) machine token public_key_pem =
    verify token public_key_pem (collect_fingerprint machine)
