-- ===== src/Ofe/License/Tests.antt =====
-- Fingerprints of small machines, and the theorem on them.
use text.Mathlib.Text as Text
use rudra_org.Common.{◌≡◌, refl, true, false, none, some, [], ◌∷◌, arith, if◌then◌else◌}
use rudra_org.Common.Text.{numeral}
use rudra_org.Ofe.License.{
  canonical, Machine, cpu_signature, mac_address, disk_signature, machine_id, collect_fingerprint,
  Verifier, verify_token,
}
use rudra_org.Ofe.License.Canonical.{collect_fingerprint-canonical}

-- A machine with a loopback without an address, a network card, and a disk with a world-wide name.
abbrev machine : Machine
machine = record {
  get_cpuid = some (22, 1970169159, 0, 7);
  exists = λ path. true;
  directory = λ path.
      if Text.◌==◌ path "/sys/block"
      then "/sys/block/sda" ∷ []
      else "/sys/class/net/lo" ∷ "/sys/class/net/eth0" ∷ [];
  first_line = λ path.
      if Text.◌==◌ path "/sys/class/net/eth0/address"
      then some (b'0' ∷ b'2' ∷ [])
      else if Text.◌==◌ path "/sys/block/sda/device/serial"
      then some []
      else if Text.◌==◌ path "/sys/block/sda/device/wwid"
      then some (b'w' ∷ [])
      else if Text.◌==◌ path "/var/lib/dbus/machine-id"
      then some (b'i' ∷ b'd' ∷ [])
      else none;
}

registers_printed :
    cpu_signature (record machine { get_cpuid = some (22, 0, 105, 7) })
    ≡ b'2' ∷ b'2' ∷ b':' ∷ b'0' ∷ b':' ∷ b'1' ∷ b'0' ∷ b'5' ∷ b':' ∷ b'7' ∷ []
unfolding cpu_signature numeral
registers_printed = refl

-- The empty serial falls back to the world-wide name, and the second file has the machine's id.
collected : collect_fingerprint (record machine { get_cpuid = none }) ≡ record {
  cpu_signature = [];
  mac_address = b'0' ∷ b'2' ∷ [];
  disk_signature = b'w' ∷ [];
  machine_id = b'i' ∷ b'd' ∷ [];
}
unfolding collect_fingerprint cpu_signature mac_address disk_signature machine_id
collected = refl

-- With a separator in a signature two fingerprints can have one canonical form.
collision :
    canonical
      (record { cpu_signature = []; mac_address = b'|' ∷ []; disk_signature = []; machine_id = [] })
    ≡ canonical (record {
      cpu_signature = [];
      mac_address = [];
      disk_signature = b'|' ∷ [];
      machine_id = [];
    })
unfolding canonical
collision = refl

abbrev accept_all : Verifier
accept_all token public_key_pem fingerprint = true

checked : verify_token (some accept_all) machine [] [] ≡ true
unfolding verify_token
checked = refl

unchecked : verify_token none machine [] [] ≡ false
unfolding verify_token
unchecked = refl

-- The same machine without its loopback.
abbrev other_machine : Machine
other_machine = record machine {
  directory = λ path.
      if Text.◌==◌ path "/sys/block" then "/sys/block/sda" ∷ [] else "/sys/class/net/eth0" ∷ [];
}

collect_fingerprint-canonical_example :
    collect_fingerprint machine ≡ collect_fingerprint other_machine
unfolding canonical collect_fingerprint cpu_signature mac_address disk_signature machine_id
collect_fingerprint-canonical_example =
    collect_fingerprint-canonical machine other_machine (ground arith) (ground arith) (ground arith)
      (ground arith) refl
