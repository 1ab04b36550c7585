-- ===== src/Ofe/License/Canonical.antt =====
-- When the canonical form of include/ofe/license/license_engine.h tells two machines apart.
use rudra_org.Common.{
  ℕ, zero, suc, ◌/◌, ◌≡◌, ◌≢◌, refl, Option, none, some, [], ◌∷◌, ◌++◌, arith, ltb, All, All-append,
  Bool-cases, inl, inr,
}
use rudra_org.Common.Text.{Text, numeral}
use rudra_org.Ofe.License.{
  HardwareFingerprint, canonical, Machine, registers, cpu_signature, mac_address, disk_signature,
  collect_fingerprint,
}

-- The text has no separator.
abbrev pub IsPlain : Text → Type 0
IsPlain = All (λ c. c ≢ b'|')

split_lem :
    (xs xs' ys ys' : Text)
    → IsPlain xs
    → IsPlain xs'
    → xs ++ (b'|' ∷ ys) ≡ xs' ++ (b'|' ∷ ys')
    → (xs ≡ xs') × (ys ≡ ys')
split_lem [] [] ys ys' p q e = (refl, cc)
split_lem [] (c ∷ xs') ys ys' p q e = absurd (q.0 (cc e))
split_lem (c ∷ xs) [] ys ys' p q e = absurd (p.0 (cc e))
split_lem (c ∷ xs) (c' ∷ xs') ys ys' p q e =
    let (same, rest) = split_lem xs xs' ys ys' p.1 q.1 (cc e) in (cc (same, e), rest)

numeral-IsPlain : (digits n : ℕ) → IsPlain (numeral 10 digits n)
unfolding numeral
numeral-IsPlain zero n = tt
numeral-IsPlain (suc digits) n = elim (Bool-cases (ltb n 10)) [
  | inl one ↦ rw one (ground arith, tt)
  | inr more ↦ rw more (
      All-append _ (numeral 10 digits (n / 10)) _ (numeral-IsPlain digits (n / 10))
        (ground arith, tt))
]

registers-IsPlain : (answer : Option (ℕ × ℕ × ℕ × ℕ)) → IsPlain (registers answer)
registers-IsPlain none = tt
registers-IsPlain (some (eax, ebx, ecx, edx)) =
    number eax _ (number ebx _ (number ecx _ (numeral-IsPlain 10 edx)))
  where
    number : (n : ℕ) (rest : Text) → IsPlain rest → IsPlain (numeral 10 10 n ++ (b':' ∷ rest))
    number n rest p = All-append _ (numeral 10 10 n) _ (numeral-IsPlain 10 n) (ground arith, p)

-- Two fingerprints of one canonical form are the same, where only the machine ids may have a
-- separator.
canonical-injective :
    (f g : HardwareFingerprint)
    → IsPlain f.cpu_signature × IsPlain f.mac_address × IsPlain f.disk_signature
    → IsPlain g.cpu_signature × IsPlain g.mac_address × IsPlain g.disk_signature
    → canonical f ≡ canonical g
    → f ≡ g
unfolding canonical
canonical-injective f g p q e =
    let (cpu, e₁) = split_lem f.cpu_signature g.cpu_signature _ _ p.0 q.0 e in
    let (mac, e₂) = split_lem f.mac_address g.mac_address _ _ p.1 q.1 e₁ in
    let (disk, id) = split_lem f.disk_signature g.disk_signature _ _ p.2 q.2 e₂ in
    ground (arith, cpu, mac, disk, id)

-- Where neither the network address nor the disk signature of two machines has a separator, their
-- fingerprints have one canonical form only if they are the same: the registers of the processor
-- never have one, and the machine id stands last.
pub collect_fingerprint-canonical :
    (machine machine' : Machine)
    → IsPlain (mac_address machine)
    → IsPlain (disk_signature machine)
    → IsPlain (mac_address machine')
    → IsPlain (disk_signature machine')
    → canonical (collect_fingerprint machine) ≡ canonical (collect_fingerprint machine')
    → collect_fingerprint machine ≡ collect_fingerprint machine'
unfolding collect_fingerprint cpu_signature
collect_fingerprint-canonical machine machine' mac disk mac' disk' e =
    canonical-injective _ _ (registers-IsPlain machine.get_cpuid, mac, disk)
      (registers-IsPlain machine'.get_cpuid, mac', disk') e
