-- ===== src/Server/Ttl/Laws.antt =====
-- The validation of the lifetimes, as an administrator sees it.
use ocp_spire_operator.Prelude.{
  ℕ, ◌*◌, ◌≤◌, ◌≡◌, ◌↔◌, inl, inr, refl, true, String, [], none, arith, Bool-cases,
}
use ocp_spire_operator.Prelude.Int.{ℤ, pos, negsuc, pos_part, ◌≤ℤ◌, ◌<ℤ◌}
use ocp_spire_operator.Server.Ttl.{
  activation_threshold_cap, max_svid_ttl_for_ca_ttl, has_compatible_ttl, Lifetimes, ttl_warnings,
  ttl_checks, validate_ttl_durations_with_warnings,
}

-- For a positive lifetime, an SVID's lifetime is compatible with that of the CA exactly when it is at
-- most seven days and six times it is at most the CA's: the two bounds that the code computes by a
-- division and by a product agree.
pub has_compatible_ttl_iff :
    (ca ttl : ℕ)
    → (has_compatible_ttl (pos ca) (pos ttl) ≡ true)
      ↔ ((ttl * 6 ≤ ca) × (pos ttl ≤ℤ activation_threshold_cap))
unfolding has_compatible_ttl max_svid_ttl_for_ca_ttl
has_compatible_ttl_iff ca ttl = ground arith

-- The lifetimes are accepted exactly when both SVID lifetimes are positive and at most the CA's; an
-- SVID lifetime that equals the CA's is accepted.
pub validate_ttl_accepts_iff :
    (print : ℤ → String) (config : Lifetimes)
    → ((validate_ttl_durations_with_warnings print config).error ≡ none) ↔ (
        (pos 0 <ℤ config.default_x509_validity)
        × (pos 0 <ℤ config.default_jwt_validity)
        × (config.default_x509_validity ≤ℤ config.ca_validity)
        × (config.default_jwt_validity ≤ℤ config.ca_validity))
unfolding validate_ttl_durations_with_warnings
validate_ttl_accepts_iff print config = ground arith

-- A positive SVID lifetime that a scheduled rotation of the CA never cuts short.
abbrev IsGuaranteed : ℤ → ℤ → Type 0
IsGuaranteed ca ttl = (pos_part ttl * 6 ≤ pos_part ca) × (ttl ≤ℤ activation_threshold_cap)

fits_iff :
    (ca ttl : ℤ)
    → pos 0 <ℤ ca
    → pos 0 <ℤ ttl
    → (has_compatible_ttl ca ttl ≡ true) ↔ IsGuaranteed ca ttl
fits_iff (pos ca) (pos ttl) c t = has_compatible_ttl_iff ca ttl
fits_iff (pos ca) (negsuc n) c t = absurd (omega arith)
fits_iff (negsuc n) ttl c t = absurd (omega arith)

pub warnings-eq-ttl_warnings :
    (print : ℤ → String) (config : Lifetimes)
    → (validate_ttl_durations_with_warnings print config).error ≡ none
    → (validate_ttl_durations_with_warnings print config).warnings
      ≡ ttl_warnings print config.ca_validity (ttl_checks print config)
unfolding validate_ttl_durations_with_warnings
warnings-eq-ttl_warnings print config h = ground arith

-- Accepted lifetimes give no warning exactly when both SVID lifetimes are guaranteed: six times the
-- lifetime is at most the CA's, and it is at most seven days.
validate_ttl_warnings_iff :
    (print : ℤ → String) (config : Lifetimes)
    → (validate_ttl_durations_with_warnings print config).error ≡ none
    → ((validate_ttl_durations_with_warnings print config).warnings ≡ []) ↔ (
        IsGuaranteed config.ca_validity config.default_x509_validity
        × IsGuaranteed config.ca_validity config.default_jwt_validity)
unfolding ttl_warnings
validate_ttl_warnings_iff print config h =
    let (px, pj, lx, lj) = (validate_ttl_accepts_iff print config).0 h in
    let x = fits_iff config.ca_validity config.default_x509_validity (omega arith) px in
    let j = fits_iff config.ca_validity config.default_jwt_validity (omega arith) pj in
    rw (warnings-eq-ttl_warnings print config h)
      elim (Bool-cases (has_compatible_ttl config.ca_validity config.default_x509_validity)) [
        | inl e ↦
            elim (Bool-cases (has_compatible_ttl config.ca_validity config.default_jwt_validity)) [
              | inl f ↦ rw (e, f) (λ _. (x.0 e, j.0 f), λ _. refl)
              | inr f ↦ rw (e, f) (λ k. ground (arith, k), λ g. ground (arith, f, j.1 g.1))
            ]
        | inr e ↦ rw (e) (λ k. ground (arith, k), λ g. ground (arith, e, x.1 g.0))
      ]
