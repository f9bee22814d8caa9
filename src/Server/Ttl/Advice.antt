-- ===== src/Server/Ttl/Advice.antt =====
-- The warnings about the lifetimes, in exact numbers.
use ocp_spire_operator.Prelude.{
  ℕ, ◌*◌, ◌/◌, ◌≤◌, ◌<◌, leb, ltb, ◌&&◌, Bool, false, not, ◌++◌ as ◌followed_by◌, ◌∷◌, List,
  if◌then◌else◌, ◌≡◌, inl, inr, refl, ap, ◌∙◌, true, String, [], none, arith, Bool-cases,
}
use ocp_spire_operator.Prelude.Int.{ltb_ℤ, ℤ, pos, negsuc, pos_part, ◌<ℤ◌}
use ocp_spire_operator.Server.Ttl.{
  max_svid_ttl, max_svid_ttl_for_ca_ttl, min_ca_ttl_for_svid_ttl, has_compatible_ttl, ttl_message,
  Lifetimes, ttl_warnings, validate_ttl_durations_with_warnings,
}
use mathlib.Core.List.{append-nil}
use Prim.Native.String.{◌++◌}
use ocp_spire_operator.Server.Ttl.Laws.{
  has_compatible_ttl_iff, validate_ttl_accepts_iff, warnings-eq-ttl_warnings,
}

-- Seven days, in nanoseconds.
abbrev pub week : ℕ
week = 604_800_000_000_000

-- What the administrator is told about a lifetime, in exact numbers: nothing where six times the lifetime
-- is at most the CA's and it is at most a week; and else by how much it has to be lowered, or the CA's
-- raised.
module _ (print : ℤ → String) where
  unfoldable pub advice : String → ℕ → ℕ → List String
  advice name ttl ca =
      if leb (ttl * 6) ca && leb ttl week
      then []
      else if ltb ttl week
      then (name
          ++ (" is too high for the configured ca_ttl value. SVIDs with shorter lifetimes may be issued. Please set "
              ++ (name
                  ++ (" to "
                      ++ (print (pos (ca / 6))
                          ++ (" or less, or the ca_ttl to "
                              ++ (print (pos (ttl * 6))
                                  ++ (" or more, to guarantee the full "
                                      ++ (name
                                          ++ " lifetime when CA rotations are scheduled.")))))))))
        ∷ []
      else if ltb ca (6 * week)
      then (name
          ++ (" is too high and the ca_ttl is too low. SVIDs with shorter lifetimes may be issued. Please set "
              ++ (name
                  ++ (" to "
                      ++ (print (pos week)
                          ++ (" or less, and the ca_ttl to "
                              ++ (print (pos (6 * week))
                                  ++ (" or more, to guarantee the full "
                                      ++ (name
                                          ++ " lifetime when CA rotations are scheduled.")))))))))
        ∷ []
      else (name
          ++ (" is too high. SVIDs with shorter lifetimes may be issued. Please set "
              ++ (name
                  ++ (" to "
                      ++ (print (pos week)
                          ++ (" or less to guarantee the full "
                              ++ (name ++ " lifetime when CA rotations are scheduled.")))))))
        ∷ []

min_ca_ttl_for_svid_ttl_lem :
    (ttl : ℕ) → ttl ≤ week → min_ca_ttl_for_svid_ttl (pos ttl) ≡ pos (ttl * 6)
unfolding min_ca_ttl_for_svid_ttl
min_ca_ttl_for_svid_ttl_lem ttl h = ground arith

max_svid_ttl_short : (ca : ℕ) → ca < 6 * week → max_svid_ttl_for_ca_ttl (pos ca) ≡ pos (ca / 6)
unfolding max_svid_ttl_for_ca_ttl
max_svid_ttl_short ca h = ground arith

max_svid_ttl_long : (ca : ℕ) → 6 * week ≤ ca → max_svid_ttl_for_ca_ttl (pos ca) ≡ pos week
unfolding max_svid_ttl_for_ca_ttl
max_svid_ttl_long ca h = ground arith

module _ (print : ℤ → String) where
  -- One lifetime, before the others.
  abbrev add_advice : Bool → String → ℕ → ℕ → List String → List String
  add_advice fits name ttl ca rest =
      if not fits then ttl_message print name (pos ttl) (pos ca) ∷ rest else rest

  ttl_message-eq-advice :
      (name : String) (ca ttl : ℕ) (rest : List String)
      → add_advice (has_compatible_ttl (pos ca) (pos ttl)) name ttl ca rest
        ≡ advice print name ttl ca followed_by rest
  unfolding ttl_message advice
  ttl_message-eq-advice name ca ttl rest =
      let fits = has_compatible_ttl_iff ca ttl in
      elim (Bool-cases (has_compatible_ttl (pos ca) (pos ttl))) [
        | inl e ↦
            let (a, b) = fits.0 e in
            let l : leb (ttl * 6) ca ≡ true = ground arith in
            let k : leb ttl week ≡ true = ground arith in rw (e, l, k) refl
        | inr e ↦
            let n : (leb (ttl * 6) ca && leb ttl week) ≡ false = ground (arith, e, fits) in
            let m = min_ca_ttl_for_svid_ttl_lem week (omega arith) in
            elim (Bool-cases (ltb ttl week)) [
              | inl s ↦
                  let s' : ltb_ℤ (pos ttl) max_svid_ttl ≡ true = ground (arith, s) in
                  rw
                    (
                      e,
                      n,
                      s,
                      s',
                      max_svid_ttl_short ca (ground (arith, n, s)),
                      min_ca_ttl_for_svid_ttl_lem ttl (ground (arith, s)),
                    )
                    refl
              | inr s ↦
                  let s' : ltb_ℤ (pos ttl) max_svid_ttl ≡ false = ground (arith, s) in
                  elim (Bool-cases (ltb ca (6 * week))) [
                    | inl c ↦
                        let c' : ltb_ℤ (pos ca) (pos (week * 6)) ≡ true = ground (arith, c) in
                        rw (e, n, s, s', m, c, c') refl
                    | inr c ↦
                        let c' : ltb_ℤ (pos ca) (pos (week * 6)) ≡ false = ground (arith, c) in
                        rw (e, n, s, s', m, c, c', max_svid_ttl_long ca (ground (arith, c))) refl
                  ]
            ]
      ]

  ttl_warnings-eq-advice :
      (ca x j : ℤ)
      → pos 0 <ℤ ca
      → pos 0 <ℤ x
      → pos 0 <ℤ j
      → ttl_warnings print ca (("default_x509_svid_ttl", x) ∷ ("default_jwt_svid_ttl", j) ∷ [])
        ≡ advice print "default_x509_svid_ttl" (pos_part x) (pos_part ca)
          followed_by advice print "default_jwt_svid_ttl" (pos_part j) (pos_part ca)
  unfolding ttl_warnings
  ttl_warnings-eq-advice (pos ca) (pos x) (pos j) c p q =
      let a = advice print "default_x509_svid_ttl" x ca in
      let b = advice print "default_jwt_svid_ttl" j ca in
      ttl_message-eq-advice "default_x509_svid_ttl" ca x
        (ttl_warnings print (pos ca) (("default_jwt_svid_ttl", pos j) ∷ []))
      ∙ ap (λ rest. a followed_by rest)
          (ttl_message-eq-advice "default_jwt_svid_ttl" ca j [] ∙ append-nil b)
  ttl_warnings-eq-advice (negsuc n) x j c p q = absurd (omega arith)
  ttl_warnings-eq-advice (pos ca) (negsuc n) j c p q = absurd (omega arith)
  ttl_warnings-eq-advice (pos ca) (pos x) (negsuc n) c p q = absurd (omega arith)

  -- Accepted lifetimes give no warning about an SVID lifetime of at most a week, six times which is at most
  -- the CA's lifetime, and else one warning, the X.509 lifetime's first. It names exact durations, never
  -- wrapped ones: for a lifetime below a week, a sixth of the CA's lifetime and six times the SVID's; for one
  -- of a week or more, a week, with six weeks for a CA below that.
  pub validate_ttl_warnings-advice :
      (config : Lifetimes)
      → (validate_ttl_durations_with_warnings print config).error ≡ none
      → (validate_ttl_durations_with_warnings print config).warnings
        ≡ advice print "default_x509_svid_ttl"
            (pos_part config.default_x509_validity)
            (pos_part config.ca_validity)
          followed_by advice print "default_jwt_svid_ttl"
              (pos_part config.default_jwt_validity)
              (pos_part config.ca_validity)
  validate_ttl_warnings-advice config h =
      let (x, j, l, k) = (validate_ttl_accepts_iff print config).0 h in
      warnings-eq-ttl_warnings print config h
      ∙ ttl_warnings-eq-advice config.ca_validity config.default_x509_validity
          config.default_jwt_validity (omega arith) x j
