-- ===== src/Agent/Contents/Kubelet.antt =====
-- The verification of the kubelet that the configuration of the SPIRE agents asks for.
use ocp_spire_operator.Prelude.{
  ◌≡◌, ◌≢◌, ◌⊎◌, inl, inr, true, false, String, Option, none, some, arith, eq_iff, ◌∙◌,
}
use package.text.Mathlib.TextLemmas.{cons≢nil}
use ocp_spire_operator.Prelude.Dict.{Dict, insert, lookup, lookup-insert}
use ocp_spire_operator.Json.{Json, flag, text}
use ocp_spire_operator.Agent.Contents.{
  auto, host_cert, WorkloadAttestorsVerification, configure_kubelet_verification,
  build_host_cert_path, or_default_path, default_ca_path,
}

-- What a specification asks for: the verification of the kubelet.
abbrev pub AsksToVerify : Option WorkloadAttestorsVerification → Type 0
AsksToVerify none = ⊥
AsksToVerify (some v) = (v.type ≡ auto) ⊎ (v.type ≡ host_cert)

-- The rule on the specification: with `hostCert` both parts of the path are set.
abbrev pub HasHostCert : Option WorkloadAttestorsVerification → Type 0
HasHostCert none = Unit
HasHostCert (some v) =
    v.type ≡ host_cert → (v.host_cert_base_path ≢ "") × (v.host_cert_file_name ≢ "")

-- `path.Join` gives an empty text for empty parts only.
abbrev pub JoinsParts : (String → String → String) → Type 0
JoinsParts join = (base file : String) → base ≢ "" → join base file ≢ ""

-- The agent verifies the kubelet, against a certificate that is named.
abbrev pub Verifies : Dict Json → Type 0
Verifies m =
    (lookup "skip_kubelet_verification" m ≡ some (flag false))
    × ((path : String) × (lookup "kubelet_ca_path" m ≡ some (text path)) × (path ≢ ""))

verified :
    (path : String) (m : Dict Json)
    → path ≢ ""
    → Verifies
        (insert "kubelet_ca_path" (text path) (insert "skip_kubelet_verification" (flag false) m))
verified path m n =
    let m' = insert "skip_kubelet_verification" (flag false) m in
    (
      lookup-insert "kubelet_ca_path" "skip_kubelet_verification" (text path) m'
          ∙ lookup-insert "skip_kubelet_verification" "skip_kubelet_verification" (flag false) m,
      (path, lookup-insert "kubelet_ca_path" "kubelet_ca_path" (text path) m', n),
    )

-- Nothing is verified, and no certificate is named that was not.
abbrev pub SkipsAs : Dict Json → Dict Json → Type 0
SkipsAs before after =
    (lookup "skip_kubelet_verification" after ≡ some (flag true))
    × (lookup "kubelet_ca_path" after ≡ lookup "kubelet_ca_path" before)

skipped : (m : Dict Json) → SkipsAs m (insert "skip_kubelet_verification" (flag true) m)
skipped m = (
  lookup-insert "skip_kubelet_verification" "skip_kubelet_verification" (flag true) m,
  lookup-insert "skip_kubelet_verification" "kubelet_ca_path" (flag true) m,
)

module _ (join : String → String → String) (joins : JoinsParts join) where
  build_host_cert_path-ne :
      (v : WorkloadAttestorsVerification)
      → (v.host_cert_base_path ≢ "") × (v.host_cert_file_name ≢ "")
      → build_host_cert_path join v ≢ ""
  unfolding build_host_cert_path
  build_host_cert_path-ne v (b, f) = ground (
    arith,
    eq_iff v.host_cert_base_path "",
    eq_iff v.host_cert_file_name "",
    joins v.host_cert_base_path v.host_cert_file_name b,
    b,
    f,
  )

  default_ca_path-ne : default_ca_path join ≢ ""
  default_ca_path-ne = joins "/etc/kubernetes" "kubelet-ca.crt" cons≢nil

  or_default_path-ne : (path : String) → or_default_path (default_ca_path join) path ≢ ""
  or_default_path-ne path = ground (arith, eq_iff path "", default_ca_path-ne)

  -- With a specification that the rules on it accept, the agent is told to verify the kubelet exactly where
  -- the specification asks for it, with `auto` or `hostCert`, and then against a certificate that is named;
  -- otherwise, a specification that is missing or unknown included, it is told to skip the verification.
  pub configure_kubelet_verification-Verifies :
      (o : Option WorkloadAttestorsVerification) (plugin : Dict Json)
      → HasHostCert o
      → (AsksToVerify o → Verifies (configure_kubelet_verification join o plugin))
        × ((AsksToVerify o → ⊥) → SkipsAs plugin (configure_kubelet_verification join o plugin))
  unfolding configure_kubelet_verification build_host_cert_path
  configure_kubelet_verification-Verifies none plugin h = ((λ a. elim a [ ]), λ _. skipped plugin)
  configure_kubelet_verification-Verifies (some v) plugin h = (
    (λ a. elim a [
      | inl e ↦ rw e (
          verified (or_default_path (default_ca_path join) (build_host_cert_path join v)) plugin
            (or_default_path-ne (build_host_cert_path join v)))
      | inr e ↦
          rw e (verified (build_host_cert_path join v) plugin (build_host_cert_path-ne v (h e)))
    ]),
    (λ n. ground (arith, skipped plugin, eq_iff v.type auto, eq_iff v.type host_cert, n)),
  )
