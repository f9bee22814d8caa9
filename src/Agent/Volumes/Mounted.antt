-- ===== src/Agent/Volumes/Mounted.antt =====
-- What the agents find in their file systems.
use ocp_spire_operator.Prelude.{
  ◌≡◌, ◌≢◌, ◌⊎◌, inl, inr, refl, ◌∙◌, true, false, ◌&&◌, not, String, List, [], ◌∷◌, Option, none,
  some, ◌==◌, arith, eq_iff, All, any_of, Bool-cases, if◌then◌else◌,
}
use ocp_spire_operator.Prelude.Dict.{Dict, insert, lookup, lookup-insert}
use ocp_spire_operator.Json.{Json, flag, text}
use package.text.Mathlib.TextLemmas.{cons≢nil}
use ocp_spire_operator.Agent.Contents.{
  auto, host_cert, WorkloadAttestorsVerification, configure_kubelet_verification,
  build_host_cert_path, default_ca_path, or_default_path,
}
use ocp_spire_operator.Agent.Contents.Kubelet.{AsksToVerify, HasHostCert, JoinsParts}
use ocp_spire_operator.Agent.Volumes.{
  VolumeSource, host_path, Volume, get_host_cert_mount_path, volume_mounts, volumes,
}
use ocp_spire_operator.Proxy.{VolumeMount}

-- The volume is one of the pod's.
abbrev HasVolume : List Volume → String → Type 0
HasVolume vs name = any_of (λ v. v.name == name) vs ≡ true

-- Every mount of the agents names a volume of the pod.
volume_mounts-HasVolume :
    (path bundle_config_map socket_path : String)
    → All (λ m. HasVolume (volumes path bundle_config_map socket_path) m.name) (volume_mounts path)
unfolding volume_mounts volumes
volume_mounts-HasVolume path bundle_config_map socket_path = elim (Bool-cases (path == "")) [
  | inl e ↦ rw e (refl, (refl, (refl, (refl, (refl, tt)))))
  | inr e ↦ rw e (refl, (refl, (refl, (refl, (refl, (rw e refl, tt))))))
]

-- The mounts and the volumes of a name, in their order.
unfoldable pub mounts_of : String → List VolumeMount → List VolumeMount
mounts_of name [] = []
mounts_of name (m ∷ ms) = let rest = mounts_of name ms in if m.name == name then m ∷ rest else rest

unfoldable pub sources_of : String → List Volume → List VolumeSource
sources_of name [] = []
sources_of name (v ∷ vs) =
    let rest = sources_of name vs in if v.name == name then v.source ∷ rest else rest

-- The pod mounts this directory of the node, read-only and at the path that it has there, for the
-- authority of the kubelet, and nothing else for it.
abbrev pub MountsCa : String → Type 0
MountsCa path =
    (mounts_of "kubelet-ca" (volume_mounts path)
      ≡ record { name = "kubelet-ca"; mount_path = path; read_only = true } ∷ [])
    × ((bundle_config_map socket_path : String)
        → sources_of "kubelet-ca" (volumes path bundle_config_map socket_path)
          ≡ host_path path "Directory" ∷ [])

-- The pod has neither a mount nor a volume for the authority of the kubelet.
abbrev pub MountsNoCa : String → Type 0
MountsNoCa path =
    (mounts_of "kubelet-ca" (volume_mounts path) ≡ [])
    × ((bundle_config_map socket_path : String)
        → sources_of "kubelet-ca" (volumes path bundle_config_map socket_path) ≡ [])

-- The certificate that the agent is told to use lies in the directory of the node that the pod mounts.
abbrev pub FindsCa :
    (String → String → String) → Option WorkloadAttestorsVerification → Dict Json → Type 0
FindsCa join o plugin =
    let path = get_host_cert_mount_path o in
    (path ≢ "")
    × ((file : String) × (lookup "kubelet_ca_path" (configure_kubelet_verification join o plugin)
          ≡ some (text (join path file))))
    × MountsCa path

mounts_ca : (path : String) → path ≢ "" → MountsCa path
unfolding volume_mounts volumes mounts_of sources_of
mounts_ca path n = elim (Bool-cases (path == "")) [
  | inl e ↦ absurd (n ((eq_iff path "").0 e))
  | inr e ↦ (rw e refl, λ b s. rw e refl)
]

mounts_no_ca : (path : String) → path ≡ "" → MountsNoCa path
unfolding volume_mounts volumes mounts_of sources_of
mounts_no_ca path e = rw e (refl, λ b s. refl)

kubelet_ca_path-insert :
    (path : String) (m : Dict Json)
    → lookup "kubelet_ca_path"
        (insert "kubelet_ca_path" (text path) (insert "skip_kubelet_verification" (flag false) m))
      ≡ some (text path)
kubelet_ca_path-insert path m =
    lookup-insert "kubelet_ca_path" "kubelet_ca_path" (text path)
      (insert "skip_kubelet_verification" (flag false) m)

finds :
    (join : String → String → String) (o : Option WorkloadAttestorsVerification)
    (plugin : Dict Json) (path file : String)
    → get_host_cert_mount_path o ≡ path
    → path ≢ ""
    → lookup "kubelet_ca_path" (configure_kubelet_verification join o plugin)
      ≡ some (text (join path file))
    → FindsCa join o plugin
finds join o plugin path file p n l = rw p (n, (file, l), mounts_ca path n)

build_host_cert_path-join :
    (join : String → String → String) (v : WorkloadAttestorsVerification)
    → v.host_cert_base_path ≢ ""
    → v.host_cert_file_name ≢ ""
    → build_host_cert_path join v ≡ join v.host_cert_base_path v.host_cert_file_name
unfolding build_host_cert_path
build_host_cert_path-join join v b f =
    ground (arith, eq_iff v.host_cert_base_path "", eq_iff v.host_cert_file_name "", b, f)

build_host_cert_path-none :
    (join : String → String → String) (v : WorkloadAttestorsVerification)
    → (v.host_cert_base_path ≡ "") ⊎ (v.host_cert_file_name ≡ "")
    → build_host_cert_path join v ≡ ""
unfolding build_host_cert_path
build_host_cert_path-none join v h =
    ground (arith, eq_iff v.host_cert_base_path "", eq_iff v.host_cert_file_name "", h)

module _ (join : String → String → String) (plugin : Dict Json) where
  set_host_cert :
      (v : WorkloadAttestorsVerification)
      → v.type ≡ host_cert
      → lookup "kubelet_ca_path" (configure_kubelet_verification join (some v) plugin)
        ≡ some (text (build_host_cert_path join v))
  unfolding configure_kubelet_verification build_host_cert_path
  set_host_cert v e = rw e (kubelet_ca_path-insert (build_host_cert_path join v) plugin)

  set_auto :
      (v : WorkloadAttestorsVerification)
      → v.type ≡ auto
      → lookup "kubelet_ca_path" (configure_kubelet_verification join (some v) plugin)
        ≡ some (text (or_default_path (default_ca_path join) (build_host_cert_path join v)))
  unfolding configure_kubelet_verification build_host_cert_path
  set_auto v e = rw e (
      kubelet_ca_path-insert (or_default_path (default_ca_path join) (build_host_cert_path join v))
        plugin)

  module _ (joins : JoinsParts join) where
    host_cert-FindsCa :
        (v : WorkloadAttestorsVerification)
        → v.type ≡ host_cert
        → (v.host_cert_base_path ≢ "") × (v.host_cert_file_name ≢ "")
        → FindsCa join (some v) plugin
    unfolding get_host_cert_mount_path
    host_cert-FindsCa v e (b, f) =
        finds join (some v) plugin v.host_cert_base_path v.host_cert_file_name (rw e refl) b
          (set_host_cert v e ∙ rw (build_host_cert_path-join join v b f) refl)

    auto-FindsCa :
        (v : WorkloadAttestorsVerification) → v.type ≡ auto → FindsCa join (some v) plugin
    unfolding get_host_cert_mount_path
    auto-FindsCa v e =
        elim (Bool-cases (not (v.host_cert_base_path == "") && not (v.host_cert_file_name == ""))) [
          | inl h ↦
              let b : v.host_cert_base_path ≢ "" =
                ground (arith, h, eq_iff v.host_cert_base_path "") in
              let f : v.host_cert_file_name ≢ "" =
                ground (arith, h, eq_iff v.host_cert_file_name "") in
              let j = build_host_cert_path-join join v b f in
              let n = joins v.host_cert_base_path v.host_cert_file_name b in
              finds join (some v) plugin v.host_cert_base_path v.host_cert_file_name
                (rw (e, h) refl) b
                (set_auto v e
                  ∙ rw j (
                      ground
                        (arith, n, eq_iff (join v.host_cert_base_path v.host_cert_file_name) "")))
          | inr h ↦
              let m : (v.host_cert_base_path ≡ "") ⊎ (v.host_cert_file_name ≡ "") =
                ground
                  (arith, h, eq_iff v.host_cert_base_path "", eq_iff v.host_cert_file_name "") in
              finds join (some v) plugin "/etc/kubernetes" "kubelet-ca.crt" (rw (e, h) refl)
                cons≢nil (set_auto v e ∙ rw (build_host_cert_path-none join v m) refl)
        ]

    -- The configuration of the agents and their pod agree on the kubelet: where a specification that the rules
    -- accept asks for its verification, the certificate that the configuration names is in the directory
    -- of the node that the pod mounts at the same path, read-only, through a hostPath volume of that path and
    -- type Directory; where it does not, the pod has neither a mount nor a volume for it.
    pub get_host_cert_mount_path-FindsCa :
        (o : Option WorkloadAttestorsVerification)
        → HasHostCert o
        → (AsksToVerify o → FindsCa join o plugin)
          × ((AsksToVerify o → ⊥) → MountsNoCa (get_host_cert_mount_path o))
    unfolding get_host_cert_mount_path
    get_host_cert_mount_path-FindsCa none h = (λ a. elim a [ ], λ n. mounts_no_ca "" refl)
    get_host_cert_mount_path-FindsCa (some v) h = (
      λ a. elim a [ inl e ↦ auto-FindsCa v e | inr e ↦ host_cert-FindsCa v e (h e) ],
      λ n.
          mounts_no_ca (get_host_cert_mount_path (some v))
            (ground (arith, n, eq_iff v.type auto, eq_iff v.type host_cert)),
    )
