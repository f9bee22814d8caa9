-- ===== src/Proxy/Again/Mounting.antt =====
-- The proxy configuration of pkg/controller/utils/proxy.go keeps a pod in order: what is mounted is there.
use ocp_spire_operator.Prelude.{
  ◌≡◌, refl, ◌∙◌, true, not, ◌&&◌, String, List, [], ◌∷◌, ◌++◌, map, ◌==◌, if◌then◌else◌, All,
  any_of, Bool-cases, inl, inr,
}
use ocp_spire_operator.Proxy.{
  Environment, VolumeMount, Container, Volume, PodSpec, is_proxy_enabled,
  is_trusted_ca_bundle_configured, trusted_ca_bundle_volume_mount, mounts_bundle, has_bundle_volume,
  inject_proxy_env_vars_with_no_proxy_additions, add_trusted_ca_bundle_to_container,
  configure_container, get_trusted_ca_bundle_volume,
  add_proxy_config_to_pod_with_no_proxy_additions,
}
use ocp_spire_operator.Proxy.Again.{
  any_of-append, with_volume, has_bundle_volume-with_volume, add_proxy_config_to_pod-eq,
  add_proxy_config_to_pod-idle,
}

-- The pod has a volume of that name.
abbrev pub HasVolume : List Volume → VolumeMount → Type 0
HasVolume vs m = any_of (λ v. v.name == m.name) vs ≡ true

-- Every mount of every container names a volume of the pod.
abbrev pub IsMounted : PodSpec → Type 0
IsMounted pod =
    All (λ c. All (HasVolume pod.volumes) c.volume_mounts) pod.containers
    × All (λ c. All (HasVolume pod.volumes) c.volume_mounts) pod.init_containers

All-append :
    (P : VolumeMount → Type 0) (ms ns : List VolumeMount) → All P ms → All P ns → All P (ms ++ ns)
All-append P [] ns h k = k
All-append P (m ∷ ms) ns (p, h) k = (p, All-append P ms ns h k)

HasVolume-with_volume :
    (e : Environment) (vs : List Volume) (m : VolumeMount)
    → HasVolume vs m
    → HasVolume (with_volume e vs) m
unfolding with_volume
HasVolume-with_volume e vs m h =
    elim (Bool-cases (is_trusted_ca_bundle_configured e && not (has_bundle_volume vs))) [
      | inl b ↦ rw b (
          any_of-append (λ v. v.name == m.name) vs (get_trusted_ca_bundle_volume e ∷ [])
          ∙ rw h refl)
      | inr b ↦ rw b h
    ]

mounts-with_volume :
    (e : Environment) (vs : List Volume) (ms : List VolumeMount)
    → All (HasVolume vs) ms
    → All (HasVolume (with_volume e vs)) ms
mounts-with_volume e vs [] h = tt
mounts-with_volume e vs (m ∷ ms) (p, h) =
    (HasVolume-with_volume e vs m p, mounts-with_volume e vs ms h)

module _ (e : Environment) (additions : List String) (vs : List Volume) where
  bundle :
      (c : Container)
      → is_trusted_ca_bundle_configured e ≡ true
      → All (HasVolume (with_volume e vs)) c.volume_mounts
      → All (HasVolume (with_volume e vs)) (add_trusted_ca_bundle_to_container e c).volume_mounts
  unfolding add_trusted_ca_bundle_to_container
  bundle c b h = elim (Bool-cases (mounts_bundle c)) [
    | inl m ↦ rw (b, m) h
    | inr m ↦
        rw (b, m)
          (All-append (HasVolume (with_volume e vs)) c.volume_mounts
            (trusted_ca_bundle_volume_mount ∷ []) h (has_bundle_volume-with_volume e vs b, tt))
  ]

  -- The container after the injection of the variables has its mounts.
  injected : Container → Container
  injected c =
      if is_proxy_enabled e then inject_proxy_env_vars_with_no_proxy_additions e additions c else c

  injected-mounts : (c : Container) → (injected c).volume_mounts ≡ c.volume_mounts
  unfolding injected inject_proxy_env_vars_with_no_proxy_additions
  injected-mounts c = elim (Bool-cases (is_proxy_enabled e)) [
    | inl p ↦ rw p refl
    | inr p ↦ rw p refl
  ]

  configured :
      (c : Container)
      → All (HasVolume vs) c.volume_mounts
      → All (HasVolume (with_volume e vs)) (configure_container e additions c).volume_mounts
  unfolding configure_container injected
  configured c h =
      let kept : All (HasVolume (with_volume e vs)) (injected c).volume_mounts =
        rw (injected-mounts c) (mounts-with_volume e vs c.volume_mounts h) in
      elim (Bool-cases (is_trusted_ca_bundle_configured e)) [
        | inl b ↦ rw b (bundle (injected c) b kept)
        | inr b ↦ rw b kept
      ]

  all_configured :
      (cs : List Container)
      → All (λ c. All (HasVolume vs) c.volume_mounts) cs
      → All
          (λ c. All (HasVolume (with_volume e vs)) c.volume_mounts)
          (map (configure_container e additions) cs)
  all_configured [] h = tt
  all_configured (c ∷ cs) (p, h) = (configured c p, all_configured cs h)

-- Where every mount of a pod names one of its volumes, that is so after the proxy configuration is added
-- too, with the bundle of trusted certificates and without it.
pub add_proxy_config_to_pod-IsMounted :
    (e : Environment) (additions : List String) (pod : PodSpec)
    → IsMounted pod
    → IsMounted (add_proxy_config_to_pod_with_no_proxy_additions e additions pod)
add_proxy_config_to_pod-IsMounted e additions pod (h, k) =
    elim (Bool-cases (not (is_proxy_enabled e) && not (is_trusted_ca_bundle_configured e))) [
      | inl i ↦ rw (add_proxy_config_to_pod-idle e additions pod i) (h, k)
      | inr i ↦ rw (add_proxy_config_to_pod-eq e additions pod i) (
        all_configured e additions pod.volumes pod.containers h,
        all_configured e additions pod.volumes pod.init_containers k,
      )
    ]
