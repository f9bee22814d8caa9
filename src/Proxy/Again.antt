-- ===== src/Proxy/Again.antt =====
-- What a second run of the proxy configuration changes, and where the CA bundle is mounted.
pub mod Mounting
use ocp_spire_operator.Prelude.{
  Bool, true, false, ◌||◌, ◌&&◌, not, String, List, [], ◌∷◌, ◌++◌, map, ◌==◌, if◌then◌else◌, any_of,
  all_of, arith, ◌≡◌, ◌≢◌, inl, inr, refl, ap, ◌∙◌, eq_iff, eq_refl, Bool-cases,
}
use mathlib.Core.List.{append-nil}
use ocp_spire_operator.Proxy.{
  Environment, EnvVar, VolumeMount, Container, Volume, PodSpec, trusted_ca_bundle_volume_name,
  get_proxy_env_vars_with_no_proxy_additions, is_proxy_enabled, is_trusted_ca_bundle_configured,
  has_env, missing_env_vars, inject_proxy_env_vars_with_no_proxy_additions,
  trusted_ca_bundle_volume_mount, mounts_bundle, add_trusted_ca_bundle_to_container,
  configure_container, has_bundle_volume, get_trusted_ca_bundle_volume,
  add_proxy_config_to_pod_with_no_proxy_additions,
}

any_of-append {ℓ} :
    {A : Type ℓ} (p : A → Bool) (xs ys : List A)
    → any_of p (xs ++ ys) ≡ (any_of p xs || any_of p ys)
any_of-append p [] ys = refl
any_of-append p (x ∷ xs) ys = ground (arith, any_of-append p xs ys)

has_env-missing_env_vars :
    (k : String) (env vs : List EnvVar)
    → has_env (env ++ missing_env_vars env vs) k ≡ (has_env env k || has_env vs k)
unfolding missing_env_vars
has_env-missing_env_vars k env [] = ground (arith, any_of-append (λ v. v.name == k) env [])
has_env-missing_env_vars k env (v ∷ vs) = ground (
  arith,
  eq_iff v.name k,
  has_env-missing_env_vars k env vs,
  any_of-append (λ v. v.name == k) env (missing_env_vars env vs),
  any_of-append (λ v. v.name == k) env (v ∷ missing_env_vars env vs),
)

missing_env_vars-nil :
    (env vs : List EnvVar)
    → ((k : String) → has_env vs k ≡ true → has_env env k ≡ true)
    → missing_env_vars env vs ≡ []
unfolding missing_env_vars
missing_env_vars-nil env [] h = refl
missing_env_vars-nil env (v ∷ vs) h =
    let here = h v.name (ground (arith, eq_refl v.name)) in
    rw here (missing_env_vars-nil env vs (λ k m. h k (ground (arith, m))))

-- The variables of a container after the injection of `vs`.
with_env : List EnvVar → List EnvVar → List EnvVar
with_env vs env = env ++ missing_env_vars env vs

with_env-twice : (vs env : List EnvVar) → with_env vs (with_env vs env) ≡ with_env vs env
unfolding with_env
with_env-twice vs env =
    ap (λ ms. (env ++ missing_env_vars env vs) ++ ms)
      (missing_env_vars-nil (env ++ missing_env_vars env vs) vs
        (λ k m. ground (arith, m, has_env-missing_env_vars k env vs)))
    ∙ append-nil (env ++ missing_env_vars env vs)

with_bundle : List VolumeMount → List VolumeMount
with_bundle ms =
    if any_of (λ m. m.name == trusted_ca_bundle_volume_name) ms
    then ms
    else ms ++ trusted_ca_bundle_volume_mount ∷ []

with_bundle-twice : (ms : List VolumeMount) → with_bundle (with_bundle ms) ≡ with_bundle ms
unfolding with_bundle
with_bundle-twice ms = ground (
  arith,
  any_of-append (λ m. m.name == trusted_ca_bundle_volume_name) ms
      (trusted_ca_bundle_volume_mount ∷ []),
)

add_bundle-eq :
    (e : Environment) (c : Container)
    → is_trusted_ca_bundle_configured e ≡ true
    → add_trusted_ca_bundle_to_container e c
      ≡ record c { volume_mounts = with_bundle c.volume_mounts }
unfolding add_trusted_ca_bundle_to_container with_bundle
add_bundle-eq e c h = ground (arith, h)

twice {ℓ} :
    {A : Type ℓ} (b : Bool) (f : A → A) (x : A)
    → f (f x) ≡ f x
    → (if b then f (if b then f x else x) else (if b then f x else x)) ≡ (if b then f x else x)
twice true f x h = h
twice false f x h = refl

-- The variables and the mounts are configured each on their own.
configured : Bool → Bool → List EnvVar → Container → Container
configured proxy bundle vs c = record c {
  env = if proxy then with_env vs c.env else c.env;
  volume_mounts = if bundle then with_bundle c.volume_mounts else c.volume_mounts;
}

configured-twice :
    (proxy bundle : Bool) (vs : List EnvVar) (c : Container)
    → configured proxy bundle vs (configured proxy bundle vs c) ≡ configured proxy bundle vs c
unfolding configured
configured-twice proxy bundle vs c =
    ap
      (λ env. record c {
        env = env;
        volume_mounts =
            if bundle
            then with_bundle (if bundle then with_bundle c.volume_mounts else c.volume_mounts)
            else (if bundle then with_bundle c.volume_mounts else c.volume_mounts);
      })
      (twice proxy (with_env vs) c.env (with_env-twice vs c.env))
    ∙ ap (λ ms. record c { env = if proxy then with_env vs c.env else c.env; volume_mounts = ms })
        (twice bundle with_bundle c.volume_mounts (with_bundle-twice c.volume_mounts))

configure_container-eq :
    (e : Environment) (additions : List String) (c : Container)
    → configure_container e additions c
      ≡ configured
          (is_proxy_enabled e)
          (is_trusted_ca_bundle_configured e)
          (get_proxy_env_vars_with_no_proxy_additions e additions)
          c
unfolding configure_container configured inject_proxy_env_vars_with_no_proxy_additions with_env
configure_container-eq e additions c = elim (Bool-cases (is_proxy_enabled e)) [
  | inl p ↦ elim (Bool-cases (is_trusted_ca_bundle_configured e)) [
    | inl b ↦
        rw (p, b) (add_bundle-eq e (inject_proxy_env_vars_with_no_proxy_additions e additions c) b)
    | inr b ↦ rw (p, b) refl
  ]
  | inr p ↦ elim (Bool-cases (is_trusted_ca_bundle_configured e)) [
    | inl b ↦ rw (p, b) (add_bundle-eq e c b)
    | inr b ↦ rw (p, b) refl
  ]
]

configure_container-twice :
    (e : Environment) (additions : List String) (c : Container)
    → configure_container e additions (configure_container e additions c)
      ≡ configure_container e additions c
configure_container-twice e additions c = rw (configure_container-eq e additions c) (
    configure_container-eq e additions (
      configured (is_proxy_enabled e) (is_trusted_ca_bundle_configured e)
        (get_proxy_env_vars_with_no_proxy_additions e additions) c)
    ∙ configured-twice (is_proxy_enabled e) (is_trusted_ca_bundle_configured e)
        (get_proxy_env_vars_with_no_proxy_additions e additions) c)

map-twice {ℓ} :
    {A : Type ℓ} (f : A → A)
    → ((x : A) → f (f x) ≡ f x)
    → (xs : List A) → map f (map f xs) ≡ map f xs
map-twice f h [] = refl
map-twice f h (x ∷ xs) = rw (h x, map-twice f h xs) refl

name-get_trusted_ca_bundle_volume :
    (e : Environment)
    → (e.trusted_ca_bundle_configmap == "") ≡ false
    → (get_trusted_ca_bundle_volume e).name ≡ trusted_ca_bundle_volume_name
unfolding get_trusted_ca_bundle_volume
name-get_trusted_ca_bundle_volume e h = rw h refl

has_bundle_volume-append :
    (e : Environment) (vs : List Volume)
    → is_trusted_ca_bundle_configured e ≡ true
    → has_bundle_volume (vs ++ get_trusted_ca_bundle_volume e ∷ []) ≡ true
has_bundle_volume-append e [] h = rw (name-get_trusted_ca_bundle_volume e (ground (arith, h))) refl
has_bundle_volume-append e (v ∷ vs) h = ground (arith, has_bundle_volume-append e vs h)

-- The volumes of a configured pod.
with_volume : Environment → List Volume → List Volume
with_volume e vs =
    if is_trusted_ca_bundle_configured e && not (has_bundle_volume vs)
    then vs ++ get_trusted_ca_bundle_volume e ∷ []
    else vs

has_bundle_volume-with_volume :
    (e : Environment) (vs : List Volume)
    → is_trusted_ca_bundle_configured e ≡ true
    → has_bundle_volume (with_volume e vs) ≡ true
unfolding with_volume
has_bundle_volume-with_volume e vs h = elim (Bool-cases (has_bundle_volume vs)) [
  | inl v ↦ rw (h, v) v
  | inr v ↦ rw (h, v) (has_bundle_volume-append e vs h)
]

with_volume-present :
    (e : Environment) (vs : List Volume)
    → is_trusted_ca_bundle_configured e ≡ true
    → has_bundle_volume vs ≡ true
    → with_volume e vs ≡ vs
unfolding with_volume
with_volume-present e vs h v = rw (h, v) refl

with_volume-unset :
    (e : Environment) (vs : List Volume)
    → is_trusted_ca_bundle_configured e ≡ false
    → with_volume e vs ≡ vs
unfolding with_volume
with_volume-unset e vs h = rw h refl

with_volume-twice :
    (e : Environment) (vs : List Volume) → with_volume e (with_volume e vs) ≡ with_volume e vs
with_volume-twice e vs = elim (Bool-cases (is_trusted_ca_bundle_configured e)) [
  | inl h ↦ with_volume-present e (with_volume e vs) h (has_bundle_volume-with_volume e vs h)
  | inr h ↦ with_volume-unset e (with_volume e vs) h
]

add_proxy_config_to_pod-eq :
    (e : Environment) (additions : List String) (pod : PodSpec)
    → (not (is_proxy_enabled e) && not (is_trusted_ca_bundle_configured e)) ≡ false
    → add_proxy_config_to_pod_with_no_proxy_additions e additions pod ≡ record {
      containers = map (configure_container e additions) pod.containers;
      init_containers = map (configure_container e additions) pod.init_containers;
      volumes = with_volume e pod.volumes;
    }
unfolding add_proxy_config_to_pod_with_no_proxy_additions with_volume
add_proxy_config_to_pod-eq e additions pod h = rw h refl

add_proxy_config_to_pod-idle :
    (e : Environment) (additions : List String) (pod : PodSpec)
    → (not (is_proxy_enabled e) && not (is_trusted_ca_bundle_configured e)) ≡ true
    → add_proxy_config_to_pod_with_no_proxy_additions e additions pod ≡ pod
unfolding add_proxy_config_to_pod_with_no_proxy_additions
add_proxy_config_to_pod-idle e additions pod h = rw h refl

-- Adding the proxy configuration to a pod a second time, in the same environment and with the same
-- additional entries, changes nothing.
pub add_proxy_config_to_pod-twice :
    (e : Environment) (additions : List String) (pod : PodSpec)
    → add_proxy_config_to_pod_with_no_proxy_additions e additions
        (add_proxy_config_to_pod_with_no_proxy_additions e additions pod)
      ≡ add_proxy_config_to_pod_with_no_proxy_additions e additions pod
add_proxy_config_to_pod-twice e additions pod =
    let f = configure_container e additions in
    let again = map-twice f (configure_container-twice e additions) in
    elim (Bool-cases (not (is_proxy_enabled e) && not (is_trusted_ca_bundle_configured e))) [
      | inl h ↦
          ap (add_proxy_config_to_pod_with_no_proxy_additions e additions)
            (add_proxy_config_to_pod-idle e additions pod h)
      | inr h ↦
          let pod' : PodSpec = record {
            containers = map f pod.containers;
            init_containers = map f pod.init_containers;
            volumes = with_volume e pod.volumes;
          } in
          rw (add_proxy_config_to_pod-eq e additions pod h) (
            add_proxy_config_to_pod-eq e additions pod' h
            ∙ rw (again pod.containers, again pod.init_containers, with_volume-twice e pod.volumes)
                refl)
    ]

all_of-map {ℓ} :
    {A : Type ℓ} (p : A → Bool) (f : A → A)
    → ((x : A) → p (f x) ≡ true)
    → (xs : List A) → all_of p (map f xs) ≡ true
all_of-map p f h [] = refl
all_of-map p f h (x ∷ xs) = ground (arith, h x, all_of-map p f h xs)

mounts_bundle-add :
    (e : Environment) (c : Container)
    → is_trusted_ca_bundle_configured e ≡ true
    → mounts_bundle (add_trusted_ca_bundle_to_container e c) ≡ true
unfolding add_trusted_ca_bundle_to_container
mounts_bundle-add e c h = ground (
  arith,
  h,
  any_of-append (λ m. m.name == trusted_ca_bundle_volume_name) c.volume_mounts
      (trusted_ca_bundle_volume_mount ∷ []),
)

mounts_bundle-configure :
    (e : Environment) (additions : List String) (c : Container)
    → is_trusted_ca_bundle_configured e ≡ true
    → mounts_bundle (configure_container e additions c) ≡ true
unfolding configure_container
mounts_bundle-configure e additions c h = rw h (
    mounts_bundle-add e
      (if is_proxy_enabled e
        then inject_proxy_env_vars_with_no_proxy_additions e additions c
        else c)
      h)

-- Where a trusted CA bundle is configured, every container and init container of the pod mounts a
-- volume of the bundle's name, and the pod has a volume of that name.
add_proxy_config_to_pod-mounts_bundle :
    (e : Environment) (additions : List String) (pod : PodSpec)
    → e.trusted_ca_bundle_configmap ≢ ""
    → (all_of mounts_bundle
          (add_proxy_config_to_pod_with_no_proxy_additions e additions pod).containers
        ≡ true)
      × (all_of mounts_bundle
            (add_proxy_config_to_pod_with_no_proxy_additions e additions pod).init_containers
          ≡ true)
      × (has_bundle_volume (add_proxy_config_to_pod_with_no_proxy_additions e additions pod).volumes
          ≡ true)
add_proxy_config_to_pod-mounts_bundle e additions pod h =
    let b : is_trusted_ca_bundle_configured e ≡ true =
      ground (arith, eq_iff e.trusted_ca_bundle_configmap "", h) in
    let mounted =
      all_of-map mounts_bundle (configure_container e additions)
        (λ c. mounts_bundle-configure e additions c b) in
    rw (add_proxy_config_to_pod-eq e additions pod (ground (arith, b))) (
      mounted pod.containers,
      mounted pod.init_containers,
      has_bundle_volume-with_volume e pod.volumes b,
    )
