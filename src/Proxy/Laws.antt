-- ===== src/Proxy/Laws.antt =====
-- What the proxy settings come to in a pod: the variables of each container, the bundle's mounts and
-- volume, and what a second run changes.
use ocp_spire_operator.Prelude.{
  true, false, String, List, [], ◌∷◌, ◌++◌, Option, none, some, ◌==◌, if◌then◌else◌, arith, ◌≡◌,
  ◌≢◌, ◌↔◌, ◌⊎◌, inl, inr, refl, sym, ap, ◌∙◌, eq_iff, Bool-cases,
}
use ocp_spire_operator.Prelude.Text.{join, join_from}
use Prim.Native.String.{◌++◌ as concat}
use text.Mathlib.TextLemmas.{
  append_assoc as concat_assoc, append-nil as concat-nil, cons-append, cons≢nil,
}
use ocp_spire_operator.Proxy.{
  Environment, EnvVar, Container, add_no_proxy, get_proxy_env_vars_with_no_proxy_additions,
  is_proxy_enabled, validate_proxy_configuration, has_env, missing_env_vars,
  inject_proxy_env_vars_with_no_proxy_additions, add_trusted_ca_bundle_to_container,
  configure_container,
}

-- The value that a container sees for a variable.
unfoldable find_env : String → List EnvVar → Option String
find_env k [] = none
find_env k (v ∷ vs) = if v.name == k then some v.value else find_env k vs

abbrev pub or_else {ℓ} : {A : Type ℓ} → Option A → Option A → Option A
or_else (some a) b = some a
or_else none b = b

find_env-append :
    (k : String) (vs ws : List EnvVar)
    → find_env k (vs ++ ws) ≡ or_else (find_env k vs) (find_env k ws)
unfolding find_env
find_env-append k [] ws = refl
find_env-append k (v ∷ vs) ws = ground (arith, find_env-append k vs ws)

has_env_of_find : (k : String) (vs : List EnvVar) → find_env k vs ≡ none → has_env vs k ≡ false
unfolding find_env
has_env_of_find k [] h = refl
has_env_of_find k (v ∷ vs) h = ground (arith, has_env_of_find k vs)

find_env-missing_env_vars :
    (k : String) (env vs : List EnvVar)
    → find_env k env ≡ none
    → find_env k (missing_env_vars env vs) ≡ find_env k vs
unfolding find_env missing_env_vars
find_env-missing_env_vars k env [] h = refl
find_env-missing_env_vars k env (v ∷ vs) h =
    ground (arith, eq_iff v.name k, has_env_of_find k env h, find_env-missing_env_vars k env vs h)

env-add_trusted_ca_bundle :
    (e : Environment) (c : Container) → (add_trusted_ca_bundle_to_container e c).env ≡ c.env
unfolding add_trusted_ca_bundle_to_container
env-add_trusted_ca_bundle e c = ground arith

env-configure_container :
    (e : Environment) (additions : List String) (c : Container)
    → (configure_container e additions c).env ≡ (
        if is_proxy_enabled e
        then c.env
          ++ missing_env_vars c.env (get_proxy_env_vars_with_no_proxy_additions e additions)
        else c.env)
unfolding configure_container inject_proxy_env_vars_with_no_proxy_additions
env-configure_container e additions c =
    let i = inject_proxy_env_vars_with_no_proxy_additions e additions c in
    elim (Bool-cases (is_proxy_enabled e)) [
      | inl h ↦ rw h ground (arith, env-add_trusted_ca_bundle e i)
      | inr h ↦ rw h ground (arith, env-add_trusted_ca_bundle e c)
    ]

-- A configured container sees, for each variable, the value it had; where it had none and a proxy is
-- enabled, the operator's value.
find_env-configure_container :
    (e : Environment) (additions : List String) (k : String) (c : Container)
    → find_env k (configure_container e additions c).env ≡ (
        if is_proxy_enabled e
        then or_else
            (find_env k c.env)
            (find_env k (get_proxy_env_vars_with_no_proxy_additions e additions))
        else find_env k c.env)
find_env-configure_container e additions k c =
    let vs = get_proxy_env_vars_with_no_proxy_additions e additions in
    rw (env-configure_container e additions c) ground (
      arith,
      find_env-append k c.env (missing_env_vars c.env vs),
      find_env-missing_env_vars k c.env vs,
    )

unfoldable unless_empty : List String → List String
unless_empty [] = []
unless_empty (e ∷ es) = if e == "" then unless_empty es else e ∷ unless_empty es

concat-nonempty : (s t : String) → s ≢ "" → concat s t ≢ ""
concat-nonempty String.[] t h k = h refl
concat-nonempty (String.◌∷◌ c s) t h k = cons≢nil (sym (cons-append c s t) ∙ k)

nonempty : (s : String) → s ≢ "" → (s == "") ≡ false
nonempty s h = ground (arith, eq_iff s "")

add_no_proxy-join :
    (no_proxy : String) (entries : List String)
    → no_proxy ≢ ""
    → add_no_proxy no_proxy entries ≡ concat no_proxy (join_from "," (unless_empty entries))
unfolding add_no_proxy unless_empty
add_no_proxy-join no_proxy [] h = sym (concat-nil no_proxy)
add_no_proxy-join no_proxy (entry ∷ entries) h = elim (Bool-cases (entry == "")) [
  | inl e ↦ rw e (add_no_proxy-join no_proxy entries h)
  | inr e ↦
      rw (e, nonempty no_proxy h)
        (add_no_proxy-join (concat no_proxy (concat "," entry)) entries
            (concat-nonempty no_proxy (concat "," entry) h)
          ∙ concat_assoc no_proxy (concat "," entry) (join_from "," (unless_empty entries))
          ∙ ap (concat no_proxy) (concat_assoc "," entry (join_from "," (unless_empty entries))))
]

nonempty_of : {s : String} → (s == "") ≡ false → s ≢ ""
nonempty_of {s} h = ground (arith, eq_iff s "", h)

-- The value of NO_PROXY is the operator's value and the additional entries, without the empty ones,
-- separated by single commas.
add_no_proxy_lem :
    (no_proxy : String) (entries : List String)
    → add_no_proxy no_proxy entries ≡ join "," (unless_empty (no_proxy ∷ entries))
unfolding add_no_proxy unless_empty
add_no_proxy_lem no_proxy [] = ground (arith, eq_iff no_proxy "", concat-nil no_proxy)
add_no_proxy_lem no_proxy (entry ∷ entries) = elim (Bool-cases (no_proxy == "")) [
  | inl e ↦ rw ((eq_iff no_proxy "").0 e) elim (Bool-cases (entry == "")) [
    | inl f ↦ rw f (add_no_proxy_lem "" entries)
    | inr f ↦ rw f (add_no_proxy-join entry entries (nonempty_of f))
  ]
  | inr e ↦ add_no_proxy-join no_proxy (entry ∷ entries) (nonempty_of e) ∙ rw e refl
]

-- The proxy configuration is valid exactly when no proxy is set, HTTP_PROXY and HTTPS_PROXY both being
-- empty, or the ConfigMap of the trusted CA bundle is named.
validate_proxy_configuration_iff :
    (e : Environment)
    → ((validate_proxy_configuration e).valid ≡ true)
      ↔ (((e.http_proxy ≡ "") × (e.https_proxy ≡ "")) ⊎ (e.trusted_ca_bundle_configmap ≢ ""))
unfolding validate_proxy_configuration
validate_proxy_configuration_iff e = ground (
  arith,
  eq_iff e.http_proxy "",
  eq_iff e.https_proxy "",
  eq_iff e.trusted_ca_bundle_configmap "",
)
