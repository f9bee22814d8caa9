-- ===== src/Server/Contents/Carried.antt =====
-- What the ConfigMap of the SPIRE server in pkg/controller/spire-server/configmap.go carries.
use ocp_spire_operator.Prelude.{
  ◌≡◌, ◌≢◌, refl, sym, ◌∙◌, Bool, true, false, not, String, [], ◌∷◌, Option, none, some, ◌==◌, inl,
  inr, arith, eq_iff, Bool-cases, ap,
}
use ocp_spire_operator.Prelude.Dict.{Dict, lookup, lookup-insert}
use ocp_spire_operator.Json.{Json, text, object_of, within, at-object_of}
use ocp_spire_operator.Objects.{Attempt, done, failed}
use ocp_spire_operator.Settings.{insert_if}
use ocp_spire_operator.Labels.{
  component_control_plane, spire_server_labels, has_controller_managed_label_with_component,
}
use ocp_spire_operator.Labels.Watched.{IsWatched, labels-IsWatched}
use ocp_spire_operator.Server.Federation.{FederationConfig}
use ocp_spire_operator.Server.Peers.{generate_federation_config, add_federation}
use ocp_spire_operator.Server.Contents.{
  Environs, ServerSpec, ZtwimSpec, ConfigMap, core_section, server_section,
  generate_server_conf_map, server_config_map_of, marshal_to_json, marshalled_server_conf,
  generate_spire_server_config_map,
}

-- A member of the server's section.
abbrev pub server_setting : String → Dict Json → Option Json
server_setting key conf = within key (lookup "server" conf)

abbrev pub federation_setting : Option FederationConfig → Option Json
federation_setting none = none
federation_setting (some f) = some (object_of (generate_federation_config f))

lookup-insert_if :
    (b : Bool) (key : String) (j : Json) (name : String) (m : Dict Json)
    → (key == name) ≡ false
    → lookup name (insert_if b key j m) ≡ lookup name m
lookup-insert_if true key j name m n = lookup-insert key name j m ∙ rw n refl
lookup-insert_if false key j name m n = refl

lookup-add_federation :
    (f : Option FederationConfig) (m : Dict Json)
    → lookup "federation" m ≡ none
    → (lookup "federation" (add_federation f m) ≡ federation_setting f)
      × (lookup "trust_domain" (add_federation f m) ≡ lookup "trust_domain" m)
lookup-add_federation none m h = (h, refl)
lookup-add_federation (some f) m h =
    let j = object_of (generate_federation_config f) in
    (lookup-insert "federation" "federation" j m, lookup-insert "federation" "trust_domain" j m)

module _ (v : Environs) (config : ServerSpec) (ztwim : ZtwimSpec) where
  settings :
      (server_setting "federation" (generate_server_conf_map v config ztwim)
        ≡ federation_setting config.federation)
      × (server_setting "trust_domain" (generate_server_conf_map v config ztwim)
          ≡ some (text ztwim.trust_domain))
  unfolding generate_server_conf_map server_section lookup
  settings =
      let core = core_section v config ztwim in
      let key = not (config.jwt_key_type == "") in
      let keyed = insert_if key "jwt_key_type" (text config.jwt_key_type) core in
      let (f, d) =
        lookup-add_federation config.federation keyed
          (lookup-insert_if key "jwt_key_type" (text config.jwt_key_type) "federation" core refl) in
      (
        at-object_of "federation" (server_section v config ztwim) ∙ f,
        at-object_of "trust_domain" (server_section v config ztwim)
            ∙ d
            ∙ lookup-insert_if key "jwt_key_type" (text config.jwt_key_type) "trust_domain" core
                refl,
      )

  abbrev carrying : String → ConfigMap
  carrying conf = record {
    name = "spire-server";
    namespace = v.namespace;
    labels = spire_server_labels v.versions config.labels;
    entries = ("server.conf", conf) ∷ [];
  }

  carried :
      (a : Attempt String) (cm : ConfigMap)
      → server_config_map_of v config ztwim (marshalled_server_conf a) ≡ done cm
      → (conf : String) × (a ≡ done conf) × (carrying conf ≡ cm)
  carried (done conf) cm e = (conf, refl, ap (or_else cm) e)
    where
      or_else : ConfigMap → Attempt ConfigMap → ConfigMap
      or_else c (done d) = d
      or_else c (failed e) = c
  carried (failed x) cm e = ground (arith, e)

  -- The ConfigMap carries the marshalled configuration.
  abbrev pub Carries : ConfigMap → Type 0
  Carries cm =
      (conf : String) × (v.marshal_json (object_of (generate_server_conf_map v config ztwim))
        ≡ done conf)
      × (lookup "server.conf" cm.entries ≡ some conf)

  -- A ConfigMap of the SPIRE server that is generated carries a configuration that was marshalled, which
  -- has the trust domain of the ZTWIM resource, not an empty one, and the federation settings exactly
  -- where there are some; and its labels make the controller of the control plane watch it.
  pub generate_spire_server_config_map-Carries :
      (cm : ConfigMap)
      → generate_spire_server_config_map v config ztwim ≡ done cm
      → Carries cm
        × (server_setting "trust_domain" (generate_server_conf_map v config ztwim)
            ≡ some (text ztwim.trust_domain))
        × (ztwim.trust_domain ≢ "")
        × (server_setting "federation" (generate_server_conf_map v config ztwim)
            ≡ federation_setting config.federation)
        × IsWatched component_control_plane cm.labels
  unfolding generate_spire_server_config_map marshal_to_json lookup
  generate_spire_server_config_map-Carries cm e = elim (Bool-cases (ztwim.trust_domain == "")) [
    | inl t ↦ ground (arith, e, t)
    | inr t ↦ elim (Bool-cases (ztwim.bundle_config_map == "")) [
      | inl b ↦ ground (arith, e, t, b)
      | inr b ↦
          let marshalled = v.marshal_json (object_of (generate_server_conf_map v config ztwim)) in
          let e' : server_config_map_of v config ztwim (marshalled_server_conf marshalled)
              ≡ done cm =
            ground (arith, e, t, b) in
          let (conf, m, c) = carried marshalled cm e' in
          (
            (conf, m, ap (λ d. lookup "server.conf" d.entries) (sym c)),
            settings.1,
            ground (arith, eq_iff ztwim.trust_domain "", t),
            settings.0,
            ap (λ d. has_controller_managed_label_with_component d.labels component_control_plane)
                  (sym c)
                ∙ (labels-IsWatched v.versions config.labels component_control_plane).0.1 refl,
          )
    ]
  ]
