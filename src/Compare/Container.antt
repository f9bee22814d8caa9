-- ===== src/Compare/Container.antt =====
-- Containers and volumes in pkg/controller/utils/resource_comparison.go.
pub mod Same
use ocp_spire_operator.Prelude.{
  ℕ, Bool, true, false, ◌||◌, ◌&&◌, not, String, List, [], ◌∷◌, Option, none, some, ◌==◌, nat_eq,
  length, all_of, any_of, is_some, if◌then◌else◌,
}
use ocp_spire_operator.Prelude.Int.{ℤ, eq_ℤ}
use ocp_spire_operator.Prelude.Dict.{Dict, lookup, insert}
use ocp_spire_operator.Prelude.Text.{print_int}
use Prim.Native.String.{◌++◌}

-- A port, and the whole of it as a value.
pub record ContainerPort (V : Type 0) : Type 0 where
  pub container_port : ℤ
  pub protocol : String
  pub whole : V

pub record Container (V : Type 0) : Type 0 where
  pub name : String
  pub image : String
  pub image_pull_policy : String
  pub command : V
  pub args : V
  pub env : V
  pub ports : List (ContainerPort V)
  -- The HTTPGet of the probe, where there is a probe.
  pub readiness_probe : Option V
  pub liveness_probe : Option V
  pub security_context : Option V
  pub volume_mounts : V
  pub resources : V

-- A volume of a ConfigMap or of a Secret: its name, its default mode and its items.
pub record Projection (V : Type 0) : Type 0 where
  pub source_name : String
  pub default_mode : Option ℤ
  pub items : V

pub record Volume (V : Type 0) : Type 0 where
  pub name : String
  pub config_map : Option (Projection V)
  pub secret : Option (Projection V)
  pub empty_dir : Option V
  -- The path.
  pub host_path : Option String
  -- The name of the claim.
  pub persistent_volume_claim : Option String
  pub projected : Option V
  pub csi : Option V

-- `for _, x := range xs { m[key(x)] = x }`: a later item replaces an earlier one.
unfoldable pub keyed_from {ℓ} : {A : Type ℓ} → (A → String) → List A → Dict A → Dict A
keyed_from key [] m = m
keyed_from key (x ∷ xs) m = keyed_from key xs (insert (key x) x m)

abbrev pub keyed {ℓ} : {A : Type ℓ} → (A → String) → List A → Dict A
keyed key xs = keyed_from key xs []

-- `ptr.Equal`.
abbrev pub mode_eq : Option ℤ → Option ℤ → Bool
mode_eq none none = true
mode_eq none (some b) = false
mode_eq (some a) none = false
mode_eq (some a) (some b) = eq_ℤ a b

abbrev pub port_key : {V : Type 0} → ContainerPort V → String
port_key p = print_int p.container_port ++ ("/" ++ p.protocol)

abbrev pub name_matches : Option String → Option String → Bool
name_matches none f = true
name_matches (some d) none = false
name_matches (some d) (some f) = d == f

abbrev pub volume_name : {V : Type 0} → Volume V → String
volume_name v = v.name

abbrev pub container_name : {V : Type 0} → Container V → String
container_name c = c.name

module _ {V : Type 0} (deep_equal : V → V → Bool) where
  -- `(desired == nil) != (fetched == nil)`, and where both are set, what they hold is compared.
  abbrev pub set_and_same : Option V → Option V → Bool
  set_and_same none none = true
  set_and_same none (some f) = false
  set_and_same (some d) none = false
  set_and_same (some d) (some f) = deep_equal d f

  abbrev pub port_matches : ContainerPort V → Option (ContainerPort V) → Bool
  port_matches desired none = false
  port_matches desired (some fetched) = deep_equal desired.whole fetched.whole

  unfoldable pub ports_match : List (ContainerPort V) → List (ContainerPort V) → Bool
  ports_match fetched desired =
      nat_eq (length desired) (length fetched)
      && all_of (λ p. port_matches p (lookup (port_key p) (keyed port_key fetched))) desired

  unfoldable pub container_spec_modified : Container V → Container V → Bool
  container_spec_modified fetched desired =
      not (desired.name == fetched.name)
      || not (desired.image == fetched.image)
      || not (desired.image_pull_policy == fetched.image_pull_policy)
      || not (deep_equal desired.command fetched.command)
      || not (deep_equal desired.args fetched.args)
      || not (deep_equal desired.env fetched.env)
      || not (ports_match fetched.ports desired.ports)
      || not (set_and_same desired.readiness_probe fetched.readiness_probe)
      || not (set_and_same desired.liveness_probe fetched.liveness_probe)
      || not (set_and_same desired.security_context fetched.security_context)
      || not (deep_equal desired.volume_mounts fetched.volume_mounts)
      || not (deep_equal desired.resources fetched.resources)

  -- Where the desired volume has the source, the fetched one has it too, and the two agree.
  abbrev pub projection_matches : Option (Projection V) → Option (Projection V) → Bool
  projection_matches none f = true
  projection_matches (some d) none = false
  projection_matches (some d) (some f) =
      d.source_name == f.source_name
      && (not (is_some d.default_mode) || mode_eq d.default_mode f.default_mode)
      && deep_equal d.items f.items

  abbrev pub value_matches : Option V → Option V → Bool
  value_matches none f = true
  value_matches (some d) none = false
  value_matches (some d) (some f) = deep_equal d f

  unfoldable pub volume_matches : Volume V → Option (Volume V) → Bool
  volume_matches desired none = false
  volume_matches desired (some fetched) =
      projection_matches desired.config_map fetched.config_map
      && projection_matches desired.secret fetched.secret
      && (not (is_some desired.empty_dir) || is_some fetched.empty_dir)
      && name_matches desired.host_path fetched.host_path
      && name_matches desired.persistent_volume_claim fetched.persistent_volume_claim
      && value_matches desired.projected fetched.projected
      && value_matches desired.csi fetched.csi

  unfoldable pub volumes_equal : List (Volume V) → List (Volume V) → Bool
  volumes_equal fetched desired =
      nat_eq (length desired) (length fetched)
      && all_of (λ d. volume_matches d (lookup d.name (keyed volume_name fetched))) desired

  abbrev pub modified_in : Container V → Option (Container V) → Bool
  modified_in desired none = true
  modified_in desired (some fetched) = container_spec_modified fetched desired

  abbrev pub any_modified : Dict (Container V) → Dict (Container V) → Bool
  any_modified m [] = false
  any_modified m ((name, c) ∷ desired) = modified_in c (lookup name m) || any_modified m desired

  -- The comparison of two lists of containers; the order in which the loop meets the desired ones
  -- does not change the answer.
  unfoldable pub containers_modified : List (Container V) → List (Container V) → Bool
  containers_modified fetched desired =
      not (nat_eq (length desired) (length fetched))
      || any_modified (keyed container_name fetched) (keyed container_name desired)
