-- ===== src/Objects/Comparable.antt =====
-- The objects of which a step writes nothing but the wanted ones, service accounts, roles and bindings, as
-- pkg/controller/utils/resource_comparison.go compares them.
use ocp_spire_operator.Prelude.{Bool, String}
use ocp_spire_operator.Compare.{ServiceAccount}
use ocp_spire_operator.Compare.Workload.{Sized}
use ocp_spire_operator.Compare.Rules.{ClusterRole, Binding, Typed, Metadata, resource_needs_update}
use ocp_spire_operator.Objects.Kinds.{Fields}

-- What is compared of a service account, of a role and of a binding.
pub data Content (V : Type 0) : Type 0 where
  service_account : ServiceAccount → Content V
  cluster_role : ClusterRole V → Content V
  cluster_role_binding : Binding V → Content V
  role : Sized V → Content V
  role_binding : Binding V → Content V

pub record Object (V : Type 0) : Type 0 where
  pub resource_version : String
  pub metadata : Metadata
  pub content : Content V

-- The case of the type switch. A step reads an object into the type of the wanted one, so that the last
-- clause, for two types, which the source's assertion refuses with a panic, is never reached.
abbrev pub compared : {V : Type 0} → Content V → Content V → Typed V
compared (service_account e) (service_account d) = Typed.service_accounts e d
compared (cluster_role e) (cluster_role d) = Typed.cluster_roles e d
compared (cluster_role_binding e) (cluster_role_binding d) = Typed.cluster_role_bindings e d
compared (role e) (role d) = Typed.roles e d
compared (role_binding e) (role_binding d) = Typed.role_bindings e d
compared e d = Typed.other

module _ {V : Type 0} (deep_equal : V → V → Bool) (fields : Fields (Object V)) where
  -- The comparison of the objects, and the version that an update carries.
  abbrev pub object_fields : Fields (Object V)
  object_fields = record fields {
    resource_needs_update = λ existing desired.
        resource_needs_update deep_equal existing.metadata desired.metadata
          (compared existing.content desired.content);
    keep_version =
        λ existing desired. record desired { resource_version = existing.resource_version };
  }
