-- ===== src/Objects/Again.antt =====
-- What a second run of a step does after a first one without an error: the service accounts, roles and
-- bindings, whose steps compare them by pkg/controller/utils/resource_comparison.go.
use ocp_spire_operator.Prelude.{
  Bool, true, false, ◌≡◌, refl, inl, inr, String, Option, none, some, Bool-cases, arith,
}
use ocp_spire_operator.Prelude.Dict.{HasDistinctKeys}
use ocp_spire_operator.Kube.{Error, ApiErrors}
use ocp_spire_operator.Status.{Manager}
use ocp_spire_operator.Status.Health.{Got, got, get_failed}
use ocp_spire_operator.Compare.Rules.Same.{AreSame}
use ocp_spire_operator.Compare.Metadata.{IsIncluded, resource_needs_update-AreSame}
use ocp_spire_operator.Objects.{
  done, succeeded, ObjectClient, Kind, announce, written, ensure_got, ensure,
}
use ocp_spire_operator.Objects.Kinds.{Fields, plain}
use ocp_spire_operator.Objects.Comparable.{
  Content, service_account, cluster_role, cluster_role_binding, role, role_binding, Object,
  compared, object_fields,
}

same_content : {V : Type 0} (e d : Content V) → e ≡ d → AreSame (compared e d)
same_content e d h = rw h (self d)
  where
    self : {V : Type 0} (c : Content V) → AreSame (compared c c)
    self (service_account d) = refl
    self (cluster_role d) = refl
    self (cluster_role_binding d) = refl
    self (role d) = refl
    self (role_binding d) = refl

-- What is stored has the labels, the annotations and the content that were written; others may have added
-- labels and annotations.
abbrev pub ReadsBack : {V : Type 0} → Object V → Object V → Type 0
ReadsBack o d =
    IsIncluded o.metadata.labels d.metadata.labels
    × IsIncluded o.metadata.annotations d.metadata.annotations
    × (o.content ≡ d.content)

-- What is taken of the API server: an object that was created or updated without an error is read back.
pub record IsObjectStore {W V : Type 0} (client : ObjectClient W (Object V)) : Type 0 where
  pub get-create :
      (d : Object V) (w w' : W)
      → client.create d w ≡ (none, w')
      → (o : Object V) × (client.get d w' ≡ got o) × ReadsBack o d
  pub get-update :
      (d : Object V) (version : String) (w w' : W)
      → client.update (record d { resource_version = version }) w ≡ (none, w')
      → (o : Object V) × (client.get d w' ≡ got o) × ReadsBack o d

module _ {W V : Type 0} (errors : ApiErrors) (client : ObjectClient W (Object V))
    (store : IsObjectStore client) (deep_equal : V → V → Bool)
    (deep_equal_refl : (v : V) → deep_equal v v ≡ true) (fields : Fields (Object V))
    (condition_type label : String) (success : Option String) where
  abbrev kind : Kind (Object V)
  kind = plain (object_fields deep_equal fields) condition_type label success

  module _ (d : Object V) (labels : HasDistinctKeys d.metadata.labels)
      (annotations : HasDistinctKeys d.metadata.annotations) where
    -- The object is there and needs no update.
    abbrev IsSettled : W → Type 0
    IsSettled w = (o : Object V) × (client.get d w ≡ got o) × (kind.needs_update o d ≡ false)

    ReadsBack-settled : (o : Object V) → ReadsBack o d → kind.needs_update o d ≡ false
    ReadsBack-settled o (l, a, c) =
        resource_needs_update-AreSame deep_equal deep_equal_refl o.metadata d.metadata
          (compared o.content d.content) labels annotations l a (same_content o.content d.content c)

    settled-again :
        (m : Manager) (w : W)
        → IsSettled w
        → ensure_got errors client kind false d (client.get d w) m w
          ≡ succeeded (announce errors client kind kind.success m) w
    settled-again m w (o, g, n) = rw (g, n) refl

    created :
        (r : Option Error × W) (m : Manager) (w : W)
        → client.create d w ≡ r
        → (written errors client kind "Failed to create " r m).error ≡ none
        → IsSettled (written errors client kind "Failed to create " r m).cluster
    created (none, w') m w h e =
        let (o, g, s) = store.get-create d w w' h in (o, g, ReadsBack-settled o s)
    created (some x, w') m w h e = absurd (ground (arith, e))

    updated :
        (existing : Object V) (r : Option Error × W) (m : Manager) (w : W)
        → client.update (kind.finish existing d) w ≡ r
        → (written errors client kind "Failed to update " r m).error ≡ none
        → IsSettled (written errors client kind "Failed to update " r m).cluster
    updated existing (none, w') m w h e =
        let (o, g, s) = store.get-update d existing.resource_version w w' h in
        (o, g, ReadsBack-settled o s)
    updated existing (some x, w') m w h e = absurd (ground (arith, e))

    got-IsSettled :
        (g : Got (Object V)) (m : Manager) (w : W)
        → client.get d w ≡ g
        → (ensure_got errors client kind false d g m w).error ≡ none
        → IsSettled (ensure_got errors client kind false d g m w).cluster
    got-IsSettled (get_failed x) m w h = elim (Bool-cases (errors.is_not_found x)) [
      | inl n ↦ rw n (created (client.create d w) m w refl)
      | inr n ↦ rw n (λ e. absurd (ground (arith, e)))
    ]
    got-IsSettled (got existing) m w h = elim (Bool-cases (kind.needs_update existing d)) [
      | inl n ↦ rw n (updated existing (client.update (kind.finish existing d) w) m w refl)
      | inr n ↦ rw n (λ e. (existing, h, n))
    ]

  -- Outside the create-only mode, a step on a service account, a role or a binding that returned no error has
  -- settled the object, whatever was stored before: run again, it writes nothing, returns no error and
  -- announces its success again. The API server reads back what was written, with labels and annotations of
  -- others added or not, the keys of the wanted labels and annotations are distinct, and deep equality is
  -- reflexive.
  pub ensure-twice :
      (desired d : Object V) (m m' : Manager) (w : W)
      → client.set_controller_reference desired ≡ done d
      → HasDistinctKeys d.metadata.labels
      → HasDistinctKeys d.metadata.annotations
      → (ensure errors client kind false desired m w).error ≡ none
      → ensure errors client kind false desired m'
          (ensure errors client kind false desired m w).cluster
        ≡ succeeded
            (announce errors client kind kind.success m')
            (ensure errors client kind false desired m w).cluster
  unfolding ensure
  ensure-twice desired d m m' w owned labels annotations = rw owned (λ e.
      settled-again d labels annotations m'
        (ensure_got errors client kind false d (client.get d w) m w).cluster
        (got-IsSettled d labels annotations (client.get d w) m w refl e))
