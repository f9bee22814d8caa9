-- ===== src/Objects/CreateOnly.antt =====
-- The create-only mode for one object.
use ocp_spire_operator.Prelude.{
  true, ◌≡◌, refl, ◌⊎◌, inl, inr, String, Option, none, some, Bool-cases,
}
use ocp_spire_operator.Kube.{Error, ApiErrors}
use ocp_spire_operator.Status.{Manager}
use ocp_spire_operator.Status.Health.{Got, got, get_failed}
use ocp_spire_operator.Objects.{
  Attempt, done, failed, ObjectClient, Kind, written, ensure_got, ensure_owned, ensure,
}

module _ {W O : Type 0} (errors : ApiErrors) (client : ObjectClient W O) (kind : Kind O) where
  -- The wanted object does not exist, and creating it leads to the cluster `w'`.
  abbrev pub IsCreation : Attempt O → W → W → Type 0
  IsCreation (failed e) w w' = ⊥
  IsCreation (done d) w w' =
      (e : Error) × (client.get d w ≡ get_failed e)
      × (errors.is_not_found e ≡ true)
      × (w' ≡ (client.create d w).1)

  cluster-written :
      (what : String) (r : Option Error × W) (m : Manager)
      → (written errors client kind what r m).cluster ≡ r.1
  cluster-written what (none, w) m = refl
  cluster-written what (some e, w) m = refl

  got_create_only :
      (d : O) (g : Got O) (m : Manager) (w : W)
      → client.get d w ≡ g
      → ((ensure_got errors client kind true d g m w).cluster ≡ w)
        ⊎ IsCreation (done d) w (ensure_got errors client kind true d g m w).cluster
  got_create_only d (got existing) m w h = inl refl
  got_create_only d (get_failed e) m w h = elim (Bool-cases (errors.is_not_found e)) [
    | inl n ↦ rw n (inr (e, h, n, cluster-written "Failed to create " (client.create d w) m))
    | inr n ↦ rw n (inl refl)
  ]

  -- In create-only mode the cluster is left as it is, or the object did not exist and is created:
  -- nothing is ever updated.
  pub ensure-create_only :
      (desired : O) (m : Manager) (w : W)
      → ((ensure errors client kind true desired m w).cluster ≡ w)
        ⊎ IsCreation
            (client.set_controller_reference desired)
            w
            (ensure errors client kind true desired m w).cluster
  unfolding ensure
  ensure-create_only desired m w = owned (client.set_controller_reference desired)
    where
      owned :
          (a : Attempt O)
          → ((ensure_owned errors client kind true a m w).cluster ≡ w)
            ⊎ IsCreation a w (ensure_owned errors client kind true a m w).cluster
      owned (failed e) = inl refl
      owned (done d) = got_create_only d (client.get d w) m w refl
