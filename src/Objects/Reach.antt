-- ===== src/Objects/Reach.antt =====
-- What the steps write to the cluster in create-only mode, as a relation of the clusters before and after.
use ocp_spire_operator.Prelude.{Bool, true, not, ◌≡◌, String, Option, none, some, if_cases}
use ocp_spire_operator.Kube.{MetaCondition, Error, ApiErrors}
use ocp_spire_operator.Status.{Manager}
use ocp_spire_operator.Status.Health.{Got, got, get_failed}
use ocp_spire_operator.Ztwim.Operand.{string_to_bool, is_condition_true}
use ocp_spire_operator.Objects.{
  Attempt, done, failed, Outcome, Action, proceed, ◌andthen◌, ObjectClient, Kind, written,
  ensure_got, ensure_owned, ensure,
}
use ocp_spire_operator.Objects.Apply.{
  Hashed, with_hash, Applying, stored, get_refuses, apply_got, apply_owned, apply_object,
  apply_generated,
}
use ocp_spire_operator.Objects.Sync.{Syncing, Rest, synced, sync_got, sync_owned, sync_object}
use ocp_spire_operator.Objects.Routing.{
  Text, Routing, route_stored, route_got, route_generated, manage_route,
}

-- `Reach client w w'`: calls of `Create` alone lead from the cluster `w` to `w'`.
pub data Reach {W O : Type 0} (client : ObjectClient W O) (w : W) : W → Type 0 where
  here : Reach client w w
  creating : {v : W} → Reach client w v → (d : O) → Reach client w (client.create d v).1

module _ {W O : Type 0} (client : ObjectClient W O) where
  Reach-trans : {u v w : W} → Reach client u v → Reach client v w → Reach client u w
  Reach-trans h here = h
  Reach-trans h (creating k d) = creating (Reach-trans h k) d

  -- What `Create` keeps, all of it keeps.
  pub Reach-keeps :
      {v w : W} (P : W → Type 0)
      → ((d : O) (u : W) → P u → P (client.create d u).1)
      → Reach client v w
      → P v
      → P w
  Reach-keeps P closed here p = p
  Reach-keeps P closed (creating k d) p = closed d _ (Reach-keeps P closed k p)

  -- An action that only creates.
  pub record Creates (a : Action W) : Type 0 where
    pub creates : (m : Manager) (w : W) → Reach client w (a m w).cluster

  pub idle : {a : Action W} → ((m : Manager) (w : W) → (a m w).cluster ≡ w) → Creates a
  idle {a} h = record { creates = λ m w. rw (h m w) here }

  proceed-Creates :
      (w : W) (e : Option Error) (o : Outcome W) (b : Action W)
      → Reach client w o.cluster
      → Creates b
      → Reach client w (proceed e o b).cluster
  proceed-Creates w none o b h k = Reach-trans h (k.creates o.manager o.cluster)
  proceed-Creates w (some e) o b h k = h

  pub andthen-Creates : (a b : Action W) → Creates a → Creates b → Creates (a andthen b)
  andthen-Creates a b h k = record {
    creates = λ m w. proceed-Creates w (a m w).error (a m w) b (h.creates m w) k;
  }

  pub with_hash-Creates :
      (w : W) (h : Hashed W) (rest : String → Action W)
      → Reach client w h.outcome.cluster
      → ((hash : String) → Creates (rest hash))
      → Reach client w (with_hash h rest).cluster
  with_hash-Creates w h rest s k =
      proceed-Creates w h.outcome.error h.outcome (rest h.hash) s (k h.hash)

  abbrev Reaches : W → Outcome W → Type 0
  Reaches w o = Reach client w o.cluster

module _ {W O : Type 0} (errors : ApiErrors) (client : ObjectClient W O) where
  module _ (kind : Kind O) where
    written-Reaches :
        (w : W) (what : String) (r : Option Error × W) (m : Manager)
        → Reach client w r.1
        → Reaches client w (written errors client kind what r m)
    written-Reaches w what (none, v) m h = h
    written-Reaches w what (some e, v) m h = h

    ensure-Reaches :
        (d : O) (m : Manager) (w : W) → Reaches client w (ensure errors client kind true d m w)
    unfolding ensure
    ensure-Reaches d m w = owned (client.set_controller_reference d)
      where
        read : (x : O) (g : Got O) → Reaches client w (ensure_got errors client kind true x g m w)
        read x (got y) = here
        read x (get_failed e) =
            if_cases (λ (o : Outcome W). Reaches client w o) (not (errors.is_not_found e)) _ _ here
              (written-Reaches w "Failed to create " (client.create x w) m (creating here x))

        owned : (a : Attempt O) → Reaches client w (ensure_owned errors client kind true a m w)
        owned (failed e) = here
        owned (done x) = read x (client.get x w)

    pub ensure-Creates : (d : O) → Creates client (ensure errors client kind true d)
    ensure-Creates d = record { creates = ensure-Reaches d }

  module _ (a : Applying O) where
    stored-Reaches :
        (w : W) (t reason : String) (prefix : Option String) (r : Option Error × W)
        (rest : Action W) (m : Manager)
        → Reach client w r.1
        → Creates client rest
        → Reaches client w (stored t reason prefix r rest m)
    stored-Reaches w t reason prefix (none, v) rest m h k = Reach-trans client h (k.creates m v)
    stored-Reaches w t reason prefix (some e, v) rest m h k = h

    refused-Reaches :
        (t : String) (r : Option String) (e : Error) (m : Manager) (w : W)
        → Reaches client w (get_refuses t r e m w)
    refused-Reaches t none e m w = here
    refused-Reaches t (some reason) e m w = here

    apply_got-Reaches :
        (d : O) (g : Got O) (rest : Action W) (m : Manager) (w : W)
        → Creates client rest
        → Reaches client w (apply_got errors client true a d g rest m w)
    apply_got-Reaches d (got x) rest m w k =
        if_cases (λ (o : Outcome W). Reaches client w o) (a.differs x d) _ _ (k.creates m w)
          (k.creates m w)
    apply_got-Reaches d (get_failed e) rest m w k =
        if_cases (λ (o : Outcome W). Reaches client w o) (errors.is_not_found e) _ _
          (stored-Reaches w a.condition_type a.create_reason a.create_prefix (client.create d w)
            rest m (creating here d) k)
          (refused-Reaches a.condition_type a.get_reason e m w)

    pub apply_object-Reach :
        (d : O) (rest : Action W) (m : Manager) (w : W)
        → Creates client rest
        → Reaches client w (apply_object errors client true a d rest m w)
    unfolding apply_object
    apply_object-Reach d rest m w k = owned (client.set_controller_reference d)
      where
        owned : (x : Attempt O) → Reaches client w (apply_owned errors client true a x rest m w)
        owned (failed e) = here
        owned (done x) = apply_got-Reaches x (client.get x w) rest m w k

    pub apply_generated-Reach :
        (g : Attempt O) (rest : Action W) (m : Manager) (w : W)
        → Creates client rest
        → Reaches client w (apply_generated errors client true a g rest m w)
    apply_generated-Reach (failed e) rest m w k = here
    apply_generated-Reach (done d) rest m w k = apply_object-Reach d rest m w k

  module _ (s : Syncing O) (rest : Rest W) (created : Creates client rest.created)
      (unchanged : Creates client rest.unchanged) where
    synced-Reaches :
        (w : W) (t reason title : String) (r : Option Error × W) (next : Action W) (m : Manager)
        → Reach client w r.1
        → Creates client next
        → Reaches client w (synced t reason title r next m)
    synced-Reaches w t reason title (none, v) next m h k = Reach-trans client h (k.creates m v)
    synced-Reaches w t reason title (some e, v) next m h k = h

    sync_got-Reaches :
        (d : O) (g : Got O) (m : Manager) (w : W)
        → Reaches client w (sync_got errors client true s rest d g m w)
    sync_got-Reaches d (get_failed e) m w =
        if_cases (λ (o : Outcome W). Reaches client w o) (not (errors.is_not_found e)) _ _ here
          (synced-Reaches w s.condition_type s.create_reason "" (client.create d w) rest.created m
            (creating here d) created)
    sync_got-Reaches d (got x) m w =
        if_cases (λ (o : Outcome W). Reaches client w o) (not (s.needs_update x (s.prepare x d))) _
          _ (unchanged.creates m w) (unchanged.creates m w)

    sync_object-Reaches :
        (d : O) (m : Manager) (w : W)
        → Reaches client w (sync_object errors client true s rest d m w)
    unfolding sync_object
    sync_object-Reaches d m w = owned (client.set_controller_reference d)
      where
        owned : (x : Attempt O) → Reaches client w (sync_owned errors client true s rest x m w)
        owned (failed e) = here
        owned (done x) = sync_got-Reaches x (client.get x w) m w

    pub sync_object-Creates : (d : O) → Creates client (sync_object errors client true s rest d)
    sync_object-Creates d = record { creates = sync_object-Reaches d }

  module _ (t : Routing) (conflict : O → O → Bool) (keep : O → O → O) where
    route_stored-Reaches :
        (w : W) (reason : String) (ok : Text) (r : Option Error × W) (m : Manager)
        → Reach client w r.1
        → Reaches client w (route_stored reason ok r m)
    route_stored-Reaches w reason ok (none, v) m h = h
    route_stored-Reaches w reason ok (some e, v) m h = h

    route_got-Reaches :
        (b : Bool) (d : O) (g : Got O) (m : Manager) (w : W)
        → Reaches client w (route_got errors client true t conflict keep b d g m w)
    route_got-Reaches b d (get_failed e) m w =
        if_cases (λ (o : Outcome W). Reaches client w o) (errors.is_not_found e) _ _
          (route_stored-Reaches w t.create_reason t.created (client.create d w) m (creating here d))
          here
    route_got-Reaches b d (got x) m w =
        if_cases (λ (o : Outcome W). Reaches client w o) (conflict x d) _ _ here
          (if_cases (λ (o : Outcome W). Reaches client w o) (not b) _ _ here here)

    manage_route-Reaches :
        (managed : String) (published : Option MetaCondition) (g : Attempt O) (m : Manager) (w : W)
        → Reaches client w (manage_route errors client true t conflict keep managed published g m w)
    unfolding manage_route
    manage_route-Reaches managed published g m w =
        if_cases (λ (o : Outcome W). Reaches client w o) (string_to_bool managed) _ _ (generated g)
          here
      where
        generated :
            (x : Attempt O)
            → Reaches client w (
                route_generated errors client true t conflict keep
                  (is_condition_true published)
                  x
                  m
                  w)
        generated (failed e) = here
        generated (done d) = route_got-Reaches (is_condition_true published) d (client.get d w) m w

    pub manage_route-Creates :
        (managed : String) (published : Option MetaCondition) (g : Attempt O)
        → Creates client (manage_route errors client true t conflict keep managed published g)
    manage_route-Creates managed published g = record {
      creates = manage_route-Reaches managed published g;
    }
