-- ===== src/Objects/Sound/Steps.antt =====
-- The other forms of a step on one object are sound.
use ocp_spire_operator.Prelude.{
  Bool, true, false, not, ◌≡◌, refl, inl, inr, String, Option, none, some, arith, if_cases,
  Bool-cases,
}
use ocp_spire_operator.Kube.{MetaCondition, Error, ApiErrors}
use ocp_spire_operator.Status.{Manager, is_skipped, progressing_reasons}
use ocp_spire_operator.Status.Health.{Got, got, get_failed}
use ocp_spire_operator.Ztwim.Operand.{string_to_bool, is_condition_true}
use ocp_spire_operator.Objects.{Attempt, done, failed, Outcome, Action, ObjectClient}
use ocp_spire_operator.Objects.Apply.{
  Hashed, with_hash, Applying, stored, get_refuses, apply_got, apply_owned, apply_object,
  apply_generated,
}
use ocp_spire_operator.Objects.Sync.{Syncing, Rest, synced, sync_got, sync_owned, sync_object}
use ocp_spire_operator.Objects.Routing.{
  Text, Routing, route_available, route_stored, route_got, route_generated, manage_route,
}
use ocp_spire_operator.Objects.Sound.{
  IsClean, IsSound, AlwaysSound, succeeded-IsSound, said-IsSound, fails-IsSound, proceed-IsSound,
}

module _ {W : Type 0} where
  pub with_hash-IsSound :
      (h : Hashed W) (rest : String → Action W)
      → IsSound h.outcome
      → ((hash : String) → AlwaysSound (rest hash))
      → IsSound (with_hash h rest)
  with_hash-IsSound h rest s k =
      proceed-IsSound h.outcome.error h.outcome (rest h.hash) s (k h.hash)

module _ {W O : Type 0} (errors : ApiErrors) (client : ObjectClient W O) (create_only : Bool) where
  -- The reasons report failures.
  abbrev IsLoud : Applying O → Type 0
  IsLoud a =
      (is_skipped a.condition_type ≡ false)
      × (progressing_reasons a.owner_reason ≡ false)
      × (progressing_reasons a.create_reason ≡ false)
      × (progressing_reasons a.update_reason ≡ false)

  -- A read that fails for another reason than a missing object adds a condition.
  abbrev IsReported : Option String → O → W → Type 0
  IsReported (some reason) d w = progressing_reasons reason ≡ false
  IsReported none d w = (e : Error) → client.get d w ≡ get_failed e → errors.is_not_found e ≡ true

  stored-IsSound :
      (t reason : String) (prefix : Option String) (r : Option Error × W) (rest : Action W)
      (m : Manager)
      → is_skipped t ≡ false
      → progressing_reasons reason ≡ false
      → AlwaysSound rest
      → IsClean m
      → IsSound (stored t reason prefix r rest m)
  stored-IsSound t reason prefix (none, w) rest m s p h c = h m w c
  stored-IsSound t reason prefix (some e, w) rest m s p h c = fails-IsSound t reason _ _ m w s p c

  refused-IsSound :
      (t : String) (r : Option String) (d : O) (e : Error) (m : Manager) (w : W)
      → client.get d w ≡ get_failed e
      → errors.is_not_found e ≡ false
      → is_skipped t ≡ false
      → IsReported r d w
      → IsClean m
      → IsSound (get_refuses t r e m w)
  refused-IsSound t (some reason) d e m w g n s l c = fails-IsSound t reason _ _ m w s l c
  refused-IsSound t none d e m w g n s l c = absurd (ground (arith, l e g, n))

  module _ (a : Applying O) (l : IsLoud a) where
    got-IsSound :
        (d : O) (g : Got O) (rest : Action W) (m : Manager) (w : W)
        → client.get d w ≡ g
        → IsReported a.get_reason d w
        → AlwaysSound rest
        → IsClean m
        → IsSound (apply_got errors client create_only a d g rest m w)
    got-IsSound d (got x) rest m w g r h c =
        if_cases (λ (o : Outcome W). IsSound o) (a.differs x d) _ _
          (if_cases (λ (o : Outcome W). IsSound o) create_only _ _ (h m w c)
            (stored-IsSound a.condition_type a.update_reason a.update_prefix
              (client.update (a.keep_version x d) w) rest m l.0 l.3 h c))
          (h m w c)
    got-IsSound d (get_failed e) rest m w g r h c = elim (Bool-cases (errors.is_not_found e)) [
      | inl n ↦ rw n (
          stored-IsSound a.condition_type a.create_reason a.create_prefix (client.create d w) rest m
            l.0 l.2 h c)
      | inr n ↦ rw n (refused-IsSound a.condition_type a.get_reason d e m w g n l.0 r c)
    ]

    pub apply_object-IsSound :
        (d : O) (rest : Action W) (m : Manager) (w : W)
        → ((d' : O) → client.set_controller_reference d ≡ done d' → IsReported a.get_reason d' w)
        → AlwaysSound rest
        → IsClean m
        → IsSound (apply_object errors client create_only a d rest m w)
    unfolding apply_object
    apply_object-IsSound d rest m w r k c = owned (client.set_controller_reference d) refl
      where
        owned :
            (x : Attempt O)
            → client.set_controller_reference d ≡ x
            → IsSound (apply_owned errors client create_only a x rest m w)
        owned (failed e) q = fails-IsSound a.condition_type a.owner_reason _ e m w l.0 l.1 c
        owned (done d') q = got-IsSound d' (client.get d' w) rest m w refl (r d' q) k c

    pub apply_generated-IsSound :
        (g : Attempt O) (rest : Action W) (m : Manager) (w : W)
        → ((d d' : O)
            → g ≡ done d
            → client.set_controller_reference d ≡ done d'
            → IsReported a.get_reason d' w)
        → AlwaysSound rest
        → IsClean m
        → IsSound (apply_generated errors client create_only a g rest m w)
    apply_generated-IsSound (failed e) rest m w r k c =
        fails-IsSound a.condition_type a.owner_reason _ e m w l.0 l.1 c
    apply_generated-IsSound (done d) rest m w r k c =
        apply_object-IsSound d rest m w (λ d' q. r d d' refl q) k c

  -- The reasons of a synchronised object report failures.
  abbrev IsAudible : Syncing O → Type 0
  IsAudible s =
      (is_skipped s.condition_type ≡ false)
      × (progressing_reasons s.owner_reason ≡ false)
      × (progressing_reasons s.get_reason ≡ false)
      × (progressing_reasons s.create_reason ≡ false)
      × (progressing_reasons s.update_reason ≡ false)

  module _ (s : Syncing O) (rest : Rest W) (l : IsAudible s) (created : AlwaysSound rest.created)
      (unchanged : AlwaysSound rest.unchanged) (updated : AlwaysSound rest.updated) where
    synced-IsSound :
        (reason title : String) (r : Option Error × W) (next : Action W) (m : Manager)
        → progressing_reasons reason ≡ false
        → AlwaysSound next
        → IsClean m
        → IsSound (synced s.condition_type reason title r next m)
    synced-IsSound reason title (none, w) next m p k c = k m w c
    synced-IsSound reason title (some e, w) next m p k c =
        fails-IsSound s.condition_type reason _ e m w l.0 p c

    sync_got-IsSound :
        (d : O) (g : Got O) (m : Manager) (w : W)
        → IsClean m
        → IsSound (sync_got errors client create_only s rest d g m w)
    sync_got-IsSound d (get_failed e) m w c =
        if_cases (λ (o : Outcome W). IsSound o) (not (errors.is_not_found e)) _ _
          (fails-IsSound s.condition_type s.get_reason _ e m w l.0 l.2 c)
          (synced-IsSound s.create_reason "" (client.create d w) rest.created m l.3 created c)
    sync_got-IsSound d (got x) m w c =
        if_cases (λ (o : Outcome W). IsSound o) (not (s.needs_update x (s.prepare x d))) _ _
          (unchanged m w c)
          (if_cases (λ (o : Outcome W). IsSound o) create_only _ _ (unchanged m w c)
            (synced-IsSound s.update_reason s.update_title
              (client.update (s.finish x (s.prepare x d)) w) rest.updated m l.4 updated c))

    pub sync_object-AlwaysSound :
        (d : O) → AlwaysSound (sync_object errors client create_only s rest d)
    unfolding sync_object
    sync_object-AlwaysSound d m w c = owned (client.set_controller_reference d)
      where
        owned : (x : Attempt O) → IsSound (sync_owned errors client create_only s rest x m w)
        owned (failed e) = fails-IsSound s.condition_type s.owner_reason _ e m w l.0 l.1 c
        owned (done d') = sync_got-IsSound d' (client.get d' w) m w c

  abbrev IsLoudRouting : Routing → Type 0
  IsLoudRouting t =
      (progressing_reasons t.create_reason ≡ false)
      × (progressing_reasons t.get_reason ≡ false)
      × (progressing_reasons t.update_reason ≡ false)

  module _ (t : Routing) (l : IsLoudRouting t) (conflict : O → O → Bool) (keep : O → O → O) where
    route_stored-IsSound :
        (reason : String) (ok : Text) (r : Option Error × W) (m : Manager)
        → progressing_reasons reason ≡ false
        → IsClean m
        → IsSound (route_stored reason ok r m)
    route_stored-IsSound reason ok (none, w) m p c = said-IsSound route_available _ _ _ m w refl c
    route_stored-IsSound reason ok (some e, w) m p c =
        fails-IsSound route_available reason _ e m w refl p c

    route_got-IsSound :
        (b : Bool) (d : O) (g : Got O) (m : Manager) (w : W)
        → IsClean m
        → IsSound (route_got errors client create_only t conflict keep b d g m w)
    route_got-IsSound b d (get_failed e) m w c =
        if_cases (λ (o : Outcome W). IsSound o) (errors.is_not_found e) _ _
          (route_stored-IsSound t.create_reason t.created (client.create d w) m l.0 c)
          (fails-IsSound route_available t.get_reason _ e m w refl l.1 c)
    route_got-IsSound b d (got x) m w c =
        if_cases (λ (o : Outcome W). IsSound o) (conflict x d) _ _
          (if_cases (λ (o : Outcome W). IsSound o) create_only _ _ (succeeded-IsSound m w c)
            (route_stored-IsSound t.update_reason t.updated (client.update (keep x d) w) m l.2 c))
          (if_cases (λ (o : Outcome W). IsSound o) (not b) _ _
            (said-IsSound route_available _ _ _ m w refl c) (succeeded-IsSound m w c))

    pub manage_route-AlwaysSound :
        (managed : String) (published : Option MetaCondition) (g : Attempt O)
        → AlwaysSound (manage_route errors client create_only t conflict keep managed published g)
    unfolding manage_route
    manage_route-AlwaysSound managed published g m w c =
        if_cases (λ (o : Outcome W). IsSound o) (string_to_bool managed) _ _ (generated g)
          (said-IsSound route_available _ _ _ m w refl c)
      where
        generated :
            (x : Attempt O)
            → IsSound (
                route_generated errors client create_only t conflict keep
                  (is_condition_true published)
                  x
                  m
                  w)
        generated (failed e) = fails-IsSound route_available t.create_reason _ e m w refl l.0 c
        generated (done d) =
            route_got-IsSound (is_condition_true published) d (client.get d w) m w c
