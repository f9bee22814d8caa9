-- ===== src/Reconciler/Published.antt =====
-- The status that a reconciliation publishes when it returns an error.
use ocp_spire_operator.Prelude.{
  ℕ, true, ◌≡◌, refl, ◌∙◌, inl, inr, String, List, Option, none, some, arith, Bool-cases,
}
use ocp_spire_operator.Prelude.Dict.{lookup}
use ocp_spire_operator.Kube.{
  condition_false, MetaCondition, Error, ApiErrors, ConditionsApi, IsConditionsApi, merged,
}
use ocp_spire_operator.Status.{
  Condition, Manager, new_manager, ready, Ranges, IsRanges, StatusUpdate, with_ready, new_condition,
  apply_status,
}
use ocp_spire_operator.Status.Publish.{IsKeyed, find-apply_status, manager-apply_status}
use ocp_spire_operator.Status.Health.{Got, got, get_failed}
use ocp_spire_operator.Owners.{needs_owner_reference_update}
use ocp_spire_operator.Objects.{Attempt, done, failed, Outcome, Action}
use ocp_spire_operator.Objects.Sound.{IsClean, new_manager-IsClean}
use ocp_spire_operator.Reconciler.{
  Ztwim, Resource, ResourceCalls, Clocks, updated, owned, read_ztwim, body, started,
  started_resource, run,
}
use ocp_spire_operator.Reconciler.Accounted.{
  IsAccounted, AlwaysAccounted, ready_of_failure, reported-IsNotReady,
}

ready_kept :
    (r : Ranges) (m : Manager) (c : Condition)
    → lookup ready m.conditions ≡ some c
    → lookup ready (with_ready (r.scan m.conditions) m).conditions ≡ some c
unfolding with_ready
ready_kept r m c q = rw q q

pub status-merged : (o : Option MetaCondition) (c : MetaCondition) → (merged o c).status ≡ c.status
status-merged none c = refl
status-merged (some d) c = refl

module _ {W : Type 0} (api : ConditionsApi) (laws : IsConditionsApi api) (r : Ranges)
    (ranges : IsRanges r) (update : StatusUpdate W) (now : String → ℕ) where
  -- The Ready condition that the manager has in the end is published.
  pub ready_published :
      (m : Manager) (original : List MetaCondition) (w : W) (c : Condition)
      → IsKeyed m.conditions
      → lookup ready (with_ready (r.scan m.conditions) m).conditions ≡ some c
      → api.find (apply_status api r update now m original w).conditions ready
        ≡ some (merged (api.find original ready) (new_condition now c))
  ready_published m original w c k l =
      find-apply_status api laws r ranges update now m original w ready k
      ∙ rw (manager-apply_status api laws r ranges update now m original w, l) refl

  published_not_ready :
      (o : Outcome W) (original : List MetaCondition) (e : Error)
      → o.error ≡ some e
      → IsAccounted o
      → (c : MetaCondition) × (api.find
            (apply_status api r update now o.manager original o.cluster).conditions
            ready
          ≡ some c)
        × (c.status ≡ condition_false)
  published_not_ready o original e h (inl n) = absurd (ground (arith, h, n))
  published_not_ready o original e h (inr (inl ((k, l), f))) =
      let (c, q, z) = ready_of_failure r ranges o.manager l f in
      (
        _,
        ready_published o.manager original o.cluster c k q,
        status-merged _ (new_condition now c) ∙ z,
      )
  published_not_ready o original e h (inr (inr (k, (c, q, z)))) = (
    _,
    ready_published o.manager original o.cluster c k (ready_kept r o.manager c q),
    status-merged _ (new_condition now c) ∙ z,
  )

module _ {W S : Type 0} (errors : ApiErrors) (api : ConditionsApi) (r : Ranges) (x : Resource S)
    (calls : ResourceCalls W S) (clocks : Clocks) (configured : S → Ztwim → Action W) where
  module _ (accounted : (s : S) (ztwim : Ztwim) → AlwaysAccounted (configured s ztwim))
      (reads_ztwim : (w : W) (e : Error)
        → calls.get_ztwim w ≡ get_failed e
        → errors.is_not_found e ≡ true) where
    updated-IsAccounted :
        (ztwim : Ztwim) (s : S) (u : Attempt S × W) (m : Manager)
        → IsClean m
        → IsAccounted (updated errors api r x calls clocks configured ztwim s u m).outcome
    updated-IsAccounted ztwim s (done s', w) m c = accounted s' ztwim m w c
    updated-IsAccounted ztwim s (failed e, w) m c = inr (inr (reported-IsNotReady _ m c.0))

    owned-IsAccounted :
        (ztwim : Ztwim) (s : S) (a : Attempt S) (m : Manager) (w : W)
        → IsClean m
        → IsAccounted (owned errors api r x calls clocks configured ztwim s a m w).outcome
    owned-IsAccounted ztwim s (done s') m w c =
        updated-IsAccounted ztwim s' (calls.update_resource s' w) m c
    owned-IsAccounted ztwim s (failed e) m w c = inr (inr (reported-IsNotReady _ m c.0))

    read-IsAccounted :
        (s : S) (g : Got Ztwim) (m : Manager) (w : W)
        → calls.get_ztwim w ≡ g
        → IsClean m
        → IsAccounted (read_ztwim errors api r x calls clocks configured s g m w).outcome
    read-IsAccounted s (get_failed e) m w q c = rw (reads_ztwim w e q) (inl refl)
    read-IsAccounted s (got z) m w q c =
        elim (Bool-cases (needs_owner_reference_update (x.owners s) z.identity)) [
          | inl n ↦ rw n (owned-IsAccounted z s (calls.set_owner z s) m w c)
          | inr n ↦ rw n (accounted s z m w c)
        ]

    body-IsAccounted :
        (s : S) (w : W) → IsAccounted (body errors api r x calls clocks configured s w).outcome
    unfolding body
    body-IsAccounted s w =
        read-IsAccounted s (calls.get_ztwim w) new_manager w refl new_manager-IsClean

    -- Where what follows the settled owner accounts for its errors, a reconciliation that returns an
    -- error publishes Ready as False.
    pub run-not_ready :
        IsConditionsApi api
        → IsRanges r
        → (s : S) (w : W) (e : Error)
        → (run errors api r x calls clocks configured s w).result.outcome.error ≡ some e
        → (c : MetaCondition) × (api.find
              (run errors api r x calls clocks configured s w).finished.conditions
              ready
            ≡ some c)
          × (c.status ≡ condition_false)
    unfolding run
    run-not_ready laws ranges s w e h =
        let w1 = (started errors api r x calls clocks configured s w).cluster in
        let s1 = started_resource errors api r x calls clocks configured s w in
        let b = body errors api r x calls clocks configured s1 w1 in
        published_not_ready api laws r ranges (calls.update_status b.resource) clocks.final_clock
          b.outcome (x.conditions b.resource) e h (body-IsAccounted s1 w1)
