-- ===== src/Reconciler/Unread.antt =====
-- The status that a reconciliation publishes when it cannot read the ZTWIM resource.
use ocp_spire_operator.Prelude.{false, ◌≡◌, refl, ap, ◌∙◌, inl, inr, String, none, some, arith}
use ocp_spire_operator.Prelude.Dict.{lookup}
use ocp_spire_operator.Kube.{
  condition_true, MetaCondition, Error, ApiErrors, ConditionsApi, IsConditionsApi,
}
use ocp_spire_operator.Status.{
  Condition, new_manager, ready, reason_ready, Ranges, IsRanges, with_ready, new_condition,
}
use ocp_spire_operator.Status.Ready.{lookup-set_ready_condition, ready_condition}
use ocp_spire_operator.Status.Verdict.{IsVerdict, set_ready_condition-IsVerdict}
use ocp_spire_operator.Status.Publish.{new_manager-IsKeyed, message-merged}
use ocp_spire_operator.Status.Health.{get_failed}
use ocp_spire_operator.Objects.{Action}
use ocp_spire_operator.Reconciler.{
  Ztwim, Resource, ResourceCalls, Clocks, body, started, started_resource, run,
}
use ocp_spire_operator.Reconciler.Published.{status-merged, ready_published}

lookup-new_manager : (t : String) → lookup t new_manager.conditions ≡ none
unfolding lookup
lookup-new_manager t = refl

all_ready : Condition
all_ready = ready_condition reason_ready condition_true "All components are ready"

verdict_of_none : (x : Condition) → IsVerdict new_manager x → x ≡ all_ready
unfolding all_ready
verdict_of_none x (inl (_, _, e)) = e
verdict_of_none x (inr (inl (_, (t, c, l, p, e)))) =
    absurd (ground (arith, l, lookup-new_manager t))
verdict_of_none x (inr (inr (t, c, l, p, e))) = absurd (ground (arith, l, lookup-new_manager t))

ready_of_none :
    (r : Ranges)
    → IsRanges r
    → lookup ready (with_ready (r.scan new_manager.conditions) new_manager).conditions
      ≡ some all_ready
unfolding with_ready
ready_of_none r ranges =
    let q = lookup-set_ready_condition (r.scan new_manager.conditions) new_manager in
    rw (lookup-new_manager ready) (
      q
      ∙ ap some (
          verdict_of_none _
            (set_ready_condition-IsVerdict (ranges.scan_range new_manager.conditions) _ q)))

module _ {W S : Type 0} (errors : ApiErrors) (api : ConditionsApi) (r : Ranges) (x : Resource S)
    (calls : ResourceCalls W S) (clocks : Clocks) (configured : S → Ztwim → Action W) where
  body-read_failure :
      (s : S) (w : W) (e : Error)
      → calls.get_ztwim w ≡ get_failed e
      → errors.is_not_found e ≡ false
      → body errors api r x calls clocks configured s w ≡ record {
        resource = s;
        outcome = record { error = some e; manager = new_manager; cluster = w };
      }
  unfolding body
  body-read_failure s w e h n = rw (h, n) refl

  -- Whatever the controller does with its resource: a read of the ZTWIM resource that fails, and not
  -- because it does not exist, is returned as the error of the reconciliation, while Ready is
  -- published as True with the message that all components are ready.
  pub read_failure-ready :
      IsConditionsApi api
      → IsRanges r
      → (s : S) (w : W) (e : Error)
      → calls.get_ztwim (started errors api r x calls clocks configured s w).cluster ≡ get_failed e
      → errors.is_not_found e ≡ false
      → ((run errors api r x calls clocks configured s w).result.outcome.error ≡ some e)
        × ((c : MetaCondition) × (api.find
                (run errors api r x calls clocks configured s w).finished.conditions
                ready
              ≡ some c)
            × (c.status ≡ condition_true)
            × (c.message ≡ "All components are ready"))
  unfolding run all_ready
  read_failure-ready laws ranges s w e h n =
      let s1 = started_resource errors api r x calls clocks configured s w in
      let w1 = (started errors api r x calls clocks configured s w).cluster in
      let q =
        ready_published api laws r ranges (calls.update_status s1) clocks.final_clock new_manager
          (x.conditions s1) w1 all_ready new_manager-IsKeyed (ready_of_none r ranges) in
      rw (body-read_failure s1 w1 e h n) (
        refl,
        (
          _,
          q,
          status-merged _ (new_condition clocks.final_clock all_ready),
          message-merged _ (new_condition clocks.final_clock all_ready),
        ),
      )
