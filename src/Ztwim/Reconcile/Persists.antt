-- ===== src/Ztwim/Reconcile/Persists.antt =====
-- The statuses of the operands reach the API server.
use ocp_spire_operator.Prelude.{
  ℕ, ◌∙◌, ◌≡◌, ◌≢◌, inl, inr, refl, sym, ap, Bool, false, String, List, Option, none, some, arith,
  eq_iff, if_cases, ltb, nat_eq, ◌&&◌,
}
use ocp_spire_operator.Prelude.Text.{starts_as, append-starts_as}
use ocp_spire_operator.Prelude.Dict.{lookup}
use ocp_spire_operator.Kube.{
  ConditionStatus, condition_true, condition_false, MetaCondition, ApiErrors, ConditionsApi,
  IsConditionsApi,
}
use ocp_spire_operator.Status.{
  Condition, Manager, ready, create_only_mode, new_manager, add_condition, Ranges, IsRanges,
  StatusUpdate, apply_status, set_initial_reconciliation_status, reason_in_progress,
}
use ocp_spire_operator.Status.Ready.{lookup-add_condition, lookup-add_condition_self}
use ocp_spire_operator.Status.Publish.{
  IsKeyed, new_manager-IsKeyed, add_condition-IsKeyed, find_ready-apply_status, message-merged,
  apply_status_update,
}
use ocp_spire_operator.Status.Health.{got}
use ocp_spire_operator.Ztwim.Aggregate.{
  AggregateResult, add_operand_conditions, aggregate_operand_status, operand_statuses,
}
use ocp_spire_operator.Ztwim.Operand.{OperandStatus, is_condition_true}
use ocp_spire_operator.Ztwim.Aggregate.Verdict.{aggregated, Says, add_operand_conditions-Says}
use ocp_spire_operator.Ztwim.Reconcile.{
  ZtwimStatus, Client, Clock, reconcile, set_create_only_mode_condition, Run, run,
}

abbrev initial_message : String
initial_message = "Reconciling ZeroTrustWorkloadIdentityManager"

differs : (p t s : String) → starts_as p s ≡ false → Prim.Native.String.◌++◌ p t ≢ s
differs p t s h e = cc (append-starts_as p t s e)

ready_not_create_only : ready ≢ create_only_mode
ready_not_create_only h = cc ((eq_iff ready create_only_mode).1 h)

same_message : (c d : MetaCondition) → some d ≡ some c → d.message ≡ c.message
same_message c d h = cc

-- No verdict on the operands has the message of the start.
Says-message :
    (api : ConditionsApi) (os : List OperandStatus) (c : Condition)
    → Says api os c
    → c.message ≢ initial_message
Says-message api os c (inl (a, q)) e =
    differs "All components are ready" "" initial_message refl
      (ap (λ (d : Condition). d.message) (sym q) ∙ e)
Says-message api os c (inr (inl (w, b, q))) e =
    differs "Waiting for operands: " _ initial_message refl
      (ap (λ (d : Condition). d.message) (sym q) ∙ e)
Says-message api os c (inr (inr (b, q))) e =
    differs "Some operands not ready: " _ initial_message refl
      (ap (λ (d : Condition). d.message) (sym q) ∙ e)

-- The create-only condition leaves the others alone.
lookup-set_create_only_mode_condition :
    (b : Bool) (o : Option MetaCondition) (m : Manager) (t : String)
    → t ≢ create_only_mode
    → lookup t (set_create_only_mode_condition b o m).conditions ≡ lookup t m.conditions
unfolding set_create_only_mode_condition
lookup-set_create_only_mode_condition b o m t h =
    if_cases (λ (m' : Manager). lookup t m'.conditions ≡ lookup t m.conditions) b _ _
      (ground (
        arith,
        lookup-add_condition create_only_mode "CreateOnlyModeEnabled"
            "Create-only mode is enabled: Updates are not reconciled to existing resources" t
            condition_true m,
        eq_iff create_only_mode t,
      ))
      (if_cases (λ (m' : Manager). lookup t m'.conditions ≡ lookup t m.conditions)
        (is_condition_true o) _ _
        (ground (
          arith,
          lookup-add_condition create_only_mode "CreateOnlyModeDisabled"
              "Create-only mode is disabled" t condition_false m,
          eq_iff create_only_mode t,
        ))
        refl)

set_create_only_mode_condition-IsKeyed :
    (b : Bool) (o : Option MetaCondition) (m : Manager)
    → IsKeyed m.conditions
    → IsKeyed (set_create_only_mode_condition b o m).conditions
unfolding set_create_only_mode_condition
set_create_only_mode_condition-IsKeyed b o m keyed =
    if_cases (λ (m' : Manager). IsKeyed m'.conditions) b _ _ (add_condition-IsKeyed _ _ _ _ m keyed)
      (if_cases (λ (m' : Manager). IsKeyed m'.conditions) (is_condition_true o) _ _
        (add_condition-IsKeyed _ _ _ _ m keyed) keyed)

add_operand_conditions-IsKeyed :
    (api : ConditionsApi) (result : AggregateResult) (m : Manager)
    → IsKeyed m.conditions
    → IsKeyed (add_operand_conditions api result m).conditions
unfolding add_operand_conditions
add_operand_conditions-IsKeyed api result m keyed =
    if_cases (λ (m' : Manager). IsKeyed m'.conditions) result.all_ready _ _ (twice _ _ _ _ _ _ _ _)
      (if_cases (λ (m' : Manager). IsKeyed m'.conditions)
        (ltb 0 result.not_created_count && nat_eq result.failed_count 0) _ _ (twice _ _ _ _ _ _ _ _)
        (twice _ _ _ _ _ _ _ _))
  where
    twice :
        (t reason message : String) (status : ConditionStatus) (u s n : String)
        (v : ConditionStatus)
        → IsKeyed (add_condition t reason message status (add_condition u s n v m)).conditions
    twice t reason message status u s n v =
        add_condition-IsKeyed t reason message status (add_condition u s n v m)
          (add_condition-IsKeyed u s n v m keyed)

module _ {W : Type 0} (errors : ApiErrors) (api : ConditionsApi) (laws : IsConditionsApi api)
    (r : Ranges) (ranges : IsRanges r) (client : Client W) (clock : Clock)
    (create_only_env operator_condition_name : String) (config : ZtwimStatus) (w : W) where
  abbrev this_run : Run W
  this_run = run errors api r client clock create_only_env operator_condition_name config w

  -- The message of a Ready condition that a manager published.
  message_of_published :
      (status_update : StatusUpdate W) (now : String → ℕ) (m : Manager)
      (original : List MetaCondition) (v : W) (d : Condition)
      → IsKeyed m.conditions
      → lookup ready m.conditions ≡ some d
      → (c : MetaCondition) × (api.find
            (apply_status api r status_update now m original v).conditions
            ready
          ≡ some c)
        × (c.message ≡ d.message)
  message_of_published status_update now m original v d keyed h = (
    _,
    find_ready-apply_status api laws r ranges status_update now m original v d keyed h,
    message-merged _ _,
  )

  started_message :
      (c : MetaCondition) × (api.find this_run.started.conditions ready ≡ some c)
      × (c.message ≡ initial_message)
  unfolding run set_initial_reconciliation_status
  started_message =
      message_of_published (client.update_ztwim_status config.operands) clock.initial _
        config.conditions w _
        (add_condition-IsKeyed ready reason_in_progress initial_message condition_false new_manager
          new_manager-IsKeyed)
        (lookup-add_condition_self ready reason_in_progress initial_message condition_false
          new_manager)

  finished_message :
      (c : MetaCondition) × (api.find this_run.finished.conditions ready ≡ some c)
      × (c.message ≢ initial_message)
  unfolding run aggregate_operand_status
  finished_message =
      let reads = client.get_operands this_run.started.cluster in
      let os = operand_statuses errors api reads in
      let (d, e, says) = add_operand_conditions-Says api os new_manager in
      let keyed =
        add_operand_conditions-IsKeyed api (aggregated api os) new_manager new_manager-IsKeyed in
      let (c, p, q) =
        message_of_published (client.update_ztwim_status os) clock.final this_run.manager
          this_run.started.conditions this_run.before_final d
          (set_create_only_mode_condition-IsKeyed _ _ _ keyed)
          (lookup-set_create_only_mode_condition _ _ _ ready ready_not_create_only ∙ e) in
      (c, p, λ h. Says-message api os d says (sym q ∙ h))

  -- Where the ZTWIM resource exists, its status is sent to the API server at the end of every
  -- reconciliation, with the statuses of the operands that this reconciliation has read: the
  -- conditions always differ from those of the start, which is all that `ApplyStatus` looks at.
  pub reconcile_persists_operands :
      client.get_ztwim w ≡ got config
      → reconcile errors api r client clock create_only_env operator_condition_name w ≡ (
        none,
        (client.update_ztwim_status this_run.result.operand_statuses this_run.finished.conditions
            this_run.before_final).1,
      )
  unfolding reconcile run
  reconcile_persists_operands present =
      let (c, p, q) = started_message in
      let (d, p', q') = finished_message in
      elim (apply_status_update api laws r ranges
        (client.update_ztwim_status this_run.result.operand_statuses) clock.final this_run.manager
        this_run.started.conditions this_run.before_final) [
          | inl (same, unchanged, no_error) ↦
              absurd (q' (same_message c d (sym p' ∙ ap (λ cs. api.find cs ready) same ∙ p) ∙ q))
          | inr (differ, cluster, error) ↦ rw (present, reconcile) (ap (λ v. (none, v)) cluster)
        ]
