-- ===== src/Ztwim/Aggregate/Verdict.antt =====
-- The conditions that `Reconcile` derives from the aggregated statuses of the operands.
use ocp_spire_operator.Prelude.{
  ℕ, ◌+◌, ◌<◌, ◌≡◌, ◌↔◌, ◌⊎◌, inl, inr, refl, true, false, ◌&&◌, String, List, some, arith, ltb,
  nat_eq, count_of, all_of, All, Bool-cases,
}
use ocp_spire_operator.Prelude.Text.{print_list}
use ocp_spire_operator.Prelude.Dict.{lookup}
use ocp_spire_operator.Status.Health.{Got}
use ocp_spire_operator.Kube.{
  MetaCondition, condition_true, condition_false, ApiErrors, ConditionsApi, IsConditionsApi,
}
use ocp_spire_operator.Status.{
  Condition, Manager, ready, reason_ready, reason_in_progress, reason_failed,
}
use ocp_spire_operator.Status.Ready.{lookup-add_condition_self, ready_condition}
use ocp_spire_operator.Ztwim.Operand.{OperandStatus, string_to_bool, get_operand_status}
use ocp_spire_operator.Ztwim.Operand.Laws.{IsUp, get_operand_status_ready_iff}
use ocp_spire_operator.Ztwim.Aggregate.{
  AggregateResult, Reads, initial_state, process_operands, pending_operands, unhealthy_operands,
  add_operand_conditions, operand_statuses, aggregate_operand_status,
}
use ocp_spire_operator.Ztwim.Aggregate.Counts.{
  is_waiting, is_broken, process_operands_counts, none_counted, all_counted, all_of-All,
}
use Prim.Native.String.{◌++◌ as concat}

module _ (api : ConditionsApi) where
  abbrev pub aggregated : List OperandStatus → AggregateResult
  aggregated os = record { operand_statuses = os; state = process_operands api os initial_state }

  -- What the Ready condition of the ZTWIM resource says of its operands.
  abbrev pub Says : List OperandStatus → Condition → Type 0
  Says os c =
      (All (λ o. string_to_bool o.ready ≡ true) os
        × (c ≡ ready_condition reason_ready condition_true "All components are ready"))
      ⊎ ((0 < count_of (is_waiting api) os)
          × (count_of (is_broken api) os ≡ 0)
          × (c
              ≡ ready_condition reason_in_progress condition_false
                  (concat "Waiting for operands: " (print_list (pending_operands api os)))))
      ⊎ ((0 < count_of (is_broken api) os)
          × (c
              ≡ ready_condition reason_failed condition_false
                  (concat "Some operands not ready: " (print_list (unhealthy_operands api os)))))

  -- The Ready condition is True where every operand is ready; it is False with reason Progressing, and
  -- lists the pending operands, where some operand is not ready and every such operand is
  -- progressing; and it is False with reason Failed, and lists the failed operands, where an operand
  -- is neither ready nor progressing.
  pub add_operand_conditions-Says :
      (os : List OperandStatus) (m : Manager)
      → (c : Condition) × (lookup ready (add_operand_conditions api (aggregated os) m).conditions
          ≡ some c)
        × Says os c
  unfolding add_operand_conditions
  add_operand_conditions-Says os m =
      rw process_operands_counts (elim (Bool-cases (all_of (λ o. string_to_bool o.ready) os)) [
        | inl h ↦ rw h (_, lookup-add_condition_self ready _ _ _ _, inl (all_of-All _ os h, refl))
        | inr h ↦ elim (Bool-cases (ltb 0 (0 + waiting) && nat_eq (0 + broken) 0)) [
          | inl p ↦
              rw (h, p)
                (
                  _,
                  lookup-add_condition_self ready _ _ _ _,
                  inr (inl (ground arith, ground arith, refl)),
                )
          | inr p ↦
              rw (h, p) (_, lookup-add_condition_self ready _ _ _ _, inr (inr (positive h p, refl)))
        ]
      ])
    where
      waiting : ℕ
      waiting = count_of (is_waiting api) os

      broken : ℕ
      broken = count_of (is_broken api) os

      positive :
          all_of (λ o. string_to_bool o.ready) os ≡ false
          → (ltb 0 (0 + waiting) && nat_eq (0 + broken) 0) ≡ false
          → 0 < broken
      positive h p = ground (arith, none_counted api os)

module _ (errors : ApiErrors) (api : ConditionsApi) (laws : IsConditionsApi api) where
  abbrev pub AllUp : Reads → Type 0
  AllUp r =
      IsUp api r.spire_server
      × IsUp api r.spire_agent
      × IsUp api r.spiffe_csi_driver
      × IsUp api r.spire_oidc_discovery_provider

  IsUp-iff :
      (kind : String) (g : Got (List MetaCondition))
      → (string_to_bool (get_operand_status errors api kind g).ready ≡ true) ↔ IsUp api g
  IsUp-iff = get_operand_status_ready_iff errors api laws

  all_up :
      (r : Reads)
      → All (λ o. string_to_bool o.ready ≡ true) (operand_statuses errors api r)
      → AllUp r
  all_up r (a, (b, (c, (d, _)))) = (
    (IsUp-iff "SpireServer" r.spire_server).0 a,
    (IsUp-iff "SpireAgent" r.spire_agent).0 b,
    (IsUp-iff "SpiffeCSIDriver" r.spiffe_csi_driver).0 c,
    (IsUp-iff "SpireOIDCDiscoveryProvider" r.spire_oidc_discovery_provider).0 d,
  )

  all_ready :
      (r : Reads)
      → AllUp r
      → all_of (λ o. string_to_bool o.ready) (operand_statuses errors api r) ≡ true
  all_ready r (a, b, c, d) = rw (
    (IsUp-iff "SpireServer" r.spire_server).1 a,
    (IsUp-iff "SpireAgent" r.spire_agent).1 b,
    (IsUp-iff "SpiffeCSIDriver" r.spiffe_csi_driver).1 c,
    (IsUp-iff "SpireOIDCDiscoveryProvider" r.spire_oidc_discovery_provider).1 d,
  )

  -- The Ready condition of the ZTWIM resource is True exactly when all four operand resources could
  -- be read and have a Ready condition that is True.
  pub ready-aggregate_operand_status :
      (r : Reads) (m : Manager) (c : Condition)
      → lookup ready
          (add_operand_conditions api (aggregate_operand_status errors api r) m).conditions
        ≡ some c
      → (c.status ≡ condition_true) ↔ AllUp r
  unfolding aggregate_operand_status
  ready-aggregate_operand_status r m c h =
      let os = operand_statuses errors api r in
      let (d, e, says) = add_operand_conditions-Says api os m in
      let same : c ≡ d = cc in
      rw same (elim says [
        | inl (all, q) ↦ (λ _. all_up r all, λ _. cc)
        | inr (inl (waiting, broken, q)) ↦
            (λ p. cc, λ up. absurd (omega (arith, all_counted api os (all_ready r up))))
        | inr (inr (broken, q)) ↦
            (λ p. cc, λ up. absurd (omega (arith, all_counted api os (all_ready r up))))
      ])
