-- ===== src/Status/Verdict.antt =====
-- `SetReadyCondition` of pkg/controller/status/status.go against a description of what the Ready
-- condition has to say.
use ocp_spire_operator.Prelude.{
  ◌∙◌, ◌≡◌, ◌≢◌, ◌↔◌, sym, ◌⊎◌, inl, inr, Bool, true, String, none, some, arith, eq_iff,
  Option-cases,
}
use ocp_spire_operator.Prelude.Dict.{Dict, lookup, IsRange}
use ocp_spire_operator.Kube.{condition_true, condition_false}
use ocp_spire_operator.Status.{
  Condition, Manager, ready, degraded, create_only_mode, reason_failed, reason_ready,
  reason_in_progress, set_ready_condition,
}
use ocp_spire_operator.Status.Ready.{
  is_failing, is_progressing, message_of, first, first-lookup, first-none, ready_condition,
  ready_from, lookup-set_ready_condition,
}

abbrev pub IsOperational : String → Type 0
IsOperational t = (t ≢ ready) × (t ≢ degraded) × (t ≢ create_only_mode)

abbrev pub IsRollout : String → Type 0
IsRollout r = (r ≡ "StatefulSetNotReady") ⊎ (r ≡ "DaemonSetNotReady") ⊎ (r ≡ "DeploymentNotReady")

-- The condition shows a failure of the operand.
abbrev pub IsFailure : String → Condition → Type 0
IsFailure t c = IsOperational t × (c.status ≡ condition_false) × (¬ IsRollout c.reason)

-- The condition shows that a workload is still being rolled out.
abbrev pub IsProgress : String → Condition → Type 0
IsProgress t c = IsOperational t × (c.status ≡ condition_false) × IsRollout c.reason

is_failing_iff : (t : String) (c : Condition) → (is_failing t c ≡ true) ↔ IsFailure t c
is_failing_iff t c = ground (
  arith,
  eq_iff t ready,
  eq_iff t degraded,
  eq_iff t create_only_mode,
  eq_iff c.reason "StatefulSetNotReady",
  eq_iff c.reason "DaemonSetNotReady",
  eq_iff c.reason "DeploymentNotReady",
)

is_progressing_iff : (t : String) (c : Condition) → (is_progressing t c ≡ true) ↔ IsProgress t c
is_progressing_iff t c = ground (
  arith,
  eq_iff t ready,
  eq_iff t degraded,
  eq_iff t create_only_mode,
  eq_iff c.reason "StatefulSetNotReady",
  eq_iff c.reason "DaemonSetNotReady",
  eq_iff c.reason "DeploymentNotReady",
)

abbrev HasNo : (String → Condition → Type 0) → Manager → Type 0
HasNo P m = (t : String) (c : Condition) → lookup t m.conditions ≡ some c → ¬ P t c

-- The Ready condition has the reason, and the message of an entry for which `P` holds.
abbrev Blames : (String → Condition → Type 0) → String → Manager → Condition → Type 0
Blames P reason m r =
    (t : String) × (c : Condition) × (lookup t m.conditions ≡ some c)
    × P t c
    × (r ≡ ready_condition reason condition_false (message_of t c))

abbrev pub IsVerdict : Manager → Condition → Type 0
IsVerdict m r =
    (HasNo IsFailure m
      × HasNo IsProgress m
      × (r ≡ ready_condition reason_ready condition_true "All components are ready"))
    ⊎ (HasNo IsFailure m × Blames IsProgress reason_in_progress m r)
    ⊎ Blames IsFailure reason_failed m r

module _ {visited : Dict Condition} {m : Manager} (range : IsRange visited m.conditions) where
  found :
      (p : String → Condition → Bool) (t : String) (c : Condition)
      → first p visited ≡ some (t, c)
      → (lookup t m.conditions ≡ some c) × (p t c ≡ true)
  found p t c h =
      let (l, q) = first-lookup p visited t c range.distinct h in (sym (range.same t) ∙ l, q)

  no-IsFailure : first is_failing visited ≡ none → HasNo IsFailure m
  no-IsFailure h t c l f =
      cc (first-none is_failing visited t c h (range.same t ∙ l), (is_failing_iff t c).1 f)

  no-IsProgress : first is_progressing visited ≡ none → HasNo IsProgress m
  no-IsProgress h t c l f =
      cc (first-none is_progressing visited t c h (range.same t ∙ l), (is_progressing_iff t c).1 f)

  ready_eq :
      (r : Condition)
      → lookup ready (set_ready_condition visited m).conditions ≡ some r
      → r ≡ ready_from (first is_failing visited) (first is_progressing visited)
  ready_eq r h = cc (lookup-set_ready_condition visited m)

  -- Whatever the order in which the loop meets the conditions, the Ready condition that
  -- `set_ready_condition` adds is True with reason Ready where no operational condition is False; it
  -- is False with reason Progressing and the message of a rollout condition where some are False
  -- and all of those report a rollout; and it is False with reason Failed and the message of a
  -- failed condition where one of them reports anything else.
  pub set_ready_condition-IsVerdict :
      (r : Condition)
      → lookup ready (set_ready_condition visited m).conditions ≡ some r
      → IsVerdict m r
  unfolding ready_from
  set_ready_condition-IsVerdict r h = elim (Option-cases (first is_failing visited)) [
    | inr ((t, c), f) ↦
        let (l, q) = found is_failing t c f in
        inr (inr (t, c, l, (is_failing_iff t c).0 q, ready_eq r h ∙ rw f))
    | inl f ↦ elim (Option-cases (first is_progressing visited)) [
      | inr ((t, c), p) ↦
          let (l, q) = found is_progressing t c p in
          inr (
            inl (no-IsFailure f, (t, c, l, (is_progressing_iff t c).0 q, ready_eq r h ∙ rw (f, p))))
      | inl p ↦ inl (no-IsFailure f, no-IsProgress p, ready_eq r h ∙ rw (f, p))
    ]
  ]
