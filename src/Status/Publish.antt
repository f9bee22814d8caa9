-- ===== src/Status/Publish.antt =====
-- What `ApplyStatus` of pkg/controller/status/status.go publishes of the collected conditions.
use ocp_spire_operator.Prelude.{
  ◌∙◌, ℕ, ◌≡◌, ◌≢◌, sym, ◌⊎◌, refl, String, List, [], ◌∷◌, Option, none, some, arith, eq_iff,
  eq_refl, inl, inr, is_some, Bool-cases,
}
use ocp_spire_operator.Prelude.Dict.{Dict, lookup, HasDistinctKeys}
use ocp_spire_operator.Kube.{ConditionStatus, MetaCondition, merged, ConditionsApi, IsConditionsApi}
use ocp_spire_operator.Status.{
  Condition, Manager, new_manager, ready, add_condition, set_ready_condition, with_ready,
  new_condition, set_conditions, Ranges, IsRanges, StatusUpdate, update_failed, apply_status,
}
use ocp_spire_operator.Status.Ready.{lookup-add_condition, set_ready_condition_cases}

-- Every condition is stored under its type.
abbrev pub IsKeyed : Dict Condition → Type 0
IsKeyed m = (t : String) (c : Condition) → lookup t m ≡ some c → c.type ≡ t

pub new_manager-IsKeyed : IsKeyed new_manager.conditions
unfolding lookup
new_manager-IsKeyed t c h = cc

pub add_condition-IsKeyed :
    (t reason message : String) (status : ConditionStatus) (m : Manager)
    → IsKeyed m.conditions
    → IsKeyed (add_condition t reason message status m).conditions
add_condition-IsKeyed t reason message status m keyed k c h =
    ground (arith, lookup-add_condition t reason message k status m, eq_iff t k, keyed k c)

set_ready_condition-IsKeyed :
    (visited : Dict Condition) (m : Manager)
    → IsKeyed m.conditions
    → IsKeyed (set_ready_condition visited m).conditions
set_ready_condition-IsKeyed visited m keyed =
    set_ready_condition_cases (λ m'. IsKeyed m'.conditions) visited m
      (λ status reason message. add_condition-IsKeyed ready reason message status m keyed)

with_ready-IsKeyed :
    (visited : Dict Condition) (m : Manager)
    → IsKeyed m.conditions
    → IsKeyed (with_ready visited m).conditions
unfolding with_ready
with_ready-IsKeyed visited m keyed = elim (Bool-cases (is_some (lookup ready m.conditions))) [
  | inl e ↦ rw e keyed
  | inr e ↦ rw e (set_ready_condition-IsKeyed visited m keyed)
]

-- The condition that an object has after a collected one, if any, is published over the older one.
abbrev pub published : (String → ℕ) → Option Condition → Option MetaCondition → Option MetaCondition
published now none old = old
published now (some c) old = some (merged old (new_condition now c))

IsKeyed-tail :
    (k : String) (v : Condition) (m : Dict Condition)
    → HasDistinctKeys ((k, v) ∷ m)
    → IsKeyed ((k, v) ∷ m)
    → IsKeyed m
unfolding lookup
IsKeyed-tail k v m d keyed t c h = ground (arith, eq_iff k t, keyed t c)

module _ (api : ConditionsApi) (laws : IsConditionsApi api) (now : String → ℕ) where
  find-set_conditions :
      (m : Dict Condition) (cs : List MetaCondition) (t : String)
      → HasDistinctKeys m
      → IsKeyed m
      → api.find (set_conditions api now m cs) t ≡ published now (lookup t m) (api.find cs t)
  unfolding set_conditions lookup
  find-set_conditions [] cs t d keyed = refl
  find-set_conditions ((k, v) ∷ m) cs t d keyed = ground (
    arith,
    eq_iff k t,
    eq_refl k,
    find-set_conditions m (api.set cs (new_condition now v)) t d.1 (IsKeyed-tail k v m d keyed),
    laws.find-set_self cs (new_condition now v),
    laws.find-set_ne cs (new_condition now v) t,
    keyed k v,
    d.0,
  )

module _ {W : Type 0} (api : ConditionsApi) (laws : IsConditionsApi api) (r : Ranges)
    (ranges : IsRanges r) (status_update : StatusUpdate W) where
  pub manager-apply_status :
      (now : String → ℕ) (m : Manager) (original : List MetaCondition) (w : W)
      → (apply_status api r status_update now m original w).manager
        ≡ with_ready (r.scan m.conditions) m
  unfolding apply_status
  manager-apply_status now m original w = ground arith

  conditions-apply_status :
      (now : String → ℕ) (m : Manager) (original : List MetaCondition) (w : W)
      → (apply_status api r status_update now m original w).conditions
        ≡ set_conditions api now (r.set (with_ready (r.scan m.conditions) m).conditions) original
  unfolding apply_status
  conditions-apply_status now m original w = ground arith

  -- Once `apply_status` has run, the object has, for every type, the condition that the manager
  -- collected, with the older transition time where the status is the one that it had, and for a
  -- type that the manager has no condition of, the condition that it had before.
  pub find-apply_status :
      (now : String → ℕ) (m : Manager) (original : List MetaCondition) (w : W) (t : String)
      → IsKeyed m.conditions
      → let applied = apply_status api r status_update now m original w in
        api.find applied.conditions t
        ≡ published now (lookup t applied.manager.conditions) (api.find original t)
  find-apply_status now m original w t keyed =
      let m' = with_ready (r.scan m.conditions) m in
      let range = ranges.set_range m'.conditions in
      let keyed' = with_ready-IsKeyed (r.scan m.conditions) m keyed in
      rw (conditions-apply_status, manager-apply_status, ← range.same t)
        (find-set_conditions api laws now (r.set m'.conditions) original t range.distinct
          (λ k c h. keyed' k c (sym (range.same k) ∙ h)))

  -- A Ready condition that a controller has added is published as it is.
  ready-apply_status :
      (now : String → ℕ) (m : Manager) (original : List MetaCondition) (w : W) (c : Condition)
      → lookup ready m.conditions ≡ some c
      → (apply_status api r status_update now m original w).manager ≡ m
  unfolding with_ready
  ready-apply_status now m original w c h = rw manager-apply_status (rw h)

  -- `apply_status` calls the API server only if the conditions changed; an error of that call is
  -- the result's, wrapped.
  pub apply_status_update :
      (now : String → ℕ) (m : Manager) (original : List MetaCondition) (w : W)
      → let applied = apply_status api r status_update now m original w in
        ((applied.conditions ≡ original) × (applied.cluster ≡ w) × (applied.error ≡ none))
        ⊎ ((applied.conditions ≢ original)
            × (applied.cluster ≡ (status_update applied.conditions w).1)
            × (applied.error ≡ update_failed (status_update applied.conditions w).0))
  unfolding apply_status
  apply_status_update now m original w =
      let status =
        set_conditions api now (r.set (with_ready (r.scan m.conditions) m).conditions) original in
      elim (Bool-cases (api.same original status)) [
        | inl e ↦ rw e (inl (sym (laws.same_eq original status e), refl, refl))
        | inr e ↦ rw e (inr (λ p. cc (e, laws.same_refl original, p), refl, refl))
      ]

  -- So its message is the one that the controller gave.
  pub find_ready-apply_status :
      (now : String → ℕ) (m : Manager) (original : List MetaCondition) (w : W) (d : Condition)
      → IsKeyed m.conditions
      → lookup ready m.conditions ≡ some d
      → api.find (apply_status api r status_update now m original w).conditions ready
        ≡ some (merged (api.find original ready) (new_condition now d))
  find_ready-apply_status now m original w d keyed h =
      find-apply_status now m original w ready keyed
      ∙ rw (ready-apply_status now m original w d h) (rw h)

-- Publishing over an older condition takes the newer message.
pub message-merged :
    (o : Option MetaCondition) (c : MetaCondition) → (merged o c).message ≡ c.message
message-merged none c = refl
message-merged (some d) c = refl
