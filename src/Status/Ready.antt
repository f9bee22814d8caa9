-- ===== src/Status/Ready.antt =====
-- What the Ready condition says of the collected conditions.
use ocp_spire_operator.Prelude.{
  ◌∙◌, ◌≡◌, inl, inr, Bool, true, false, ◌&&◌, ◌||◌, not, String, List, [], ◌∷◌, ◌++◌, Option, none,
  some, arith, ◌==◌, eq_iff, eq_refl, is_some, Bool-cases, Option-cases, if◌then◌else◌,
}
use ocp_spire_operator.Prelude.Dict.{Dict, lookup, lookup-insert, HasDistinctKeys}
use ocp_spire_operator.Kube.{ConditionStatus, condition_true, condition_false, is_false}
use ocp_spire_operator.Status.{
  Condition, Manager, ready, reason_failed, reason_ready, reason_in_progress, add_condition,
  progressing_reasons, is_skipped, Scan, scan_condition, scan_conditions, no_scan, first_or,
  set_ready_condition,
}
use Prim.Native.String.{◌++◌ as concat}
use mathlib.Core.List.{append_assoc, append-nil}

-- A condition that reports a failure, and one that reports a rollout.
abbrev pub is_failing : String → Condition → Bool
is_failing t c = not (is_skipped t) && is_false c.status && not (progressing_reasons c.reason)

abbrev pub is_progressing : String → Condition → Bool
is_progressing t c = not (is_skipped t) && is_false c.status && progressing_reasons c.reason

abbrev pub message_of : String → Condition → String
message_of t c = concat t (concat ": " c.message)

module _ (p : String → Condition → Bool) where
  -- The first entry that passes, in the order of the list.
  pub first : Dict Condition → Option (String × Condition)
  first [] = none
  first ((t, c) ∷ m) = if p t c then some (t, c) else first m

  messages : Dict Condition → List String
  messages [] = []
  messages ((t, c) ∷ m) = if p t c then message_of t c ∷ messages m else messages m

  -- The first entry is an entry of the map, and passes.
  pub first-lookup :
      (m : Dict Condition) (t : String) (c : Condition)
      → HasDistinctKeys m
      → first m ≡ some (t, c)
      → (lookup t m ≡ some c) × (p t c ≡ true)
  unfolding first lookup
  first-lookup [] t c d h = ground arith
  first-lookup ((k, v) ∷ m) t c (fresh, d) h = elim (Bool-cases (p k v)) [
    | inl yes' ↦ ground (arith, eq_iff k t)
    | inr no' ↦ ground (arith, eq_iff k t, first-lookup m t c d)
  ]

  -- Where there is none, no entry passes.
  pub first-none :
      (m : Dict Condition) (t : String) (c : Condition)
      → first m ≡ none
      → lookup t m ≡ some c
      → p t c ≡ false
  unfolding first lookup
  first-none [] t c h l = ground arith
  first-none ((k, v) ∷ m) t c h l = ground (arith, eq_iff k t, first-none m t c)

  first_or-messages :
      (m : Dict Condition) (t : String) (c : Condition) (s : String)
      → first m ≡ some (t, c)
      → first_or s (messages m) ≡ message_of t c
  unfolding first messages
  first_or-messages [] t c s h = ground arith
  first_or-messages ((k, v) ∷ m) t c s h = ground (arith, first_or-messages m t c s)

scanned : Dict Condition → Scan → Scan
scanned m s = record {
  has_progressing = s.has_progressing || is_some (first is_progressing m);
  has_failure = s.has_failure || is_some (first is_failing m);
  failure_messages = s.failure_messages ++ messages is_failing m;
  progressing_messages = s.progressing_messages ++ messages is_progressing m;
}

scanned-scan_condition :
    (t : String) (c : Condition) (m : Dict Condition) (s : Scan)
    → scanned m (scan_condition t c s) ≡ scanned ((t, c) ∷ m) s
unfolding scanned first messages scan_condition
scanned-scan_condition t c m s = ground (
  arith,
  append_assoc s.failure_messages (message_of t c ∷ []) (messages is_failing m),
  append_assoc s.progressing_messages (message_of t c ∷ []) (messages is_progressing m),
)

scan_conditions-eq-scanned : (m : Dict Condition) (s : Scan) → scan_conditions m s ≡ scanned m s
unfolding scan_conditions
scan_conditions-eq-scanned [] s =
    unfold scanned first messages in
    ground (arith, append-nil s.failure_messages, append-nil s.progressing_messages)
scan_conditions-eq-scanned ((t, c) ∷ m) s =
    scan_conditions-eq-scanned m (scan_condition t c s) ∙ scanned-scan_condition t c m s

abbrev pub ready_condition : String → ConditionStatus → String → Condition
ready_condition reason status message = record {
  type = ready;
  status = status;
  reason = reason;
  message = message;
}

-- The Ready condition that the first failing and the first progressing entry determine.
unfoldable pub ready_from : Option (String × Condition) → Option (String × Condition) → Condition
ready_from (some (t, c)) p = ready_condition reason_failed condition_false (message_of t c)
ready_from none (some (t, c)) = ready_condition reason_in_progress condition_false (message_of t c)
ready_from none none = ready_condition reason_ready condition_true "All components are ready"

pub lookup-add_condition :
    (t reason message k : String) (status : ConditionStatus) (m : Manager)
    → lookup k (add_condition t reason message status m).conditions ≡ (
        if t == k
        then some (record { type = t; status = status; reason = reason; message = message })
        else lookup k m.conditions)
unfolding add_condition
lookup-add_condition t reason message k status m = lookup-insert t k _ m.conditions

pub lookup-add_condition_self :
    (t reason message : String) (status : ConditionStatus) (m : Manager)
    → lookup t (add_condition t reason message status m).conditions
      ≡ some (record { type = t; status = status; reason = reason; message = message })
lookup-add_condition_self t reason message status m = rw lookup-add_condition (rw eq_refl)

pub lookup-set_ready_condition :
    (visited : Dict Condition) (m : Manager)
    → lookup ready (set_ready_condition visited m).conditions
      ≡ some (ready_from (first is_failing visited) (first is_progressing visited))
unfolding set_ready_condition ready_from scanned
lookup-set_ready_condition visited m =
    rw scan_conditions-eq-scanned (elim (Option-cases (first is_failing visited)) [
      | inr ((t, c), f) ↦
          rw (f, lookup-add_condition_self, first_or-messages is_failing visited t c _ f)
      | inl f ↦ elim (Option-cases (first is_progressing visited)) [
        | inr ((t, c), p) ↦
            rw (f, p, lookup-add_condition_self, first_or-messages is_progressing visited t c _ p)
        | inl p ↦ rw (f, p, lookup-add_condition_self)
      ]
    ])

-- Whatever the verdict, the Ready condition is added and nothing else changes.
pub set_ready_condition_cases :
    (P : Manager → Type 0) (visited : Dict Condition) (m : Manager)
    → ((status : ConditionStatus) (reason message : String)
        → P (add_condition ready reason message status m))
    → P (set_ready_condition visited m)
unfolding set_ready_condition
set_ready_condition_cases P visited m h =
    let s = scan_conditions visited no_scan in
    elim (Bool-cases s.has_failure) [
      | inl f ↦ rw f (h _ _ _)
      | inr f ↦ elim (Bool-cases s.has_progressing) [
        | inl p ↦ rw (f, p) (h _ _ _)
        | inr p ↦ rw (f, p) (h _ _ _)
      ]
    ]
