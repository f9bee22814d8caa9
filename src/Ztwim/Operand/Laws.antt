-- ===== src/Ztwim/Operand/Laws.antt =====
-- What the aggregating controller keeps of an operand's conditions, and that the classification which
-- it makes of the kept ones is the one of the custom resource.
use ocp_spire_operator.Prelude.{
  ◌∙◌, ◌≡◌, ◌⊎◌, ◌↔◌, inl, inr, refl, true, false, String, List, [], ◌∷◌, ◌++◌, Option, none, some,
  ◌==◌, eq_iff, arith, Bool-cases, Option-cases, if◌then◌else◌,
}
use ocp_spire_operator.Kube.{
  MetaCondition, is_true_iff, is_true, condition_true, condition_false, Error, ApiErrors,
  ConditionsApi, IsConditionsApi,
}
use ocp_spire_operator.Status.{ready, create_only_mode, reason_in_progress, reason_failed}
use ocp_spire_operator.Status.Health.{Got, got, get_failed}
use ocp_spire_operator.Ztwim.Operand.{
  Classification, progressing, failed, is_ready, string_to_bool, classify_reason, classify_message,
  classify_operand_state, other_failed, extract_key_conditions, keep_true, keep_found,
  get_operand_status,
}

module _ (api : ConditionsApi) (laws : IsConditionsApi api) where
  find_type :
      (cs : List MetaCondition) (t : String) (c : MetaCondition)
      → api.find cs t ≡ some c
      → c.type ≡ t
  find_type [] t c h = cc (laws.find-nil t)
  find_type (d ∷ cs) t c h =
      ground (arith, laws.find-cons d cs t, eq_iff d.type t, find_type cs t c)

  find-other_failed : (cs : List MetaCondition) → api.find (other_failed api cs) ready ≡ none
  unfolding other_failed
  find-other_failed [] = laws.find-nil ready
  find-other_failed (c ∷ cs) =
      ground (arith, find-other_failed cs, laws.find-cons c (other_failed api cs) ready)

  find-keep_found :
      (o : Option MetaCondition) (cs : List MetaCondition)
      → ((c : MetaCondition) → o ≡ some c → c.type ≡ ready)
      → api.find cs ready ≡ none
      → api.find (keep_found api o ++ cs) ready ≡ o
  find-keep_found none cs h n = n
  find-keep_found (some c) cs h n =
      ground (arith, h c refl, laws.find-cons c cs ready, eq_iff c.type ready)

  find-keep_true :
      (o : Option MetaCondition) (cs : List MetaCondition)
      → ((c : MetaCondition) → o ≡ some c → c.type ≡ create_only_mode)
      → api.find (keep_true api o ++ cs) ready ≡ api.find cs ready
  find-keep_true none cs h = refl
  find-keep_true (some c) cs h = ground (
    arith,
    h c refl,
    laws.find-cons c cs ready,
    eq_iff c.type ready,
    eq_iff create_only_mode ready,
  )

  -- The Ready condition of an operand that is not ready is kept.
  find-extract_key_conditions :
      (cs : List MetaCondition)
      → api.find (extract_key_conditions api cs false) ready ≡ api.find cs ready
  unfolding extract_key_conditions
  find-extract_key_conditions cs =
      find-keep_true (api.find cs create_only_mode) _ (λ c h. find_type cs create_only_mode c h)
      ∙ find-keep_found (api.find cs ready) _ (λ c h. find_type cs ready c h) (find-other_failed cs)

-- The custom resource is there and its Ready condition is True.
abbrev pub IsUp : ConditionsApi → Got (List MetaCondition) → Type 0
IsUp api (get_failed e) = ⊥
IsUp api (got cs) = (c : MetaCondition) × (api.find cs ready ≡ some c) × (c.status ≡ condition_true)

-- The Ready condition, if there is one, is one that the operand controllers publish.
abbrev pub IsWellReported : ConditionsApi → List MetaCondition → Type 0
IsWellReported api cs =
    (c : MetaCondition)
    → api.find cs ready ≡ some c
    → (c.status ≡ condition_true)
      ⊎ ((c.status ≡ condition_false)
          × ((c.reason ≡ reason_in_progress) ⊎ (c.reason ≡ reason_failed)))

-- The state of an operand that its Ready condition reports; without one it is being reconciled.
abbrev pub state_of : Option MetaCondition → Classification
state_of none = progressing
state_of (some c) =
    if is_true c.status then is_ready else if c.reason == reason_failed then failed else progressing

module _ (errors : ApiErrors) (api : ConditionsApi) (laws : IsConditionsApi api) where
  -- An operand is reported as ready exactly when its custom resource could be read and has a Ready
  -- condition that is True.
  pub get_operand_status_ready_iff :
      (kind : String) (g : Got (List MetaCondition))
      → (string_to_bool (get_operand_status errors api kind g).ready ≡ true) ↔ IsUp api g
  unfolding get_operand_status
  get_operand_status_ready_iff kind (get_failed e) = elim (Bool-cases (errors.is_not_found e)) [
    | inl n ↦ rw n (λ p. cc, λ p. absurd p)
    | inr n ↦ rw n (λ p. cc, λ p. absurd p)
  ]
  get_operand_status_ready_iff kind (got []) = ground (arith, laws.find-nil ready)
  get_operand_status_ready_iff kind (got (d ∷ cs)) = elim (Option-cases (api.find (d ∷ cs) ready)) [
    | inl e ↦ rw e (ground arith)
    | inr (c, e) ↦ elim (Bool-cases (is_true c.status)) [
      | inl t ↦ rw e (rw t (λ _. (c, refl, (is_true_iff c.status).0 t), λ _. refl))
      | inr f ↦ rw e (rw f (λ p. cc, λ (x, p, q). ground (arith, is_true_iff x.status)))
    ]
  ]

  -- For an operand whose Ready condition, if any, is True, or False with reason Progressing or
  -- Failed, the classification that the aggregation makes of the kept conditions is the state which
  -- the custom resource reports: ready, failed, and progressing otherwise, also before the first
  -- reconciliation.
  pub classify-get_operand_status :
      (kind : String) (cs : List MetaCondition)
      → IsWellReported api cs
      → let operand = get_operand_status errors api kind (got cs) in
        classify_operand_state operand (api.find operand.conditions ready)
        ≡ state_of (api.find cs ready)
  unfolding get_operand_status classify_operand_state
  classify-get_operand_status kind [] h = rw laws.find-nil (unfold classify_message in refl)
  classify-get_operand_status kind (d ∷ cs) h = elim (Option-cases (api.find (d ∷ cs) ready)) [
    | inl e ↦
        rw e
          (rw (find-extract_key_conditions api laws (d ∷ cs), e) (unfold classify_message in refl))
    | inr (c, e) ↦ elim (Bool-cases (is_true c.status)) [
      | inl t ↦ rw e (rw t refl)
      | inr f ↦ rw e (
          rw f (
            rw (find-extract_key_conditions api laws (d ∷ cs), e)
              (elim (h c e) [
                | inl t ↦ cc ((is_true_iff c.status).1 t)
                | inr (g, r) ↦
                    unfold classify_reason in elim r [ inl p ↦ rw p refl | inr p ↦ rw p refl ]
              ])))
    ]
  ]

  -- A missing custom resource is classified as progressing.
  classify-get_failed :
      (kind : String) (e : Error)
      → errors.is_not_found e ≡ true
      → let operand = get_operand_status errors api kind (get_failed e) in
        classify_operand_state operand (api.find operand.conditions ready) ≡ progressing
  unfolding get_operand_status classify_operand_state classify_message
  classify-get_failed kind e h = rw h (rw laws.find-nil)
