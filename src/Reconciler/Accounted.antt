-- ===== src/Reconciler/Accounted.antt =====
-- What the checks on a configuration collect, and what an outcome must have collected for Ready to be
-- published as False.
use ocp_spire_operator.Prelude.{
  Bool, not, ◌≡◌, refl, ap, ◌⊎◌, inl, inr, String, List, [], ◌∷◌, Option, none, some, if_cases,
}
use ocp_spire_operator.Prelude.Dict.{lookup}
use ocp_spire_operator.Kube.{condition_false, MetaCondition, Error}
use ocp_spire_operator.Status.{
  Condition, Manager, ready, reason_failed, add_condition, Ranges, IsRanges, create_only_mode,
  with_ready,
}
use ocp_spire_operator.Status.Ready.{lookup-add_condition_self, lookup-set_ready_condition}
use ocp_spire_operator.Status.Verdict.{IsVerdict, set_ready_condition-IsVerdict}
use ocp_spire_operator.Status.Publish.{IsKeyed, add_condition-IsKeyed}
use ocp_spire_operator.Ztwim.Operand.{is_condition_true}
use ocp_spire_operator.Proxy.{Environment, validate_proxy_configuration}
use ocp_spire_operator.Objects.{Attempt, Outcome, Action}
use ocp_spire_operator.Objects.Sound.{IsClean, HasFailure, IsSound, add_condition-IsClean}
use ocp_spire_operator.Validation.{
  configuration_valid, Validators, CommonConfig, ValidationResult, add_results, update_status,
  validate_and_update_status, validate_common_config_with_details, is_valid_url, Url,
}
use ocp_spire_operator.Reconciler.{ended}
use ocp_spire_operator.Reconciler.Checks.{
  handle_create_only_mode, checked, invalid, checked_proxy, was_false, passed, invalid_url,
}

-- The controller has set Ready to False.
abbrev IsNotReady : Manager → Type 0
IsNotReady m = (c : Condition) × (lookup ready m.conditions ≡ some c) × (c.status ≡ condition_false)

-- The outcome returns no error, or what is collected keeps Ready from being True.
abbrev pub IsAccounted : {W : Type 0} → Outcome W → Type 0
IsAccounted o =
    (o.error ≡ none)
    ⊎ (IsClean o.manager × HasFailure o.manager)
    ⊎ (IsKeyed o.manager.conditions × IsNotReady o.manager)

abbrev pub AlwaysAccounted : {W : Type 0} → Action W → Type 0
AlwaysAccounted {W} a = (m : Manager) (w : W) → IsClean m → IsAccounted (a m w)

pub IsSound-IsAccounted : {W : Type 0} (o : Outcome W) → IsSound o → IsAccounted o
IsSound-IsAccounted o (c, inl e) = inl e
IsSound-IsAccounted o (c, inr f) = inr (inl (c, f))

pub ended-IsAccounted :
    {W : Type 0} (e : Option Error) (o : Outcome W) (rest : Action W)
    → AlwaysAccounted rest
    → IsClean o.manager
    → IsAccounted (ended e o rest)
ended-IsAccounted none o rest k c = k o.manager o.cluster c
ended-IsAccounted (some e) o rest k c = inl refl

pub reported-IsNotReady :
    (message : String) (m : Manager)
    → IsKeyed m.conditions
    → IsKeyed (add_condition ready reason_failed message condition_false m).conditions
      × IsNotReady (add_condition ready reason_failed message condition_false m)
reported-IsNotReady message m k = (
  add_condition-IsKeyed ready reason_failed message condition_false m k,
  (_, lookup-add_condition_self ready reason_failed message condition_false m, refl),
)

-- A failure that was collected makes the manager set Ready to False.
pub ready_of_failure :
    (r : Ranges)
    → IsRanges r
    → (m : Manager) → lookup ready m.conditions ≡ none
    → HasFailure m
    → IsNotReady (with_ready (r.scan m.conditions) m)
unfolding with_ready
ready_of_failure r ranges m l (t, c, h, f) =
    let q = lookup-set_ready_condition (r.scan m.conditions) m in
    rw l (_, q, failing _ (set_ready_condition-IsVerdict (ranges.scan_range m.conditions) _ q))
  where
    failing : (x : Condition) → IsVerdict m x → x.status ≡ condition_false
    failing x (inl (n, _, _)) = absurd (n t c h f)
    failing x (inr (inl (n, _))) = absurd (n t c h f)
    failing x (inr (inr (t', c', l', f', e))) = ap (λ (y : Condition). y.status) e

pub create_only-IsClean :
    (b : Bool) (c : Option MetaCondition) (m : Manager)
    → IsClean m
    → IsClean (handle_create_only_mode b c m)
unfolding handle_create_only_mode
create_only-IsClean b c m p =
    if_cases IsClean b _ _ (add_condition-IsClean create_only_mode _ _ _ m refl p) (
      if_cases IsClean (is_condition_true c) _ _
        (add_condition-IsClean create_only_mode _ _ _ m refl p) p)

-- A check that keeps the collected conditions clean.
abbrev pub KeepsClean : (Manager → Option Error × Manager) → Type 0
KeepsClean check = (m : Manager) → IsClean m → IsClean (check m).1

pub checked-IsClean :
    (v : Option Error × Manager) (rest : Manager → Option Error × Manager)
    → IsClean v.1
    → KeepsClean rest
    → IsClean (checked v rest).1
checked-IsClean (none, m) rest p k = k m p
checked-IsClean (some e, m) rest p k = p

pub invalid-IsClean :
    (reason title : String) (e : Option Error) → KeepsClean (invalid reason title e)
invalid-IsClean reason title none m p = p
invalid-IsClean reason title (some e) m p = add_condition-IsClean configuration_valid _ _ _ m refl p

pub invalid_url-IsClean :
    (parse : String → Attempt Url) (issuer : String) → KeepsClean (invalid_url parse issuer)
invalid_url-IsClean parse issuer = invalid-IsClean _ _ (is_valid_url parse issuer)

module _ {V : Type 0} (validators : Validators V) where
  results-IsClean :
      (rs : List ValidationResult) (m : Manager) → IsClean m → IsClean (add_results validators rs m)
  results-IsClean [] m p = p
  results-IsClean (x ∷ xs) m p =
      results-IsClean xs _ (add_condition-IsClean configuration_valid _ _ _ m refl p)

  update_status-IsClean :
      (kind name : String) (rs : List ValidationResult)
      → KeepsClean (update_status validators kind name rs)
  update_status-IsClean kind name [] m p = add_condition-IsClean configuration_valid _ _ _ m refl p
  update_status-IsClean kind name (x ∷ xs) m p = results-IsClean (x ∷ xs) m p

  pub common-IsClean :
      (kind name : String) (c : CommonConfig V)
      → KeepsClean (validate_and_update_status validators kind name c)
  unfolding validate_and_update_status
  common-IsClean kind name c =
      update_status-IsClean kind name (validate_common_config_with_details validators c)

pub proxy-IsClean : (e : Environment) → KeepsClean (checked_proxy e)
unfolding checked_proxy
proxy-IsClean e m p =
    if_cases (λ (v : Option Error × Manager). IsClean v.1)
      (not (validate_proxy_configuration e).valid) _ _
      (add_condition-IsClean configuration_valid _ _ _ m refl p) p

pub passed-IsClean : (published : Option MetaCondition) → KeepsClean (passed published)
passed-IsClean published m p =
    if_cases (λ (v : Option Error × Manager). IsClean v.1) (was_false published) _ _
      (add_condition-IsClean configuration_valid _ _ _ m refl p) p
