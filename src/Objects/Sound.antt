-- ===== src/Objects/Sound.antt =====
-- A sound step: what it collects is stored by type and leaves Ready to the status manager, and an error
-- that it returns is reported by a condition that keeps the operand from being ready.
pub mod Steps
pub mod Health
use ocp_spire_operator.Prelude.{
  Bool, true, false, not, ◌≡◌, refl, ap, ◌∙◌, ◌⊎◌, inl, inr, String, Option, none, some, arith,
  if_cases, ◌==◌, eq_iff,
}
use ocp_spire_operator.Prelude.Dict.{lookup}
use ocp_spire_operator.Kube.{ConditionStatus, condition_true, condition_false, Error, ApiErrors}
use ocp_spire_operator.Status.{
  Condition, Manager, new_manager, ready, degraded, create_only_mode, reason_ready, add_condition,
  is_skipped, progressing_reasons,
}
use ocp_spire_operator.Status.Ready.{lookup-add_condition, lookup-add_condition_self}
use ocp_spire_operator.Status.Verdict.{IsFailure, IsOperational, IsRollout}
use ocp_spire_operator.Status.Publish.{IsKeyed, new_manager-IsKeyed, add_condition-IsKeyed}
use ocp_spire_operator.Status.Health.{Got, got, get_failed}
use ocp_spire_operator.Objects.{
  Attempt, done, failed, Outcome, Action, succeeded, fails, proceed, ◌andthen◌, ObjectClient, Kind,
  announce, written, ensure_existing, ensure_got, ensure_owned, ensure,
}

-- Every condition is stored under its type, and the controller has not set Ready itself.
abbrev pub IsClean : Manager → Type 0
IsClean m = IsKeyed m.conditions × (lookup ready m.conditions ≡ none)

-- A collected condition that reports a failure, other than Ready itself.
abbrev pub HasFailure : Manager → Type 0
HasFailure m = (t : String) × (c : Condition) × (lookup t m.conditions ≡ some c) × IsFailure t c

-- No error is returned, or a failure is reported.
abbrev IsHonest : {W : Type 0} → Outcome W → Type 0
IsHonest o = (o.error ≡ none) ⊎ HasFailure o.manager

abbrev pub IsSound : {W : Type 0} → Outcome W → Type 0
IsSound o = IsClean o.manager × IsHonest o

abbrev pub AlwaysSound : {W : Type 0} → Action W → Type 0
AlwaysSound {W} a = (m : Manager) (w : W) → IsClean m → IsSound (a m w)

pub new_manager-IsClean : IsClean new_manager
unfolding lookup
new_manager-IsClean = (new_manager-IsKeyed, refl)

pub add_condition-IsClean :
    (t reason message : String) (status : ConditionStatus) (m : Manager)
    → (t == ready) ≡ false
    → IsClean m
    → IsClean (add_condition t reason message status m)
add_condition-IsClean t reason message status m n (k, l) = (
  add_condition-IsKeyed t reason message status m k,
  lookup-add_condition t reason message ready status m ∙ rw n l,
)

operational : (t : String) → is_skipped t ≡ false → IsOperational t
operational t h = ground (arith, eq_iff t ready, eq_iff t degraded, eq_iff t create_only_mode, h)

not-IsRollout : (r : String) → progressing_reasons r ≡ false → ¬ IsRollout r
not-IsRollout r h = ground (
  arith,
  eq_iff r "StatefulSetNotReady",
  eq_iff r "DaemonSetNotReady",
  eq_iff r "DeploymentNotReady",
  h,
)

skipped_ready : (t : String) → is_skipped t ≡ false → (t == ready) ≡ false
skipped_ready t h = ground (arith, h)

module _ {W : Type 0} where
  pub succeeded-IsSound : (m : Manager) (w : W) → IsClean m → IsSound (succeeded m w)
  succeeded-IsSound m w c = (c, inl refl)

  -- A condition of any kind, and no error.
  pub said-IsSound :
      (t reason message : String) (status : ConditionStatus) (m : Manager) (w : W)
      → (t == ready) ≡ false
      → IsClean m
      → IsSound (succeeded (add_condition t reason message status m) w)
  said-IsSound t reason message status m w n c =
      (add_condition-IsClean t reason message status m n c, inl refl)

  -- A condition that is False, and an error.
  pub fails-IsSound :
      (t reason message : String) (e : Error) (m : Manager) (w : W)
      → is_skipped t ≡ false
      → progressing_reasons reason ≡ false
      → IsClean m
      → IsSound (fails t reason message e m w)
  fails-IsSound t reason message e m w s p c = (
    add_condition-IsClean t reason message condition_false m (skipped_ready t s) c,
    inr (
      t,
      _,
      lookup-add_condition_self t reason message condition_false m,
      (operational t s, refl, not-IsRollout reason p),
    ),
  )

  pub proceed-IsSound :
      (e : Option Error) (o : Outcome W) (b : Action W)
      → IsSound o
      → AlwaysSound b
      → IsSound (proceed e o b)
  proceed-IsSound none o b h k = k o.manager o.cluster h.0
  proceed-IsSound (some e) o b h k = h

  pub andthen-AlwaysSound :
      (a b : Action W) → AlwaysSound a → AlwaysSound b → AlwaysSound (a andthen b)
  andthen-AlwaysSound a b h k m w c = proceed-IsSound (a m w).error (a m w) b (h m w c) k

module _ {W O : Type 0} (errors : ApiErrors) (client : ObjectClient W O) (kind : Kind O)
    (s : is_skipped kind.condition_type ≡ false) where
  announce-IsSound :
      (message : Option String) (m : Manager) (w : W)
      → IsClean m
      → IsSound (succeeded (announce errors client kind message m) w)
  announce-IsSound none m w c = succeeded-IsSound m w c
  announce-IsSound (some message) m w c =
      said-IsSound kind.condition_type reason_ready message condition_true m w
        (skipped_ready kind.condition_type s) c

  written-IsSound :
      (what : String) (r : Option Error × W) (m : Manager)
      → IsClean m
      → IsSound (written errors client kind what r m)
  written-IsSound what (none, w) m c = announce-IsSound kind.success m w c
  written-IsSound what (some e, w) m c = fails-IsSound kind.condition_type _ _ e m w s refl c

  got-IsSound :
      (create_only : Bool) (d : O) (g : Got O) (m : Manager) (w : W)
      → IsClean m
      → IsSound (ensure_got errors client kind create_only d g m w)
  got-IsSound create_only d (get_failed e) m w c =
      if_cases (λ (o : Outcome W). IsSound o) (not (errors.is_not_found e)) _ _
        (fails-IsSound kind.condition_type _ _ e m w s refl c)
        (written-IsSound "Failed to create " (client.create d w) m c)
  got-IsSound create_only d (got x) m w c =
      let d' = kind.prepare x d in
      if_cases (λ (o : Outcome W). IsSound o) create_only _ _ (announce-IsSound kind.success m w c)
        (if_cases (λ (o : Outcome W). IsSound o) (not (kind.needs_update x d')) _ _
          (announce-IsSound kind.success m w c)
          (written-IsSound "Failed to update " (client.update (kind.finish x d') w) m c))

  pub ensure-AlwaysSound :
      (create_only : Bool) (d : O) → AlwaysSound (ensure errors client kind create_only d)
  unfolding ensure
  ensure-AlwaysSound create_only d m w c = owned (client.set_controller_reference d)
    where
      owned : (a : Attempt O) → IsSound (ensure_owned errors client kind create_only a m w)
      owned (failed e) = fails-IsSound kind.condition_type _ _ e m w s refl c
      owned (done d') = got-IsSound create_only d' (client.get d' w) m w c
