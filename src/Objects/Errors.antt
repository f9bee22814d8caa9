-- ===== src/Objects/Errors.antt =====
-- What a step on one object says of its result.
use ocp_spire_operator.Prelude.{
  Bool, true, false, not, ◌≡◌, refl, ◌⊎◌, inl, inr, String, Option, none, some, if_cases,
}
use ocp_spire_operator.Prelude.Dict.{lookup}
use ocp_spire_operator.Kube.{Error, ApiErrors, condition_false}
use ocp_spire_operator.Status.{Condition, Manager, add_condition, reason_failed}
use ocp_spire_operator.Status.Ready.{lookup-add_condition_self}
use ocp_spire_operator.Status.Health.{Got, got, get_failed}
use ocp_spire_operator.Objects.{
  Attempt, done, failed, Outcome, ObjectClient, Kind, announce, blame, written, ensure_existing,
  ensure_got, ensure_owned, ensure,
}

-- The condition of the type is False.
abbrev IsBlamed : String → Manager → Type 0
IsBlamed t m =
    (c : Condition) × (lookup t m.conditions ≡ some c)
    × (c.status ≡ condition_false)
    × (c.reason ≡ reason_failed)

add_condition-IsBlamed :
    (t message : String) (m : Manager)
    → IsBlamed t (add_condition t reason_failed message condition_false m)
add_condition-IsBlamed t message m =
    (_, lookup-add_condition_self t reason_failed message condition_false m, refl, refl)

module _ {W O : Type 0} (errors : ApiErrors) (client : ObjectClient W O) (kind : Kind O) where
  -- Without an error the manager has gained the condition of success at most; with one, the condition
  -- of the kind is False with reason Failed.
  abbrev pub Reports : Manager → Outcome W → Type 0
  Reports m o =
      ((o.error ≡ none) × (o.manager ≡ announce errors client kind kind.success m))
      ⊎ ((e : Error) × (o.error ≡ some e) × IsBlamed kind.condition_type o.manager)

  blame-Reports :
      (what : String) (e : Error) (m : Manager) (w : W)
      → Reports m (blame errors client kind what e m w)
  blame-Reports what e m w = inr (e, refl, add_condition-IsBlamed kind.condition_type _ m)

  written-Reports :
      (what : String) (r : Option Error × W) (m : Manager)
      → Reports m (written errors client kind what r m)
  written-Reports what (none, w) m = inl (refl, refl)
  written-Reports what (some e, w) m = blame-Reports what e m w

  existing-Reports :
      (create_only : Bool) (desired existing : O) (m : Manager) (w : W)
      → Reports m (ensure_existing errors client kind create_only desired existing m w)
  existing-Reports true desired existing m w = inl (refl, refl)
  existing-Reports false desired existing m w =
      if_cases (Reports m) (not (kind.needs_update existing (kind.prepare existing desired))) _ _
        (inl (refl, refl))
        (written-Reports "Failed to update "
          (client.update (kind.finish existing (kind.prepare existing desired)) w) m)

  got-Reports :
      (create_only : Bool) (desired : O) (g : Got O) (m : Manager) (w : W)
      → Reports m (ensure_got errors client kind create_only desired g m w)
  got-Reports create_only desired (get_failed e) m w =
      if_cases (Reports m) (not (errors.is_not_found e)) _ _ (blame-Reports "Failed to get " e m w)
        (written-Reports "Failed to create " (client.create desired w) m)
  got-Reports create_only desired (got existing) m w =
      existing-Reports create_only desired existing m w

  -- The step returns no error and announces at most its success, or it returns an error and the
  -- condition of its type is False with reason Failed.
  pub ensure-Reports :
      (create_only : Bool) (desired : O) (m : Manager) (w : W)
      → Reports m (ensure errors client kind create_only desired m w)
  unfolding ensure
  ensure-Reports create_only desired m w = owned (client.set_controller_reference desired)
    where
      owned : (a : Attempt O) → Reports m (ensure_owned errors client kind create_only a m w)
      owned (failed e) = blame-Reports "Failed to set owner reference on " e m w
      owned (done d) = got-Reports create_only d (client.get d w) m w
