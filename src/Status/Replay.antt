-- ===== src/Status/Replay.antt =====
-- The manager of pkg/controller/status/status.go against its abstract view: the calls of `AddCondition`
-- that were made, of which the last one for a type counts.
use ocp_spire_operator.Prelude.{
  ℕ, false, ◌≡◌, refl, ◌∙◌, inl, inr, String, List, [], ◌∷◌, Option, none, some, ◌==◌, arith,
  is_some, Bool-cases, if◌then◌else◌,
}
use ocp_spire_operator.Prelude.Dict.{Dict, lookup}
use ocp_spire_operator.Kube.{MetaCondition, ConditionsApi, IsConditionsApi}
use ocp_spire_operator.Status.{
  Condition, Manager, new_manager, ready, add_condition, with_ready, Ranges, IsRanges, StatusUpdate,
  apply_status,
}
use ocp_spire_operator.Status.Ready.{lookup-add_condition, set_ready_condition_cases}
use ocp_spire_operator.Status.Publish.{
  IsKeyed, new_manager-IsKeyed, add_condition-IsKeyed, published, find-apply_status,
  manager-apply_status,
}

-- A call of `AddCondition`, first call first; it adds the condition under its type.
abbrev add_call : Condition → Manager → Manager
add_call c m = add_condition c.type c.reason c.message c.status m

abbrev pub replay : List Condition → Manager → Manager
replay [] m = m
replay (c ∷ calls) m = replay calls (add_call c m)

-- The last call for the type.
abbrev last_of : String → List Condition → Option Condition
last_of t [] = none
last_of t (c ∷ calls) = elim (last_of t calls) [
  | some d ↦ some d
  | none ↦ if c.type == t then some c else none
]

abbrev or_older : Option Condition → Option Condition → Option Condition
or_older none o = o
or_older (some c) o = some c

lookup-replay :
    (t : String) (calls : List Condition) (m : Manager)
    → lookup t (replay calls m).conditions ≡ or_older (last_of t calls) (lookup t m.conditions)
lookup-replay t [] m = refl
lookup-replay t (c ∷ calls) m = ground (
  arith,
  lookup-replay t calls (add_call c m),
  lookup-add_condition c.type c.reason c.message t c.status m,
)

replay-IsKeyed :
    (calls : List Condition) (m : Manager)
    → IsKeyed m.conditions
    → IsKeyed (replay calls m).conditions
replay-IsKeyed [] m k = k
replay-IsKeyed (c ∷ calls) m k =
    replay-IsKeyed calls (add_call c m)
      (add_condition-IsKeyed c.type c.reason c.message c.status m k)

lookup-with_ready :
    (t : String) (visited : Dict Condition) (m : Manager)
    → (ready == t) ≡ false
    → lookup t (with_ready visited m).conditions ≡ lookup t m.conditions
unfolding with_ready
lookup-with_ready t visited m n = elim (Bool-cases (is_some (lookup ready m.conditions))) [
  | inl e ↦ rw e refl
  | inr e ↦ rw e (
      set_ready_condition_cases (λ m'. lookup t m'.conditions ≡ lookup t m.conditions) visited m
        (λ status reason message. lookup-add_condition ready reason message t status m ∙ rw n refl))
]

module _ {W : Type 0} (api : ConditionsApi) (laws : IsConditionsApi api) (r : Ranges)
    (ranges : IsRanges r) (update : StatusUpdate W) (now : String → ℕ) where
  -- Whatever calls of `add_condition` were made in one reconciliation, `apply_status` publishes, for
  -- every type but Ready, the condition of the last call for it, with the older transition time where
  -- the status is the one that the object had; a type without a call keeps its older condition.
  pub find-replay :
      (calls : List Condition) (original : List MetaCondition) (w : W) (t : String)
      → (ready == t) ≡ false
      → api.find (apply_status api r update now (replay calls new_manager) original w).conditions t
        ≡ published now (last_of t calls) (api.find original t)
  unfolding lookup
  find-replay calls original w t n =
      let m = replay calls new_manager in
      find-apply_status api laws r ranges update now m original w t
        (replay-IsKeyed calls new_manager new_manager-IsKeyed)
      ∙ rw
          (
            manager-apply_status api laws r ranges update now m original w,
            lookup-with_ready t (r.scan m.conditions) m n,
            lookup-replay t calls new_manager,
          )
          (neither (last_of t calls))
    where
      neither :
          (o : Option Condition)
          → published now (or_older o none) (api.find original t)
            ≡ published now o (api.find original t)
      neither none = refl
      neither (some c) = refl
