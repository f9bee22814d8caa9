-- ===== src/Examples/Retried.antt =====
-- An update that is retried: the cache is behind at first.
use ocp_spire_operator.Prelude.{
  ℕ, zero, suc, ◌≡◌, refl, Bool, false, String, none, some, ◌==◌, if◌then◌else◌,
}
use ocp_spire_operator.Kube.{Error, text_error, api_error, wrapped_error, reconcile_error}
use ocp_spire_operator.Objects.{Attempt, done}
use ocp_spire_operator.ApiClient.{Result, update_with_retry}
use ocp_spire_operator.ApiClient.Settled.{
  Retry, IsRetry, after, Settles, accepted, refused, update_with_retry_iff,
}

-- The version in the cache, and that in the cluster.
abbrev Cluster : Type 0
Cluster = String × String

abbrev is_conflict : Error → Bool
is_conflict (text_error m) = false
is_conflict (api_error reason m) = reason == "Conflict"
is_conflict (wrapped_error m e) = is_conflict e
is_conflict (reconcile_error reason m e) = is_conflict e

-- The cache catches up.
abbrev others : Cluster → Cluster
others (cached, actual) = (actual, actual)

abbrev retried : (Cluster → Result Cluster) → Result Cluster → Result Cluster → Result Cluster
retried fn (none, w) later = (none, w)
retried fn (some e, w) later = if is_conflict e then later else (some e, w)

abbrev retry : ℕ → (Cluster → Result Cluster) → Cluster → Result Cluster
retry zero fn w = (none, w)
retry (suc zero) fn w = fn w
retry (suc (suc n)) fn w = let later = retry (suc n) fn (others (fn w).1) in retried fn (fn w) later

abbrev on_conflict : Retry Cluster
on_conflict = record { is_conflict = is_conflict; others = others; retry = retry }

last_answer : (fn : Cluster → Result Cluster) (x : Result Cluster) → x ≡ after on_conflict zero fn x
last_answer fn (none, w) = refl
last_answer fn (some e, w) = refl

next_answer :
    (n : ℕ) (fn : Cluster → Result Cluster) (x : Result Cluster)
    → retried fn x (retry (suc n) fn (others x.1)) ≡ after on_conflict (suc n) fn x
next_answer n fn (none, w) = refl
next_answer n fn (some e, w) = refl

retry_suc :
    (n : ℕ) (fn : Cluster → Result Cluster) (w : Cluster)
    → retry (suc n) fn w ≡ after on_conflict n fn (fn w)
retry_suc zero fn w = last_answer fn (fn w)
retry_suc (suc n) fn w = next_answer n fn (fn w)

on_conflict-IsRetry : IsRetry on_conflict
on_conflict-IsRetry = record { retry_suc = retry_suc; is_conflict-wrapped = λ m e. refl }

abbrev fetch : Cluster → Attempt String
fetch (cached, actual) = done cached

abbrev put : String → Cluster → Result Cluster
put version (cached, actual) =
    if version == actual
    then (none, (cached, "3"))
    else (some (api_error "Conflict" "the object has been modified"), (cached, actual))

abbrev behind : Cluster
behind = ("1", "2")

behind_settles : Settles on_conflict on_conflict-IsRetry "cluster" fetch put 4 behind
behind_settles =
    refused "1" (api_error "Conflict" "the object has been modified") refl refl refl
      (accepted "2" refl refl)

update_with_retry_iff_example : (update_with_retry (retry 5) "cluster" fetch put behind).0 ≡ none
update_with_retry_iff_example =
    (update_with_retry_iff on_conflict on_conflict-IsRetry "cluster" fetch put 4 behind).0.1
      behind_settles
