-- ===== src/ApiClient/Settled.antt =====
-- When an update with retries succeeds, whatever other clients write in between.
use ocp_spire_operator.Prelude.{
  ℕ, zero, suc, ◌≡◌, ◌≢◌, ◌↔◌, inl, inr, refl, sym, ◌∙◌, ap, Bool, true, false, String, none, some,
  if◌then◌else◌, arith, Bool-cases,
}
use ocp_spire_operator.Kube.{Error, wrapped_error}
use ocp_spire_operator.Objects.{Attempt, done, failed}
use ocp_spire_operator.ApiClient.{
  Result, attempt, written, reported, update_with_retry, status_update_with_retry,
}

-- `retry.RetryOnConflict`, with the number of its attempts: `others` is what the other clients write while
-- it waits.
pub record Retry (W : Type 0) : Type 0 where
  pub is_conflict : Error → Bool
  pub others : W → W
  pub retry : ℕ → (W → Result W) → W → Result W

abbrev pub after : {W : Type 0} → Retry W → ℕ → (W → Result W) → Result W → Result W
after r n fn (none, w) = (none, w)
after r zero fn (some e, w) = (some e, w)
after r (suc n) fn (some e, w) =
    if r.is_conflict e then r.retry (suc n) fn (r.others w) else (some e, w)

-- A conflict is tried again while attempts are left, and the last answer is returned; a conflict is one
-- also where it is wrapped.
pub record IsRetry {W : Type 0} (r : Retry W) : Type 0 where
  pub retry_suc : (n : ℕ) (fn : W → Result W) (w : W) → r.retry (suc n) fn w ≡ after r n fn (fn w)
  pub is_conflict-wrapped :
      (m : String) (e : Error) → r.is_conflict (wrapped_error m e) ≡ r.is_conflict e

module _ {W : Type 0} (r : Retry W) (laws : IsRetry r) (key : String) (fetch : W → Attempt String)
    (put : String → W → Result W) where
  -- The object is written at once, or after at most so many conflicts.
  pub data Settles : ℕ → W → Type 0 where
    accepted :
        {n : ℕ} {w : W} (version : String)
        → fetch w ≡ done version
        → (put version w).0 ≡ none
        → Settles n w
    refused :
        {n : ℕ} {w : W} (version : String) (e : Error)
        → fetch w ≡ done version
        → (put version w).0 ≡ some e
        → r.is_conflict e ≡ true
        → Settles n (r.others (put version w).1)
        → Settles (suc n) w
    unread :
        {n : ℕ} {w : W} (e : Error)
        → fetch w ≡ failed e
        → r.is_conflict e ≡ true
        → Settles n (r.others w)
        → Settles (suc n) w

  abbrev fn : W → Result W
  fn = attempt key fetch put

  after_accepted : (n : ℕ) (x : Result W) → x.0 ≡ none → (after r n fn (reported key x)).0 ≡ none
  after_accepted n (none, w) h = refl
  after_accepted n (some e, w) h = absurd (ground (arith, h))

  after_error :
      (n : ℕ) (m : String) (e : Error) (w : W)
      → r.is_conflict e ≡ true
      → after r (suc n) fn (some (wrapped_error m e), w) ≡ r.retry (suc n) fn (r.others w)
  after_error n m e w c = rw (laws.is_conflict-wrapped m e, c) refl

  after_refused :
      (n : ℕ) (x : Result W) (e : Error)
      → x.0 ≡ some e
      → r.is_conflict e ≡ true
      → after r (suc n) fn (reported key x) ≡ r.retry (suc n) fn (r.others x.1)
  after_refused n (none, w) e h c = absurd (ground (arith, h))
  after_refused n (some d, w) e h c = after_error n _ d w (ground (arith, h, c))

  step :
      (n : ℕ) (w : W) (a : Attempt String)
      → fetch w ≡ a
      → r.retry (suc n) fn w ≡ after r n fn (written key put a w)
  unfolding attempt
  step n w a f = laws.retry_suc n fn w ∙ ap (λ b. after r n fn (written key put b w)) f

  settled : (n : ℕ) (w : W) → Settles n w → (r.retry (suc n) fn w).0 ≡ none
  settled n w (accepted v f p) = ap (λ x. x.0) (step n w (done v) f) ∙ after_accepted n (put v w) p
  settled (suc n) w (refused v e f p c s) =
      ap (λ x. x.0) (step (suc n) w (done v) f ∙ after_refused n (put v w) e p c)
      ∙ settled n (r.others (put v w).1) s
  settled (suc n) w (unread e f c s) =
      ap (λ x. x.0) (step (suc n) w (failed e) f ∙ after_error n _ e w c) ∙ settled n (r.others w) s

  given_up :
      (n : ℕ) (m : String) (e : Error) (w : W)
      → r.is_conflict e ≡ false
      → (after r n fn (some (wrapped_error m e), w)).0 ≢ none
  given_up zero m e w c h = ground (arith, h)
  given_up (suc n) m e w c h = ground (arith, h, c, laws.is_conflict-wrapped m e)

  last_written :
      (w : W) (v : String)
      → fetch w ≡ done v
      → (x : Result W) → put v w ≡ x
      → (after r zero fn (reported key x)).0 ≡ none
      → Settles zero w
  last_written w v f (none, u) q h = accepted v f (ap (λ x. x.0) q)
  last_written w v f (some e, u) q h = absurd (ground (arith, h))

  last_read :
      (w : W) (a : Attempt String)
      → fetch w ≡ a
      → (after r zero fn (written key put a w)).0 ≡ none
      → Settles zero w
  last_read w (failed e) f h = absurd (ground (arith, h))
  last_read w (done v) f h = last_written w v f (put v w) refl h

  module _ (n : ℕ) (next : (w : W) → (r.retry (suc n) fn w).0 ≡ none → Settles n w) where
    settles_written :
        (w : W) (v : String)
        → fetch w ≡ done v
        → (x : Result W) → put v w ≡ x
        → (after r (suc n) fn (reported key x)).0 ≡ none
        → Settles (suc n) w
    settles_written w v f (none, u) q h = accepted v f (ap (λ x. x.0) q)
    settles_written w v f (some e, u) q h = elim (Bool-cases (r.is_conflict e)) [
      | inl c ↦ refused v e f (ap (λ x. x.0) q) c (
          next (r.others (put v w).1) (
            ap (λ x. (r.retry (suc n) fn (r.others x.1)).0) q
            ∙ sym (ap (λ x. x.0) (after_error n _ e u c))
            ∙ h))
      | inr c ↦ absurd (given_up (suc n) _ e u c h)
    ]

    settles_read :
        (w : W) (a : Attempt String)
        → fetch w ≡ a
        → (after r (suc n) fn (written key put a w)).0 ≡ none
        → Settles (suc n) w
    settles_read w (failed e) f h = elim (Bool-cases (r.is_conflict e)) [
      | inl c ↦ unread e f c (next (r.others w) (sym (ap (λ x. x.0) (after_error n _ e w c)) ∙ h))
      | inr c ↦ absurd (given_up (suc n) _ e w c h)
    ]
    settles_read w (done v) f h = settles_written w v f (put v w) refl h

  settles : (n : ℕ) (w : W) → (r.retry (suc n) fn w).0 ≡ none → Settles n w
  settles zero w h =
      last_read w (fetch w) refl (sym (ap (λ x. x.0) (step zero w (fetch w) refl)) ∙ h)
  settles (suc n) w h =
      settles_read n (settles n) w (fetch w) refl
        (sym (ap (λ x. x.0) (step (suc n) w (fetch w) refl)) ∙ h)

  -- An update with retries, of an object or of its status, returns no error exactly if the object is
  -- accepted with the version that was read just before, at once or after conflicts only, at most as many
  -- as `n`, one less than the number of attempts, whatever other clients write in between.
  pub update_with_retry_iff :
      (n : ℕ) (w : W)
      → (((update_with_retry (r.retry (suc n)) key fetch put w).0 ≡ none) ↔ Settles n w)
        × (((status_update_with_retry (r.retry (suc n)) key fetch put w).0 ≡ none) ↔ Settles n w)
  unfolding update_with_retry status_update_with_retry
  update_with_retry_iff n w = ((settles n w, settled n w), (settles n w, settled n w))
