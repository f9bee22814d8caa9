-- ===== src/Ztwim/Aggregate/Counts.antt =====
-- What the counters of the aggregation count.
use ocp_spire_operator.Prelude.{
  refl, All, ◌+◌, ◌≡◌, Bool, true, false, ◌&&◌, ◌||◌, not, List, [], ◌∷◌, arith, ◌==◌, count_of,
  all_of, any_of,
}
use ocp_spire_operator.Kube.{ConditionsApi}
use ocp_spire_operator.Ztwim.Operand.{OperandStatus, string_to_bool, cr_not_found}
use ocp_spire_operator.Ztwim.Aggregate.{
  AggregateState, is_progressing, classification, process_operand_status, process_operands,
}

module _ (api : ConditionsApi) where
  -- An operand that is not ready and waits, and one that is not ready for another reason.
  abbrev pub is_waiting : OperandStatus → Bool
  is_waiting o = not (string_to_bool o.ready) && is_progressing (classification api o)

  abbrev pub is_broken : OperandStatus → Bool
  is_broken o = not (string_to_bool o.ready) && not (is_progressing (classification api o))

  abbrev pub exists : OperandStatus → Bool
  exists o = not (o.message == cr_not_found)

  pub process_operands_counts :
      (os : List OperandStatus) (s : AggregateState)
      → process_operands api os s ≡ record {
        all_ready = s.all_ready && all_of (λ o. string_to_bool o.ready) os;
        not_created_count = s.not_created_count + count_of is_waiting os;
        failed_count = s.failed_count + count_of is_broken os;
        any_operand_exists = s.any_operand_exists || any_of exists os;
      }
  unfolding process_operands process_operand_status
  process_operands_counts [] s = ground arith
  process_operands_counts (o ∷ os) s =
      ground (arith, process_operands_counts os (process_operand_status api o s))

module _ {ℓ} {A : Type ℓ} (p : A → Bool) where
  pub all_of-All : (xs : List A) → all_of p xs ≡ true → All (λ x. p x ≡ true) xs
  all_of-All [] h = tt
  all_of-All (x ∷ xs) h = ground (arith, all_of-All xs)

  count_of_zero : (xs : List A) → count_of p xs ≡ 0 → All (λ x. p x ≡ false) xs
  count_of_zero [] h = tt
  count_of_zero (x ∷ xs) h = ground (arith, count_of_zero xs)

module _ (api : ConditionsApi) where
  -- Every operand that is not ready is counted once, as waiting or as broken.
  pub none_counted :
      (os : List OperandStatus)
      → count_of (is_waiting api) os + count_of (is_broken api) os ≡ 0
      → all_of (λ o. string_to_bool o.ready) os ≡ true
  none_counted [] h = refl
  none_counted (o ∷ os) h = ground (arith, none_counted os)

  pub all_counted :
      (os : List OperandStatus)
      → all_of (λ o. string_to_bool o.ready) os ≡ true
      → count_of (is_waiting api) os + count_of (is_broken api) os ≡ 0
  all_counted [] h = refl
  all_counted (o ∷ os) h = ground (arith, all_counted os)
