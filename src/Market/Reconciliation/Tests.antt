-- ===== src/Market/Reconciliation/Tests.antt =====
-- Examples of the theorems on the choice of a value: two backends that agree and a third one.
use mini_qmt.Common.{ℕ, ◌≡◌, ◌≤◌, refl, Bool, some, [], ◌∷◌, ◌==◌, leb, ◌+◌, ◌&&◌, length, All}
use mini_qmt.Common.Sorting.{sort, insert, sorted_set, insert_new}
use mini_qmt.Market.Components.{daily_bars}
use mini_qmt.Market.Reconciliation.{
  Values, FieldRule, Candidate, Cluster, support, add_candidates, select_candidate,
}
use mini_qmt.Market.Reconciliation.Chosen.{Chosen, select_candidate-Chosen}
use mini_qmt.Market.Reconciliation.Strongest.{select_candidate-strongest}

-- Numbers that differ by the absolute tolerance at most.
abbrev pub near : ℕ → ℕ → ℕ → ℕ → Bool
near a b relative absolute = leb a (b + absolute) && leb b (a + absolute)

abbrev pub values : Values ℕ ℕ
values = record {
  number_of = some;
  is_close = near;
  same_value = λ a b. a == b;
  canonical = λ value. value;
}

abbrev pub rule : FieldRule ℕ
rule = record {
  table = daily_bars;
  field = 3;
  priorities = 5 ∷ 4 ∷ [];
  minimum_independent_backends = 2;
  absolute_tolerance = 1;
  relative_tolerance = 0;
}

abbrev pub candidate : ℕ → ℕ → Candidate ℕ
candidate provider value = record {
  provider = provider;
  backend = provider;
  observation_id = 1;
  observed_at = 1;
  value = value;
}

select_candidate-Chosen_example :
    Chosen values rule
      (candidate 3 900)
      (candidate 4 100 ∷ candidate 5 101 ∷ [])
      (select_candidate values (candidate 3 900 ∷ candidate 4 100 ∷ candidate 5 101 ∷ []) rule)
select_candidate-Chosen_example =
    select_candidate-Chosen values rule (candidate 3 900) (candidate 4 100 ∷ candidate 5 101 ∷ [])

select_candidate-strongest_example :
    All
      (λ (k : Cluster ℕ).
        support k
        ≤ length
            (select_candidate values
              (candidate 3 900 ∷ candidate 4 100 ∷ candidate 5 101 ∷ [])
              rule).agreeing)
      (add_candidates values rule [] (candidate 3 900 ∷ candidate 4 100 ∷ candidate 5 101 ∷ []))
select_candidate-strongest_example =
    select_candidate-strongest values rule (candidate 3 900)
      (candidate 4 100 ∷ candidate 5 101 ∷ [])

select_test :
    (select_candidate values (candidate 3 900 ∷ candidate 4 100 ∷ candidate 5 101 ∷ []) rule).chosen
    ≡ some (candidate 5 101)
unfolding select_candidate sort insert sorted_set insert_new
select_test = refl
