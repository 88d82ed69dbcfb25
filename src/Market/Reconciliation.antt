-- ===== src/Market/Reconciliation.antt =====
-- The choice of a field's value among the candidates of several providers: `_select_candidate`,
-- `_equivalent` and `_priority` of marketdata/reconciliation.py, with its rules and candidates. A value
-- is of a type that stands for the plain Python values. What `float(value)` is for a number that is not
-- a Boolean, `math.isclose`, `==` and the place of `canonical_json(value)` in the order of texts are
-- parameters. A set of backends is the ascending list of its elements.
pub mod Clusters
pub mod Chosen
pub mod Strongest
mod Tests
use mini_qmt.Common.{
  ℕ, suc, Bool, true, false, not, ◌&&◌, ◌||◌, Option, none, some, List, [], ◌∷◌, ◌++◌, ◌==◌, ltb,
  leb, min, max, if◌then◌else◌, length, is_empty, keep_if, map,
}
use mini_qmt.Common.Sorting.{sort, sorted_set}
use mini_qmt.Market.{Name}
use mini_qmt.Market.Components.{MarketTable}

-- What the code calls on values: `float(value)` of a number that is not a Boolean, `math.isclose` with the
-- relative and the absolute tolerance, `==`, and the place of `canonical_json(value)` in the order of
-- texts.
pub record Values (V F : Type 0) : Type 0 where
  pub number_of : V → Option F
  pub is_close : F → F → F → F → Bool
  pub same_value : V → V → Bool
  pub canonical : V → Name

-- Its constructor admits no rule without a backend and no tolerance below zero.
pub record FieldRule (F : Type 0) : Type 0 where
  pub table : MarketTable
  pub field : Name
  pub priorities : List Name
  pub minimum_independent_backends : ℕ
  pub absolute_tolerance : F
  pub relative_tolerance : F

-- `_Candidate`
pub record Candidate (V : Type 0) : Type 0 where
  pub provider : Name
  pub backend : Name
  pub observation_id : Name
  pub observed_at : Name
  pub value : V

-- What `_select_candidate` returns.
pub record Selection (V : Type 0) : Type 0 where
  pub chosen : Option (Candidate V)
  pub agreeing : List Name
  pub had_disagreement : Bool
  pub consensus_met : Bool

-- `_priority`: the place in the list, or the length of the list.
abbrev pub priority : Name → List Name → ℕ
priority provider [] = 0
priority provider (p ∷ ps) = if p == provider then 0 else suc (priority provider ps)

-- A cluster is never empty: its first candidate, and the others.
abbrev pub Cluster : Type 0 → Type 0
Cluster V = Candidate V × List (Candidate V)

module _ {V : Type 0} where
  abbrev pub members : Cluster V → List (Candidate V)
  members (first, others) = first ∷ others

  abbrev pub backends_of : List (Candidate V) → List Name
  backends_of [] = []
  backends_of (c ∷ cs) = c.backend ∷ backends_of cs

  -- `{candidate.backend for candidate in items}`
  abbrev pub backends : Cluster V → List Name
  backends cluster = sorted_set ltb (backends_of (members cluster))

  abbrev pub support : Cluster V → ℕ
  support cluster = length (backends cluster)

  -- `max(..., default=0)`
  abbrev pub maximum_support : List (Cluster V) → ℕ
  maximum_support [] = 0
  maximum_support (k ∷ ks) = max (support k) (maximum_support ks)

  abbrev pub best_priority : List Name → Candidate V → List (Candidate V) → ℕ
  best_priority priorities first [] = priority first.provider priorities
  best_priority priorities first (c ∷ cs) =
      min (priority c.provider priorities) (best_priority priorities first cs)

  -- The order of the winners: by priority, provider and observation.
  abbrev pub winner_before : List Name → Candidate V → Candidate V → Bool
  winner_before priorities a b =
      ltb (priority a.provider priorities) (priority b.provider priorities)
      || priority a.provider priorities == priority b.provider priorities
        && (ltb a.provider b.provider
            || a.provider == b.provider && ltb a.observation_id b.observation_id)

  abbrev pub first_candidate : List (Candidate V) → Option (Candidate V)
  first_candidate [] = none
  first_candidate (c ∷ cs) = some c

  -- Two or more of the eligible clusters have the greatest support.
  abbrev pub tied_consensus : List (Cluster V) → Bool
  tied_consensus eligible =
      ltb 1 (length (keep_if (λ (k : Cluster V). support k == maximum_support eligible) eligible))

  -- `eligible or clusters`
  abbrev pub or_clusters : List (Cluster V) → List (Cluster V) → List (Cluster V)
  or_clusters [] clusters = clusters
  or_clusters (k ∷ ks) clusters = k ∷ ks

module _ {V F : Type 0} (values : Values V F) where
  abbrev pub equivalent_by : FieldRule F → V → V → Option F → Option F → Bool
  equivalent_by rule left right (some a) (some b) =
      values.is_close a b rule.relative_tolerance rule.absolute_tolerance
  equivalent_by rule left right _ _ = values.same_value left right

  -- `_equivalent`
  abbrev pub equivalent : FieldRule F → V → V → Bool
  equivalent rule left right =
      equivalent_by rule left right (values.number_of left) (values.number_of right)

  -- A candidate joins the first cluster whose first value is equivalent to its own, or opens one.
  abbrev pub add_candidate : FieldRule F → Candidate V → List (Cluster V) → List (Cluster V)
  add_candidate rule c [] = (c, []) ∷ []
  add_candidate rule c ((first, others) ∷ clusters) =
      if equivalent rule c.value first.value
      then (first, others ++ c ∷ []) ∷ clusters
      else (first, others) ∷ add_candidate rule c clusters

  -- The loop over the candidates.
  abbrev pub add_candidates : FieldRule F → List (Cluster V) → List (Candidate V) → List (Cluster V)
  add_candidates rule clusters [] = clusters
  add_candidates rule clusters (c ∷ cs) = add_candidates rule (add_candidate rule c clusters) cs

  -- The order of the clusters: by support, best priority and text of the value.
  abbrev pub cluster_before : FieldRule F → Cluster V → Cluster V → Bool
  cluster_before rule (a, left) (b, right) =
      ltb (support (b, right)) (support (a, left))
      || support (a, left) == support (b, right)
        && (ltb (best_priority rule.priorities a left) (best_priority rule.priorities b right)
            || best_priority rule.priorities a left == best_priority rule.priorities b right
              && ltb (values.canonical a.value) (values.canonical b.value))

  abbrev pub eligible_of : FieldRule F → List (Cluster V) → List (Cluster V)
  eligible_of rule clusters =
      keep_if (λ (k : Cluster V). leb rule.minimum_independent_backends (support k)) clusters

  abbrev pub is_consensus : FieldRule F → List (Cluster V) → Bool
  is_consensus rule eligible =
      not (is_empty eligible)
      && not (ltb 1 rule.minimum_independent_backends && tied_consensus eligible)

  -- The first of the ranked clusters wins.
  abbrev pub selection_of : FieldRule F → Bool → Bool → List (Cluster V) → Selection V
  selection_of rule disagreement consensus [] = record {
    chosen = none;
    agreeing = [];
    had_disagreement = false;
    consensus_met = false;
  }
  selection_of rule disagreement consensus (winners ∷ others) = record {
    chosen = first_candidate (sort (winner_before rule.priorities) (members winners));
    agreeing = backends winners;
    had_disagreement = disagreement;
    consensus_met = consensus;
  }

  -- `_select_candidate`
  unfoldable pub select_candidate : List (Candidate V) → FieldRule F → Selection V
  select_candidate candidates rule =
      let clusters = add_candidates rule [] candidates in
      let eligible = eligible_of rule clusters in
      selection_of rule (ltb 1 (length clusters)) (is_consensus rule eligible)
        (sort (cluster_before rule) (or_clusters eligible clusters))
