-- ===== src/Trading/Intent/Limits.antt =====
-- What an accepted intent satisfies: every approved weight is of a known instrument of an allowed
-- type and within the policy's maximum, and the weights leave the minimum of cash.
use mini_qmt.Common.{
  ℕ, ◌≡◌, refl, inl, inr, Bool, true, false, Option, none, some, List, [], ◌∷◌, ◌++◌, any, All,
  Bool-cases, if◌then◌else◌, ◌==◌, ==_iff,
}
use mini_qmt.Common.Dict.{Dict, get, put}
use mini_qmt.Decimal
use mini_qmt.Decimal.{Decimal}
use mini_qmt.Decimal.Order.{le_self, le_of_not_lt}
use mini_qmt.Market.{Name, Instrument}
use mini_qmt.Trading.Intent.{
  PortfolioIntent, RiskPolicy, RiskCode, allows, assess_symbol, assess_weights, put_some,
  assess_intent, is_refusal, investable, sum_weights,
}

module _ (instruments : Dict Instrument) (p : RiskPolicy) where
  -- An approved weight that keeps to the policy.
  abbrev pub Keeps : ℕ × Decimal → Type 0
  Keeps (symbol, w) =
      (i : Instrument) × (get instruments symbol ≡ some i)
      × (allows p i ≡ true)
      × (Decimal.le w p.max_position_weight ≡ true)

  put-Keeps :
      (d : Dict Decimal) (symbol : Name) (w : Decimal)
      → All Keeps d
      → Keeps (symbol, w)
      → All Keeps (put d symbol w)
  unfolding put
  put-Keeps [] symbol w h k = (k, tt)
  put-Keeps ((j, v) ∷ d) symbol w h k = elim (Bool-cases (j == symbol)) [
    | inl same ↦ let e : j ≡ symbol = (==_iff j symbol).0 same in rw same (rw e k, h.1)
    | inr other ↦ rw other (h.0, put-Keeps d symbol w h.1 k)
  ]

  known-Keeps :
      (i : Instrument) (symbol : Name) (requested w : Decimal)
      → (assess_symbol (some i) p symbol requested).0 ≡ some w
      → (allows p i ≡ true) × (Decimal.le w p.max_position_weight ≡ true)
  unfolding assess_symbol
  known-Keeps i symbol requested w h =
      let self = le_self p.max_position_weight in
      let below = le_of_not_lt requested p.max_position_weight in
      elim (Bool-cases (allows p i)) [
        | inl allowed ↦ (allowed, within self below (rw allowed at h))
        | inr refused ↦ absurd (nothing (rw refused at h))
      ]
    where
      nothing : ◌≡◌ {A = Option Decimal} none (some w) → ⊥
      nothing e = cc

      carry :
          (v : Decimal)
          → ◌≡◌ {A = Option Decimal} (some v) (some w)
          → Decimal.le v p.max_position_weight ≡ true
          → Decimal.le w p.max_position_weight ≡ true
      carry v e h = let same : v ≡ w = cc in rw (← same) h

      within :
          Decimal.le p.max_position_weight p.max_position_weight ≡ true
          → (Decimal.lt p.max_position_weight requested ≡ false
              → Decimal.le requested p.max_position_weight ≡ true)
          → (let pair : Option Decimal × List RiskCode =
                if Decimal.lt p.max_position_weight requested
                then (some p.max_position_weight, RiskCode.position_reduced symbol ∷ [])
                else (some requested, []) in
              pair.0 ≡ some w)
          → Decimal.le w p.max_position_weight ≡ true
      within self below e = elim (Bool-cases (Decimal.lt p.max_position_weight requested)) [
        | inl over ↦ carry p.max_position_weight (rw over at e) self
        | inr under ↦ carry requested (rw under at e) (below under)
      ]

  assess_symbol-Keeps :
      (found : Option Instrument) (symbol : Name) (requested w : Decimal)
      → get instruments symbol ≡ found
      → (assess_symbol found p symbol requested).0 ≡ some w
      → Keeps (symbol, w)
  unfolding assess_symbol
  assess_symbol-Keeps none symbol requested w known h = cc
  assess_symbol-Keeps (some i) symbol requested w known h =
      let (allowed, within) = known-Keeps i symbol requested w h in (i, known, allowed, within)

  put_some-Keeps :
      (d : Dict Decimal) (symbol : Name) (weight : Option Decimal)
      → All Keeps d
      → ((w : Decimal) → weight ≡ some w → Keeps (symbol, w))
      → All Keeps (put_some d symbol weight)
  put_some-Keeps d symbol none h k = h
  put_some-Keeps d symbol (some w) h k = put-Keeps d symbol w h (k w refl)

  -- The loop over the weights keeps to the policy.
  assess_weights-Keeps :
      (weights approved : Dict Decimal) (codes : List RiskCode)
      → All Keeps approved
      → All Keeps (assess_weights instruments p weights approved codes).0
  unfolding assess_weights
  assess_weights-Keeps [] approved codes h = h
  assess_weights-Keeps ((symbol, requested) ∷ rest) approved codes h =
      let (weight, added) = assess_symbol (get instruments symbol) p symbol requested in
      assess_weights-Keeps rest (put_some approved symbol weight) (codes ++ added) (
        put_some-Keeps approved symbol weight h
          (λ w e. assess_symbol-Keeps (get instruments symbol) symbol requested w refl e))

  -- An accepted intent has only approved weights that keep to the policy, and they come to at most
  -- what the minimum of cash leaves.
  pub assess_intent-Keeps :
      (intent : PortfolioIntent)
      → (assess_intent intent instruments p).accepted ≡ true
      → let a = assess_intent intent instruments p in
        All Keeps a.approved_weights
        × (Decimal.le (sum_weights (Decimal.of_ℕ 0) a.approved_weights) (investable p) ≡ true)
  unfolding assess_intent
  assess_intent-Keeps intent h =
      let (approved, codes) = assess_weights instruments p intent.target_weights [] [] in
      let kept : All Keeps approved = assess_weights-Keeps intent.target_weights [] [] tt in
      let total = sum_weights (Decimal.of_ℕ 0) approved in
      elim (Bool-cases (any is_refusal codes)) [
        | inl bad ↦ absurd (not_accepted (rw bad at h))
        | inr good ↦ elim (Bool-cases (Decimal.lt (investable p) total)) [
          | inl over ↦ absurd (not_accepted (rw (good, over) at h))
          | inr under ↦ rw (good, under) (kept, le_of_not_lt total (investable p) under)
        ]
      ]
    where
      not_accepted : Bool.false ≡ true → ⊥
      not_accepted e = cc
