-- ===== src/Trading/Fees/Selection.antt =====
-- The rule that a schedule settles on.
use mini_qmt.Common.{
  ◌≡◌, refl, sym, ◌∙◌, ap, inl, inr, arith, Bool, true, List, [], ◌∷◌, ok, Bool-cases,
  if◌then◌else◌, All, keep_if, ok-injective,
}
use mini_qmt.Common.Int.{ℤ, ltb_ℤ, leb_ℤ, eqb_ℤ}
use mini_qmt.Market.{Day}
use mini_qmt.Trading.Fees.{
  FeeRule, FeeSchedule, matches, top_priority, winners, sole, settle, select_rule,
}
use mathlib.Core.Path.{subst}
use Prim.Native.String.{String}

keep_if-cong {ℓ} :
    {A : Type ℓ} (p q : A → Bool) (xs : List A)
    → All (λ x. p x ≡ q x) xs
    → keep_if p xs ≡ keep_if q xs
keep_if-cong p q [] h = refl
keep_if-cong p q (x ∷ xs) h = elim (Bool-cases (q x)) [
  | inl yes_ ↦ rw (h.0, yes_) (ap (λ ys. x ∷ ys) (keep_if-cong p q xs h.1))
  | inr no_ ↦ rw (h.0, no_) (keep_if-cong p q xs h.1)
]

-- What a filter keeps passes it, and has whatever every element had.
pub keep_if-All {ℓ} :
    {A : Type ℓ} (p : A → Bool) (P : A → Type 0) (xs : List A)
    → All P xs
    → All (λ x. (p x ≡ true) × P x) (keep_if p xs)
keep_if-All p P [] h = tt
keep_if-All p P (x ∷ xs) h = elim (Bool-cases (p x)) [
  | inl yes_ ↦ rw yes_ ((yes_, h.0), keep_if-All p P xs h.1)
  | inr no_ ↦ rw no_ (keep_if-All p P xs h.1)
]

top_step :
    (a b t : ℤ)
    → leb_ℤ (if ltb_ℤ a b then b else a) t ≡ true
    → (leb_ℤ a t ≡ true) × (leb_ℤ b t ≡ true)
top_step a b t h = (ground arith, ground arith)

-- The greatest priority is at least the first, and at least each of the others.
top_priority-ge :
    (best : ℤ) (rs : List FeeRule)
    → (leb_ℤ best (top_priority best rs) ≡ true)
      × All (λ r. leb_ℤ r.priority (top_priority best rs) ≡ true) rs
top_priority-ge best [] = (ground arith, tt)
top_priority-ge best (r ∷ rs) =
    let next = if ltb_ℤ best r.priority then r.priority else best in
    let (first, others) = top_priority-ge next rs in
    let (le, le') = top_step best r.priority (top_priority next rs) first in (le, (le', others))

at_least : (a best : ℤ) → leb_ℤ a best ≡ true → eqb_ℤ a best ≡ leb_ℤ best a
at_least a best h = ground arith

All-at_least :
    (best : ℤ) (rs : List FeeRule)
    → All (λ r. leb_ℤ r.priority best ≡ true) rs
    → All (λ (r : FeeRule). eqb_ℤ r.priority best ≡ leb_ℤ best r.priority) rs
All-at_least best [] h = tt
All-at_least best (r ∷ rs) h = (at_least r.priority best h.0, All-at_least best rs h.1)

same_priority : (a b : ℤ) → eqb_ℤ a b ≡ true → b ≡ a
same_priority a b h = ground arith

sole_lem : (rs : List FeeRule) {r : FeeRule} → sole rs ≡ ok r → rs ≡ r ∷ []
sole_lem [] h = absurd (cc h)
sole_lem (x ∷ []) {r} h = let e : x ≡ r = ok-injective h in rw e refl
sole_lem (x ∷ y ∷ ys) h = absurd (cc h)

settle_lem :
    (rs : List FeeRule) {r : FeeRule}
    → settle rs ≡ ok r
    → keep_if (λ (c : FeeRule). leb_ℤ r.priority c.priority) rs ≡ r ∷ []
settle_lem [] h = absurd (cc h)
settle_lem (x ∷ xs) {r} h =
    let best = top_priority x.priority xs in
    let only : winners x xs ≡ r ∷ [] = sole_lem (winners x xs) h in
    let bounds : All (λ (c : FeeRule). leb_ℤ c.priority best ≡ true) (x ∷ xs) =
      top_priority-ge x.priority xs in
    let greatest =
      keep_if-cong (λ (c : FeeRule). eqb_ℤ c.priority best) (λ c. leb_ℤ best c.priority) (x ∷ xs)
        (All-at_least best (x ∷ xs) bounds) in
    let passed : All (λ (c : FeeRule). (eqb_ℤ c.priority best ≡ true) × Unit) (winners x xs) =
      keep_if-All (λ (c : FeeRule). eqb_ℤ c.priority best) (λ _. Unit) (x ∷ xs)
        (anything (x ∷ xs)) in
    let own : All (λ (c : FeeRule). (eqb_ℤ c.priority best ≡ true) × Unit) (r ∷ []) =
      rw only at passed in
    carry r.priority best (same_priority r.priority best own.0.0) (sym greatest ∙ only)
  where
    carry :
        (p best : ℤ)
        → best ≡ p
        → keep_if (λ (c : FeeRule). leb_ℤ best c.priority) (x ∷ xs) ≡ r ∷ []
        → keep_if (λ (c : FeeRule). leb_ℤ p c.priority) (x ∷ xs) ≡ r ∷ []
    carry p best e h =
        subst (λ (q : ℤ). keep_if (λ (c : FeeRule). leb_ℤ q c.priority) (x ∷ xs) ≡ r ∷ []) e h

    anything : (ys : List FeeRule) → All (λ _. Unit {0}) ys
    anything [] = tt
    anything (y ∷ ys) = (tt, anything ys)

-- The rule that is selected matches, and it is the only matching rule whose priority is not below
-- its own: it stands alone at the greatest priority. It has what every rule of the schedule has.
pub select_rule-top :
    (s : FeeSchedule) (day : Day) (asset_type exchange : String) (P : FeeRule → Type 0)
    {r : FeeRule}
    → All P s.rules
    → select_rule s day asset_type exchange ≡ ok r
    → (matches r day asset_type exchange ≡ true)
      × P r
      × (keep_if
            (λ (c : FeeRule). leb_ℤ r.priority c.priority)
            (keep_if (λ c. matches c day asset_type exchange) s.rules)
          ≡ r ∷ [])
unfolding select_rule
select_rule-top s day asset_type exchange P {r} all h =
    let candidates = keep_if (λ c. matches c day asset_type exchange) s.rules in
    let alone = settle_lem candidates h in
    let kept = keep_if-All (λ c. matches c day asset_type exchange) P s.rules all in
    let above =
      keep_if-All (λ (c : FeeRule). leb_ℤ r.priority c.priority)
        (λ c. (matches c day asset_type exchange ≡ true) × P c) candidates kept in
    let own : All
        (λ (c : FeeRule).
          (leb_ℤ r.priority c.priority ≡ true) × ((matches c day asset_type exchange ≡ true) × P c))
        (r ∷ []) =
      rw alone at above in
    (own.0.1.0, own.0.1.1, alone)
