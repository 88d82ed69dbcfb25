-- ===== src/Market/Components/Sets.antt =====
-- The set operations on lists that the scopes of marketdata/components.py use.
use mini_qmt.Common.{
  ◌≡◌, ◌↔◌, ◌⊎◌, refl, arith, Bool, true, false, not, ◌&&◌, ◌||◌, List, [], ◌∷◌, ◌==◌, ==_iff,
  Bool-cases, inl, inr,
}
use mini_qmt.Market.{Name}
use mini_qmt.Market.Components.{member, share, is_within}

pub parts : (a b : Bool) → (a && b) ≡ true → (a ≡ true) × (b ≡ true)
parts true b h = (refl, h)
parts false b h = absurd (cc h)

pub both : (a b : Bool) → a ≡ true → b ≡ true → (a && b) ≡ true
both a b h k = rw (h, k) refl

pub member_here : (n : Name) (ns : List Name) → member (n ∷ ns) n ≡ true
member_here n ns = ground arith

pub member_later : (x n : Name) (xs : List Name) → member xs n ≡ true → member (x ∷ xs) n ≡ true
member_later x n xs h = ground arith

pub member-cases :
    (x n : Name) (xs : List Name) → member (x ∷ xs) n ≡ true → (x ≡ n) ⊎ (member xs n ≡ true)
member-cases x n xs h = elim (Bool-cases (x == n)) [
  | inl e ↦ inl ((==_iff x n).0 e)
  | inr e ↦ inr (rw e at h)
]

-- The subset test is inclusion.
pub is_within_iff :
    (left right : List Name)
    → (is_within left right ≡ true) ↔ ((n : Name) → member left n ≡ true → member right n ≡ true)
is_within_iff [] right = (λ h n k. absurd (cc k), λ h. refl)
is_within_iff (x ∷ xs) right =
    let (inward, outward) = is_within_iff xs right in
    (
      λ h n k. elim (member-cases x n xs k) [
        | inl e ↦ rw (← e) (first (member right x) _ h)
        | inr l ↦ inward (rest (member right x) _ h) n l
      ],
      λ h. rw (h x (member_here x xs)) (outward (λ n k. h n (member_later x n xs k))),
    )
  where
    first : (b c : Bool) → not (not b || c) ≡ true → b ≡ true
    first true c h = refl
    first false c h = absurd (cc h)

    rest : (b c : Bool) → not (not b || c) ≡ true → not c ≡ true
    rest true c h = h
    rest false c h = absurd (cc h)

-- The test of the intersection finds a common element.
pub share_iff :
    (left right : List Name)
    → (share left right ≡ true) ↔ ((n : Name) × (member left n ≡ true) × (member right n ≡ true))
share_iff [] right = (λ h. absurd (cc h), λ (n, h, k). absurd (cc h))
share_iff (x ∷ xs) right =
    let (find, back) = share_iff xs right in
    (
      λ h. elim (Bool-cases (member right x)) [
        | inl e ↦ (x, member_here x xs, e)
        | inr e ↦ let (n, l, r) = find (rw e at h) in (n, member_later x n xs l, r)
      ],
      λ (n, l, r). elim (member-cases x n xs l) [
        | inl e ↦ rw (e, r) refl
        | inr k ↦ or_true (member right x) (back (n, k, r))
      ],
    )
  where
    or_true : (b : Bool) {c : Bool} → c ≡ true → (b || c) ≡ true
    or_true true h = refl
    or_true false h = h
