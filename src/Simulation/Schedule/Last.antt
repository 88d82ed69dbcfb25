-- ===== src/Simulation/Schedule/Last.antt =====
-- A scheduled day is the last trading day of its period.
use mini_qmt.Common.{
  ℕ, ◌+◌, ◌-◌, ◌≤◌, ◌<◌, ◌≡◌, refl, sym, ◌∙◌, ◌↔◌, ◌⊎◌, inl, inr, arith, Bool, true, false, ◌||◌,
  List, [], ◌∷◌, ltb, ◌==◌, ==_iff, Bool-cases, All,
}
use mathlib.Core.Path.{subst}
use mini_qmt.Common.Sorting.{sorted_set}
use mini_qmt.Market.{Day}
use mini_qmt.Kernel.Setup.{is_session}
use mini_qmt.Kernel.Setup.Calendar.{Ascending, sorted_set-Ascending, sorted_set-is_session}
use mini_qmt.Simulation.Schedule.{
  RebalanceFrequency, daily, weekly, monthly, iso_week, same_week, same_month, boundaries,
  scheduled_trading_days, is_rebalance_day,
}
use mini_qmt.Simulation.Schedule.Months.{year_month, month_key, key_mono, month_of_year}

-- The day is one of the days, and no later one is of its period.
abbrev pub IsLast : (Day → Day → Bool) → List Day → Day → Type 0
IsLast same days day =
    (is_session days day ≡ true)
    × ((e : Day) → is_session days e ≡ true → same day e ≡ true → e ≤ day)

pub All-is_session :
    (P : Day → Type 0) (days : List Day) (e : Day) → All P days → is_session days e ≡ true → P e
All-is_session P [] e h k = absurd (cc k)
All-is_session P (d ∷ days) e h k = elim (Bool-cases (d == e)) [
  | inl here ↦ rw (← (==_iff d e).0 here) h.0
  | inr there ↦ All-is_session P days e h.1 (rw there at k)
]

at_head : (a e : ℕ) (rest : Bool) → (a == e || rest) ≡ true → (a ≡ e) ⊎ (rest ≡ true)
at_head a e true h = inr refl
at_head a e false h = inl (ground arith)

in_head : (a e : ℕ) (rest : Bool) → rest ≡ true → (a == e || rest) ≡ true
in_head a e rest h = ground arith

head_in : (a : ℕ) (rest : Bool) → (a == a || rest) ≡ true
head_in a rest = ground arith

-- A period is a number that does not fall from day to day.
module _ (same : Day → Day → Bool) (key : Day → ℕ) (mono : (d k : ℕ) → key d ≤ key (d + k))
    (same_iff : (d e : Day) → (same d e ≡ true) ↔ (key d ≡ key e)) where
  mono_of : (d e : Day) → d ≤ e → key d ≤ key e
  mono_of d e h = let at_e : d + (e - d) ≡ e = omega arith in rw at_e at (mono d (e - d))

  -- A day in front that is of the period of a later one is of the period of the next.
  next_same : (x y e : Day) → x < y → y ≤ e → same x e ≡ true → same x y ≡ true
  next_same x y e h k s =
      (same_iff x y).1 (omega (arith, mono_of x y (omega arith), mono_of y e k, (same_iff x e).0 s))

  from_next :
      (y e : Day) (days : List Day) → Ascending (y ∷ days) → is_session (y ∷ days) e ≡ true → y ≤ e
  from_next y e days h k = elim (at_head y e (is_session days e) k) [
    | inl here ↦ omega arith
    | inr there ↦ let later : y < e = All-is_session (λ z. y < z) days e h.0 there in omega arith
  ]

  -- The days from the next one on, with a day in front.
  with_front :
      (x y d : Day) (days : List Day)
      → Ascending (x ∷ y ∷ days)
      → IsLast same (y ∷ days) d
      → IsLast same (x ∷ y ∷ days) d
  with_front x y d days h (inside, last) = (in_head x d (is_session (y ∷ days) d) inside, no_later)
    where
      no_later : (e : Day) → is_session (x ∷ y ∷ days) e ≡ true → same d e ≡ true → e ≤ d
      no_later e k s = elim (at_head x e (is_session (y ∷ days) e) k) [
        | inl here ↦
            let later : x < d = All-is_session (λ z. x < z) (y ∷ days) d h.0 inside in omega arith
        | inr there ↦ last e there s
      ]

  front-IsLast :
      (x y : Day) (days : List Day)
      → Ascending (x ∷ y ∷ days)
      → same x y ≡ false
      → IsLast same (x ∷ y ∷ days) x
  front-IsLast x y days h different = (head_in x (is_session (y ∷ days) x), no_later)
    where
      no_later : (e : Day) → is_session (x ∷ y ∷ days) e ≡ true → same x e ≡ true → e ≤ x
      no_later e k s = elim (at_head x e (is_session (y ∷ days) e) k) [
        | inl here ↦ omega arith
        | inr there ↦
            let all_same = next_same x y e h.0.0 (from_next y e days h.1 there) s in
            absurd (cc (sym different ∙ all_same))
      ]

  without_front :
      (x y d : Day) (days : List Day)
      → IsLast same (x ∷ y ∷ days) d
      → is_session (y ∷ days) d ≡ true
      → IsLast same (y ∷ days) d
  without_front x y d days (_, last) inside =
      (inside, λ e k s. last e (in_head x e (is_session (y ∷ days) e) k) s)

  boundaries-IsLast :
      (d : Day) (days : List Day)
      → Ascending days
      → (is_session (boundaries same days) d ≡ true) ↔ IsLast same days d
  unfolding boundaries
  boundaries-IsLast d [] h = (λ k. absurd (cc k), λ k. k.0)
  boundaries-IsLast d (x ∷ []) h = (λ k. (k, alone k), λ k. k.0)
    where
      alone :
          is_session (x ∷ []) d ≡ true
          → (e : Day) → is_session (x ∷ []) e ≡ true
          → same d e ≡ true
          → e ≤ d
      alone k e l s = ground arith
  boundaries-IsLast d (x ∷ y ∷ days) h =
      let (there, back) = boundaries-IsLast d (y ∷ days) h.1 in
      elim (Bool-cases (same x y)) [
        | inl one ↦ rw one (
          λ k. with_front x y d days h (there k),
          λ last. elim (at_head x d (is_session (y ∷ days) d) last.0) [
            | inl here ↦
                let over : y ≤ d =
                  last.1 y (in_head x y _ (head_in y (is_session days y))) (rw here at one) in
                absurd (omega (arith, h.0.0))
            | inr inside ↦ back (without_front x y d days last inside)
          ],
        )
        | inr two ↦ rw two (
          λ k. elim (at_head x d (is_session (boundaries same (y ∷ days)) d) k) [
            | inl here ↦
                subst (λ z. IsLast same (x ∷ y ∷ days) z) here (front-IsLast x y days h two)
            | inr inside ↦ with_front x y d days h (there inside)
          ],
          λ last. elim (at_head x d (is_session (y ∷ days) d) last.0) [
            | inl here ↦ ground arith
            | inr inside ↦
                in_head x d (is_session (boundaries same (y ∷ days)) d)
                  (back (without_front x y d days last inside))
          ],
        )
      ]

  -- The same of days in any order, with repetitions.
  pub boundaries_of_set :
      (d : Day) (days : List Day)
      → (is_session (boundaries same (sorted_set ltb days)) d ≡ true) ↔ IsLast same days d
  boundaries_of_set d days =
      let (there, back) = boundaries-IsLast d (sorted_set ltb days) (sorted_set-Ascending days) in
      (
        λ k.
            let (inside, last) = there k in
            (
              sym (sorted_set-is_session d days) ∙ inside,
              λ e l s. last e (sorted_set-is_session e days ∙ l) s,
            ),
        λ (inside, last). back (
          sorted_set-is_session d days ∙ inside,
          λ e l s. last e (sym (sorted_set-is_session e days) ∙ l) s,
        ),
      )

-- Whether two days are of one period of a frequency.
abbrev pub same_period : RebalanceFrequency → Day → Day → Bool
same_period daily d e = d == e
same_period weekly d e = same_week d e
same_period monthly d e = same_month d e

week_iff : (d e : Day) → (same_week d e ≡ true) ↔ (iso_week d ≡ iso_week e)
week_iff d e = ==_iff (iso_week d) (iso_week e)

week_mono : (d k : ℕ) → iso_week d ≤ iso_week (d + k)
week_mono d k = omega arith

month_iff :
    (d e : Day) → (same_month d e ≡ true) ↔ (month_key (year_month d) ≡ month_key (year_month e))
month_iff d e =
    let (low, high) = month_of_year d in
    let (low', high') = month_of_year e in (λ h. ground arith, λ h. ground arith)

-- The rebalancing days of a frequency are the trading days after which no trading day of the same
-- day, week or month follows. The trading days may come in any order and repeatedly.
pub is_rebalance_day-IsLast :
    (day : Day) (trading_days : List Day) (frequency : RebalanceFrequency)
    → (is_rebalance_day day trading_days frequency ≡ true)
      ↔ IsLast (same_period frequency) trading_days day
unfolding is_rebalance_day scheduled_trading_days
is_rebalance_day-IsLast day trading_days daily = (
  λ h. (sym (sorted_set-is_session day trading_days) ∙ h, λ e k s. ground arith),
  λ (inside, _). sorted_set-is_session day trading_days ∙ inside,
)
is_rebalance_day-IsLast day trading_days weekly =
    boundaries_of_set same_week iso_week week_mono week_iff day trading_days
is_rebalance_day-IsLast day trading_days monthly =
    boundaries_of_set same_month (λ d. month_key (year_month d)) key_mono month_iff day trading_days
