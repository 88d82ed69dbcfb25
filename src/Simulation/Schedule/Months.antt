-- ===== src/Simulation/Schedule/Months.antt =====
-- Python's `date.year` and `date.month` of an ordinal, by the cycles of the Gregorian calendar.
use mini_qmt.Common.{
  ℕ, zero, suc, ◌+◌, ◌-◌, ◌*◌, ◌/◌, ◌%◌, ◌≤◌, ◌<◌, ◌≡◌, refl, arith, Bool, true, false, not, ◌&&◌,
  ◌||◌, Option, none, some, List, [], ◌∷◌, ltb, leb, ◌==◌, if◌then◌else◌, get_elem?, ◌⊎◌, inl, inr,
}
use mini_qmt.Market.{Day}
use native.Mathlib.Decide.{dec_lt}

-- The days of a common year before each month, from the first month on.
abbrev month_starts : List ℕ
month_starts = 0 ∷ 31 ∷ 59 ∷ 90 ∷ 120 ∷ 151 ∷ 181 ∷ 212 ∷ 243 ∷ 273 ∷ 304 ∷ 334 ∷ []

abbrev or_year_end : Option ℕ → ℕ
or_year_end none = 365
or_year_end (some n) = n

-- The days of a year before a month.
days_before : Bool → ℕ → ℕ
days_before leap month =
    or_year_end (get_elem? month_starts (month - 1)) + (if leap && ltb 2 month then 1 else 0)

-- The month of the day after `n` days of a year: an estimate that is at most one too many.
month_in_year : Bool → ℕ → ℕ
unfolding days_before
month_in_year leap n =
    let month = (n + 50) / 32 in if ltb n (days_before leap month) then month - 1 else month

-- The whole cycles of 400, 100 and 4 years and the years before a day, and the days left.
pub record Cycles : Type 0 where
  pub n400 : ℕ
  pub n100 : ℕ
  pub n4 : ℕ
  pub n1 : ℕ
  pub days : ℕ

cycles : ℕ → Cycles
cycles n = record {
  n400 = n / 146097;
  n100 = n % 146097 / 36524;
  n4 = n % 146097 % 36524 / 1461;
  n1 = n % 146097 % 36524 % 1461 / 365;
  days = n % 146097 % 36524 % 1461 % 365;
}

abbrev year_of : Cycles → ℕ
year_of c = c.n400 * 400 + 1 + c.n100 * 100 + c.n4 * 4 + c.n1

-- The last day of a leap year closes a cycle.
abbrev closes_cycle : Cycles → Bool
closes_cycle c = c.n1 == 4 || c.n100 == 4

abbrev is_leap : Cycles → Bool
is_leap c = c.n1 == 3 && (not (c.n4 == 24) || c.n100 == 3)

-- The year and the month, by whether the day closes a cycle.
abbrev year_month_by : Bool → Cycles → ℕ × ℕ
year_month_by true c = (year_of c - 1, 12)
year_month_by false c = (year_of c, month_in_year (is_leap c) c.days)

abbrev year_month_of : Cycles → ℕ × ℕ
year_month_of c = year_month_by (closes_cycle c) c

unfoldable pub year_month : Day → ℕ × ℕ
unfolding cycles month_in_year
year_month day = year_month_of (cycles (day - 1))

-- 2024-02-29, 2024-12-31, 2000-12-31 and 1970-01-01.
leap_day : year_month 738945 ≡ (2024, 2)
unfolding year_month
leap_day = refl

leap_year_end : year_month 739251 ≡ (2024, 12)
unfolding year_month
leap_year_end = refl

century_end : year_month 730485 ≡ (2000, 12)
unfolding year_month
century_end = refl

epoch : year_month 719163 ≡ (1970, 1)
unfolding year_month
epoch = refl

month_ok : Bool → ℕ → Bool
unfolding month_in_year
month_ok leap n =
    leb 1 (month_in_year leap n)
    && leb (month_in_year leap n) 12
    && leb (month_in_year leap n) (month_in_year leap (suc n))

all_ok : Bool → ℕ → Bool
all_ok leap zero = true
all_ok leap (suc n) = month_ok leap n && all_ok leap n

all_ok_sound : (leap : Bool) (n m : ℕ) → all_ok leap n ≡ true → m < n → month_ok leap m ≡ true
unfolding all_ok
all_ok_sound leap zero m h lt = absurd (omega arith)
all_ok_sound leap (suc n) m h lt = ground (arith, all_ok_sound leap n m)

month_table : (leap : Bool) → all_ok leap 365 ≡ true
unfolding all_ok month_ok
month_table true = refl
month_table false = refl

-- Division by a fixed number, one on: with a carry or without one.
abbrev Carry : ℕ → ℕ → Type 0
Carry m n =
    ((suc n / m ≡ n / m) × (suc n % m ≡ suc (n % m)))
    ⊎ ((suc n / m ≡ suc (n / m)) × (suc n % m ≡ 0) × (n % m ≡ m - 1))

Carry-365 : (n : ℕ) → Carry 365 n
Carry-365 n = elim (dec_lt (n % 365) 364) [
  | yes h ↦ inl (omega arith, omega arith)
  | no h ↦ inr (omega arith, omega arith, omega arith)
]

Carry-1461 : (n : ℕ) → Carry 1461 n
Carry-1461 n = elim (dec_lt (n % 1461) 1460) [
  | yes h ↦ inl (omega arith, omega arith)
  | no h ↦ inr (omega arith, omega arith, omega arith)
]

Carry-36524 : (n : ℕ) → Carry 36524 n
Carry-36524 n = elim (dec_lt (n % 36524) 36523) [
  | yes h ↦ inl (omega arith, omega arith)
  | no h ↦ inr (omega arith, omega arith, omega arith)
]

Carry-146097 : (n : ℕ) → Carry 146097 n
Carry-146097 n = elim (dec_lt (n % 146097) 146096) [
  | yes h ↦ inl (omega arith, omega arith)
  | no h ↦ inr (omega arith, omega arith, omega arith)
]

-- One day on: the same year with one more day, the next year, or the day after a closed cycle.
data Next (c d : Cycles) : Type 0 where
  same_year :
      d.n400 ≡ c.n400 → d.n100 ≡ c.n100 → d.n4 ≡ c.n4 → d.n1 ≡ c.n1 → d.days ≡ suc c.days → Next c d
  next_year : year_of d ≡ suc (year_of c) → Next c d
  after_close : closes_cycle c ≡ true → closes_cycle d ≡ false → year_of d ≡ year_of c → Next c d

-- The last day of four years is not that of four centuries.
open_cycle : (x : ℕ) → x < 146097 → x % 36524 % 1461 ≡ 1460 → (x / 36524 == 4) ≡ false
open_cycle x lt h = ground arith

cycles-Next : (n : ℕ) → Next (cycles n) (cycles (suc n))
unfolding cycles
cycles-Next n = elim (Carry-146097 n) [
  | inr (q, r, last) ↦ after_close (rw last refl) (rw r refl) (rw (q, r, last) (omega arith))
  | inl (q, r) ↦ elim (Carry-36524 (n % 146097)) [
    | inr (q', r', last) ↦ next_year (rw (q, r, q', r', last) (omega arith))
    | inl (q', r') ↦ elim (Carry-1461 (n % 146097 % 36524)) [
      | inr (q'', r'', last) ↦
          after_close (rw last refl)
            (rw (r, q', r', r'') (open_cycle (n % 146097) (omega arith) last))
            (rw (q, r, q', r', q'', r'', last) (omega arith))
      | inl (q'', r'') ↦ elim (Carry-365 (n % 146097 % 36524 % 1461)) [
        | inr (q3, r3, last) ↦ next_year (rw (q, r, q', r', q'', r'', q3) (omega arith))
        | inl (q3, r3) ↦
            same_year q (rw r q') (rw (r, r') q'') (rw (r, r', r'') q3) (rw (r, r', r'') r3)
      ]
    ]
  ]
]

-- Months counted over all years.
abbrev pub month_key : ℕ × ℕ → ℕ
month_key (year, month) = year * 12 + month

month_bounds :
    (leap : Bool) (n : ℕ)
    → n < 365
    → (1 ≤ month_in_year leap n)
      × (month_in_year leap n ≤ 12)
      × (month_in_year leap n ≤ month_in_year leap (suc n))
month_bounds leap n h =
    split_and (month_in_year leap n) (month_in_year leap (suc n))
      (unfold month_ok in all_ok_sound leap 365 n (month_table leap) h)
  where
    split_and : (a b : ℕ) → (leb 1 a && leb a 12 && leb a b) ≡ true → (1 ≤ a) × (a ≤ 12) × (a ≤ b)
    split_and a b k = ground arith

days_bound : (n : ℕ) → (cycles n).days < 365
unfolding cycles
days_bound n = omega arith

-- A day lies in a month of its year, or closes a cycle in the last month of the year before.
key_bounds :
    (c : Cycles)
    → c.days < 365
    → (0 < year_of c)
      × (year_of c * 12 ≤ month_key (year_month_of c))
      × (month_key (year_month_of c) ≤ year_of c * 12 + 12)
key_bounds c h = go (closes_cycle c) (month_bounds (is_leap c) c.days h)
  where
    go :
        (b : Bool)
        → (1 ≤ month_in_year (is_leap c) c.days)
          × (month_in_year (is_leap c) c.days ≤ 12)
          × (month_in_year (is_leap c) c.days ≤ month_in_year (is_leap c) (suc c.days))
        → (0 < year_of c)
          × (year_of c * 12 ≤ month_key (year_month_by b c))
          × (month_key (year_month_by b c) ≤ year_of c * 12 + 12)
    go true k = omega arith
    go false k = omega arith

key_step :
    (c d : Cycles)
    → c.days < 365
    → d.days < 365
    → Next c d
    → month_key (year_month_of c) ≤ month_key (year_month_of d)
key_step c d hc hd (next_year e) =
    let (_, _, above) = key_bounds c hc in let (_, below, _) = key_bounds d hd in omega arith
key_step c d hc hd (after_close closed open_ e) =
    let (pos_, _, _) = key_bounds c hc in
    let (_, below, _) = key_bounds d hd in
    let here : month_key (year_month_of c) ≡ year_of c * 12 = rw closed (omega arith) in omega arith
key_step c d hc hd (same_year e1 e2 e3 e4 e5) =
    let (_, _, grows) = month_bounds (is_leap c) c.days hc in
    rw (e1, e2, e3, e4, e5) (go (closes_cycle c) grows)
  where
    go :
        (b : Bool)
        → month_in_year (is_leap c) c.days ≤ month_in_year (is_leap c) (suc c.days)
        → month_key (year_month_by b c)
          ≤ month_key (year_month_by b (record c { days = suc c.days }))
    go true k = omega arith
    go false k = omega arith

-- Months do not go back.
key_next : (d : Day) → month_key (year_month d) ≤ month_key (year_month (suc d))
unfolding year_month
key_next zero = omega arith
key_next (suc d) =
    let less : suc d - 1 ≡ d = omega arith in
    let same : suc (suc d) - 1 ≡ suc d = omega arith in
    rw (less, same)
      (key_step (cycles d) (cycles (suc d)) (days_bound d) (days_bound (suc d)) (cycles-Next d))

pub key_mono : (d k : ℕ) → month_key (year_month d) ≤ month_key (year_month (d + k))
key_mono d zero = let same : d + 0 ≡ d = omega arith in rw same (omega arith)
key_mono d (suc k) =
    let next : d + suc k ≡ suc (d + k) = omega arith in
    rw next (omega (arith, key_mono d k, key_next (d + k)))

pub month_of_year : (d : Day) → (1 ≤ (year_month d).1) × ((year_month d).1 ≤ 12)
unfolding year_month
month_of_year d =
    go (cycles (d - 1)) (closes_cycle (cycles (d - 1)))
      (month_bounds (is_leap (cycles (d - 1))) (cycles (d - 1)).days (days_bound (d - 1)))
  where
    go :
        (c : Cycles) (b : Bool)
        → (1 ≤ month_in_year (is_leap c) c.days)
          × (month_in_year (is_leap c) c.days ≤ 12)
          × (month_in_year (is_leap c) c.days ≤ month_in_year (is_leap c) (suc c.days))
        → (1 ≤ (year_month_by b c).1) × ((year_month_by b c).1 ≤ 12)
    go c true k = omega arith
    go c false k = omega arith
