-- ===== src/Market/Portal/Visible.antt =====
-- The queries of the calendar of marketdata/portal.py agree with one another.
use mini_qmt.Common.{
  ◌<◌, ◌≡◌, refl, sym, ap, ◌∙◌, arith, Bool, true, false, ◌&&◌, Option, some, List, [], ◌∷◌, ltb,
  leb, if◌then◌else◌, Option-cases, inl, inr, ok, raise_if-eq-ok, ok-injective, keep_if, All, find,
  value_error,
}
use mini_qmt.Common.Sorting.{insert_new, sorted_set}
use mini_qmt.Market.{Day}
use mini_qmt.Market.Portal.{
  CanonicalMarketData, CalendarRow, session_dates, is_open, is_open_between, is_open_after,
  trading_days, all_trading_days, min_with, earliest, next_trading_day,
}
use mini_qmt.Kernel.Setup.{is_session}
use mini_qmt.Kernel.Setup.Calendar.{Ascending, sorted_set-Ascending, sorted_set-is_session}

-- What is found after a day is not before the first day.
found_from :
    (v y : Day) (ys : List Day) (e : Day)
    → All (λ z. y < z) ys
    → find (λ d. ltb v d) ys ≡ some e
    → y < e
found_from v y [] e h k = absurd (cc k)
found_from v y (z ∷ zs) e h k = ground (arith, found_from v y zs e h.1)

found_min :
    (v x : Day) (ys : List Day) → All (λ z. x < z) ys → min_with x (find (λ d. ltb v d) ys) ≡ some x
found_min v x ys h = elim (Option-cases (find (λ d. ltb v d) ys)) [
  | inl nothing ↦ rw nothing refl
  | inr (e, found) ↦ rw found (less e (found_from v x ys e h found))
]
  where
    less : (e : Day) → x < e → ◌≡◌ {A = Option Day} (some (if ltb e x then e else x)) (some x)
    less e k = ground arith

find-insert_new :
    (v x : Day) (ys : List Day)
    → Ascending ys
    → find (λ d. ltb v d) (insert_new ltb x ys)
      ≡ (if ltb v x then min_with x (find (λ d. ltb v d) ys) else find (λ d. ltb v d) ys)
unfolding insert_new
find-insert_new v x [] h = refl
find-insert_new v x (y ∷ ys) h = ground (arith, find-insert_new v x ys h.1, found_min v x ys)

find-sorted_set :
    (v : Day) (ds : List Day)
    → find (λ d. ltb v d) (sorted_set ltb ds) ≡ earliest (keep_if (λ d. ltb v d) ds)
unfolding sorted_set
find-sorted_set v [] = refl
find-sorted_set v (d ∷ ds) =
    find-insert_new v d (sorted_set ltb ds) (sorted_set-Ascending ds)
    ∙ rw (find-sorted_set v ds) (under (ltb v d))
  where
    under :
        (b : Bool)
        → (if b
            then min_with d (earliest (keep_if (λ z. ltb v z) ds))
            else earliest (keep_if (λ z. ltb v z) ds))
          ≡ earliest (if b then d ∷ keep_if (λ z. ltb v z) ds else keep_if (λ z. ltb v z) ds)
    under true = refl
    under false = refl

-- Filtering the rows by day is filtering the days.
session_dates-after :
    (v : Day) (rows : List CalendarRow)
    → session_dates (keep_if (is_open_after v) rows)
      ≡ keep_if (λ d. ltb v d) (session_dates (keep_if is_open rows))
session_dates-after v [] = refl
session_dates-after v (row ∷ rows) =
    go row.is_open (ltb v row.session_date) refl (session_dates-after v rows)
  where
    go :
        (b c : Bool)
        → ltb v row.session_date ≡ c
        → session_dates (keep_if (is_open_after v) rows)
          ≡ keep_if (λ d. ltb v d) (session_dates (keep_if is_open rows))
        → session_dates (
            if b && c then row ∷ keep_if (is_open_after v) rows else keep_if (is_open_after v) rows)
          ≡ keep_if
              (λ d. ltb v d)
              (session_dates (if b then row ∷ keep_if is_open rows else keep_if is_open rows))
    go false c e rest = rest
    go true true e rest = rw e (ap (λ t. row.session_date ∷ t) rest)
    go true false e rest = rw e rest

-- The next trading day is the first of all trading days that is after the day.
pub next_trading_day_lem :
    (market : CanonicalMarketData) (value : Day)
    → next_trading_day market value ≡ find (λ d. ltb value d) (all_trading_days market)
unfolding next_trading_day all_trading_days
next_trading_day_lem market value =
    ap earliest (session_dates-after value market.calendar)
    ∙ sym (find-sorted_set value (session_dates (keep_if is_open market.calendar)))

-- What is claimed of the trading days between two days.
pub record Between (market : CanonicalMarketData) (start end : Day) (days : List Day) : Type 0 where
  pub ascending : Ascending days
  pub exact :
      (d : Day)
      → is_session days d ≡ (leb start d && leb d end && is_session (all_trading_days market) d)

session_dates-between :
    (start end d : Day) (rows : List CalendarRow)
    → is_session (session_dates (keep_if (is_open_between start end) rows)) d
      ≡ (leb start d && leb d end && is_session (session_dates (keep_if is_open rows)) d)
session_dates-between start end d [] = ground arith
session_dates-between start end d (row ∷ rows) =
    ground (arith, session_dates-between start end d rows)

-- The trading days between two days ascend, and are exactly those of all trading days that lie
-- there.
pub trading_days-Between :
    (market : CanonicalMarketData) (start end : Day) {days : List Day}
    → trading_days market start end ≡ ok days
    → Between market start end days
unfolding trading_days all_trading_days
trading_days-Between market start end {days} h =
    let (_, done) = raise_if-eq-ok (ltb end start) value_error _ h in
    let found = session_dates (keep_if (is_open_between start end) market.calendar) in
    let same : sorted_set ltb found ≡ days = ok-injective done in
    rw (← same) (record {
      ascending = sorted_set-Ascending found;
      exact = λ d.
          sorted_set-is_session d found
          ∙ session_dates-between start end d market.calendar
          ∙ sym (
              ap (λ b. leb start d && leb d end && b)
                (sorted_set-is_session d (session_dates (keep_if is_open market.calendar))));
    })
