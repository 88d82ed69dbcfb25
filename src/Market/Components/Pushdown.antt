-- ===== src/Market/Components/Pushdown.antt =====
-- The filters that `_read_source_projection` of marketdata/components.py hands to the file reader.
use mini_qmt.Common.{
  ◌≡◌, refl, sym, ap, ◌∙◌, Bool-cases, Option-cases, inl, inr, ◌==◌, ==_iff, arith, Bool, true,
  false, not, ◌&&◌, ◌||◌, none, some, List, [], ◌∷◌, ltb, leb, min, max, is_empty, keep_if,
  if◌then◌else◌,
}
use mini_qmt.Common.Sorting.{sorted_set}
use mini_qmt.Market.{Name, Day}
use mini_qmt.Market.Components.{
  MarketTable, ComponentScope, ComponentRow, Dates, member, has_instruments, has_dates, is_between,
  by_instruments, by_dates, within_dates, filter_scope_rows, read_projected, effective_ids,
  effective_dates, read_uncached,
}
use mini_qmt.Kernel.Setup.Calendar.{sorted_set-is_session}

-- The tests of a row that the filters make.
abbrev pub has_instrument : MarketTable → List Name → ComponentRow → Bool
has_instrument table ids row =
    is_empty ids || not (has_instruments table) || member ids row.instrument_id

abbrev pub has_day : MarketTable → Dates → ComponentRow → Bool
has_day table none row = true
has_day table (some (start, end)) row = not (has_dates table) || is_between start end row

-- A row that the scope admits and the request asks for.
abbrev pub is_wanted : ComponentScope → List Name → Dates → ComponentRow → Bool
is_wanted scope ids dates row =
    ((has_instrument scope.table scope.instrument_ids row && has_day scope.table scope.dates row)
      && has_instrument scope.table ids row)
    && has_day scope.table dates row

module _ {ℓ} {A : Type ℓ} where
  keep_if-all : (p : A → Bool) (xs : List A) → ((x : A) → p x ≡ true) → xs ≡ keep_if p xs
  keep_if-all p [] h = refl
  keep_if-all p (x ∷ xs) h = rw (h x, ← keep_if-all p xs h) refl

  -- A filter after another keeps what both keep.
  keep_if-twice :
      (p q : A → Bool) (xs : List A) → keep_if p (keep_if q xs) ≡ keep_if (λ x. q x && p x) xs
  keep_if-twice p q [] = refl
  keep_if-twice p q (x ∷ xs) = ground (arith, keep_if-twice p q xs)

  -- A weaker filter before another changes nothing.
  keep_if-weaker :
      (p q : A → Bool) (xs : List A)
      → ((x : A) → p x ≡ true → q x ≡ true)
      → keep_if p (keep_if q xs) ≡ keep_if p xs
  keep_if-weaker p q [] h = refl
  keep_if-weaker p q (x ∷ xs) h = ground (arith, keep_if-weaker p q xs h, h x)

by_instruments_lem :
    (table : MarketTable) (ids : List Name) (rows : List ComponentRow)
    → by_instruments table ids rows ≡ keep_if (has_instrument table ids) rows
by_instruments_lem table [] rows = keep_if-all _ rows (λ row. refl)
by_instruments_lem table (id ∷ ids) rows = go (has_instruments table)
  where
    go :
        (b : Bool)
        → (if true && b
            then keep_if (λ (row : ComponentRow). member (id ∷ ids) row.instrument_id) rows
            else rows)
          ≡ keep_if
              (λ (row : ComponentRow). false || not b || member (id ∷ ids) row.instrument_id)
              rows
    go true = refl
    go false = keep_if-all _ rows (λ row. refl)

by_dates_lem :
    (table : MarketTable) (dates : Dates) (rows : List ComponentRow)
    → by_dates table dates rows ≡ keep_if (has_day table dates) rows
by_dates_lem table none rows = keep_if-all _ rows (λ row. refl)
by_dates_lem table (some (start, end)) rows = go (has_dates table)
  where
    go :
        (b : Bool)
        → (if b then keep_if (is_between start end) rows else rows)
          ≡ keep_if (λ (row : ComponentRow). not b || is_between start end row) rows
    go true = refl
    go false = keep_if-all _ rows (λ row. refl)

-- A projected read returns the rows that are wanted, in their order.
pub read_projected_lem :
    (rows : List ComponentRow) (scope : ComponentScope) (ids : List Name) (dates : Dates)
    → read_projected rows scope ids dates ≡ keep_if (is_wanted scope ids dates) rows
unfolding read_projected
read_projected_lem rows scope ids dates =
    let t = scope.table in
    let first = has_instrument t scope.instrument_ids in
    let second = has_day t scope.dates in
    let third = has_instrument t ids in
    by_dates_lem t dates
      (by_instruments t ids (unfold filter_scope_rows in filter_scope_rows rows scope))
    ∙ ap (keep_if (has_day t dates)) (
        by_instruments_lem t ids
          (by_dates t scope.dates (by_instruments t scope.instrument_ids rows))
        ∙ ap (keep_if third) (
            by_dates_lem t scope.dates (by_instruments t scope.instrument_ids rows)
            ∙ ap (keep_if second) (by_instruments_lem t scope.instrument_ids rows)
            ∙ keep_if-twice second first rows)
        ∙ keep_if-twice third (λ row. first row && second row) rows)
    ∙ keep_if-twice (has_day t dates) (λ row. (first row && second row) && third row) rows

-- The test that the file reader makes.
abbrev pushed_day : MarketTable → Dates → ComponentRow → Bool
pushed_day table none row = true
pushed_day table (some (start, end)) row =
    not (leb start end && has_dates table) || is_between start end row

within_dates_lem :
    (table : MarketTable) (dates : Dates) (rows : List ComponentRow)
    → within_dates table dates rows ≡ keep_if (pushed_day table dates) rows
within_dates_lem table none rows = keep_if-all _ rows (λ row. refl)
within_dates_lem table (some (start, end)) rows = go (leb start end && has_dates table)
  where
    go :
        (b : Bool)
        → (if b then keep_if (is_between start end) rows else rows)
          ≡ keep_if (λ (row : ComponentRow). not b || is_between start end row) rows
    go true = refl
    go false = keep_if-all _ rows (λ row. refl)

member-keep_if :
    (own ids : List Name) (n : Name)
    → member ids n ≡ true
    → member own n ≡ true
    → member (keep_if (member own) ids) n ≡ true
member-keep_if own [] n h k = h
member-keep_if own (id ∷ ids) n h k = elim (Bool-cases (id == n)) [
  | inl e ↦ let same : id ≡ n = (==_iff id n).0 e in rw (same, k) (here n)
  | inr e ↦ later (member own id) e (member-keep_if own ids n (rw e at h) k)
]
  where
    here : (m : Name) → member (m ∷ keep_if (member own) ids) m ≡ true
    here m = ground arith

    later :
        (b : Bool)
        → (id == n) ≡ false
        → member (keep_if (member own) ids) n ≡ true
        → member (if b then id ∷ keep_if (member own) ids else keep_if (member own) ids) n ≡ true
    later true e r = rw e r
    later false e r = r

or_has : (a b m : Bool) → (b ≡ true → m ≡ true) → (a || not b || m) ≡ true
or_has true b m h = refl
or_has false true m h = h refl
or_has false false m h = refl

has_or : (b m : Bool) → (not b || m) ≡ true → b ≡ true → m ≡ true
has_or true m h k = h
has_or false m h k = absurd (cc k)

-- What is of the scope and of the request is of the effective instruments.
effective_ids-has :
    (table : MarketTable) (own ids : List Name) (row : ComponentRow)
    → has_instrument table own row ≡ true
    → has_instrument table ids row ≡ true
    → has_instrument table (effective_ids own ids) row ≡ true
effective_ids-has table [] ids row h k = k
effective_ids-has table (o ∷ os) [] row h k =
    or_has (is_empty (sorted_set ltb (o ∷ os))) (has_instruments table) _ (λ b.
      sorted_set-is_session row.instrument_id (o ∷ os)
      ∙ has_or (has_instruments table) (member (o ∷ os) row.instrument_id) h b)
effective_ids-has table (o ∷ os) (id ∷ ids) row h k =
    let both = keep_if (member (o ∷ os)) (id ∷ ids) in
    let n = row.instrument_id in
    or_has (is_empty (sorted_set ltb both)) (has_instruments table) _ (λ b.
      sorted_set-is_session n both
      ∙ member-keep_if (o ∷ os) (id ∷ ids) n
          (has_or (has_instruments table) (member (id ∷ ids) n) k b)
          (has_or (has_instruments table) (member (o ∷ os) n) h b))

is_between-both :
    (s e s' e' : Day) (row : ComponentRow)
    → is_between s e row ≡ true
    → is_between s' e' row ≡ true
    → is_between (max s' s) (min e' e) row ≡ true
is_between-both s e s' e' row h k = elim (Option-cases row.day) [
  | inl missing ↦ absurd (cc (rw missing at h))
  | inr (day, known) ↦ rw known (inside day (rw known at h) (rw known at k))
]
  where
    inside :
        (d : Day)
        → (leb s d && leb d e) ≡ true
        → (leb s' d && leb d e') ≡ true
        → (leb (max s' s) d && leb d (min e' e)) ≡ true
    inside d h k = ground arith

and_has : (l d m : Bool) → (d ≡ true → m ≡ true) → (not (l && d) || m) ≡ true
and_has false d m h = refl
and_has true true m h = h refl
and_has true false m h = refl

effective_dates-has :
    (table : MarketTable) (own dates : Dates) (row : ComponentRow)
    → has_day table own row ≡ true
    → has_day table dates row ≡ true
    → pushed_day table (effective_dates own dates) row ≡ true
effective_dates-has table none none row h k = refl
effective_dates-has table none (some (start, end)) row h k =
    and_has (leb start end) (has_dates table) _
      (has_or (has_dates table) (is_between start end row) k)
effective_dates-has table (some (start, end)) none row h k =
    and_has (leb start end) (has_dates table) _
      (has_or (has_dates table) (is_between start end row) h)
effective_dates-has table (some (s, e)) (some (s', e')) row h k =
    and_has (leb (max s' s) (min e' e)) (has_dates table) _ (λ d.
      is_between-both s e s' e' row (has_or (has_dates table) (is_between s e row) h d)
        (has_or (has_dates table) (is_between s' e' row) k d))

-- A wanted row passes the reader's filters.
wanted_passes :
    (scope : ComponentScope) (ids : List Name) (dates : Dates) (row : ComponentRow)
    → is_wanted scope ids dates row ≡ true
    → (has_instrument scope.table (effective_ids scope.instrument_ids ids) row
        && pushed_day scope.table (effective_dates scope.dates dates) row)
      ≡ true
wanted_passes scope ids dates row h =
    let t = scope.table in
    let (first, last) = parts _ (has_day t dates row) h in
    let (own, asked) = parts _ (has_instrument t ids row) first in
    let (own_id, own_day) = parts (has_instrument t scope.instrument_ids row) _ own in
    rw
      (
        effective_ids-has t scope.instrument_ids ids row own_id asked,
        effective_dates-has t scope.dates dates row own_day last,
      )
      refl
  where
    parts : (a b : Bool) → (a && b) ≡ true → (a ≡ true) × (b ≡ true)
    parts true b h = (refl, h)
    parts false b h = absurd (cc h)

-- Reading a source projection through the filters of its effective scope returns the same rows, in the
-- same order, as reading the whole file and keeping what the scope admits and the request asks for,
-- whatever the scope and the request have in common.
pub read_uncached-pushdown :
    (stored : List ComponentRow) (scope : ComponentScope) (ids : List Name) (dates : Dates)
    → (read_uncached stored scope ids dates ≡ read_projected stored scope ids dates)
      × (read_projected stored scope ids dates ≡ keep_if (is_wanted scope ids dates) stored)
unfolding read_uncached
read_uncached-pushdown stored scope ids dates =
    let t = scope.table in
    let own_ids = effective_ids scope.instrument_ids ids in
    let own_dates = effective_dates scope.dates dates in
    let kept = by_instruments t own_ids stored in
    let filtered : within_dates t own_dates kept
        ≡ keep_if (λ row. has_instrument t own_ids row && pushed_day t own_dates row) stored =
      within_dates_lem t own_dates kept
      ∙ ap (keep_if (pushed_day t own_dates)) (by_instruments_lem t own_ids stored)
      ∙ keep_if-twice (pushed_day t own_dates) (has_instrument t own_ids) stored in
    let whole = read_projected_lem stored scope ids dates in
    (
      read_projected_lem (within_dates t own_dates kept) scope ids dates
          ∙ ap (keep_if (is_wanted scope ids dates)) filtered
          ∙ keep_if-weaker (is_wanted scope ids dates) _ stored (wanted_passes scope ids dates)
          ∙ sym whole,
      whole,
    )
