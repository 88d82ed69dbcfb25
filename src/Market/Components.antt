-- ===== src/Market/Components.antt =====
-- Components of marketdata/components.py: what a scope covers, how scopes are compared, and which rows
-- a read takes from a source file. A scope's dates come together or not at all, as its constructor
-- demands, so they are one field. A row is what its table's instrument and date columns hold in it,
-- with the other cells by column; a date that cannot be read is missing. The columns of a frame are
-- not modelled: only its rows.
pub mod Sets
pub mod Scopes
pub mod Pushdown
pub mod Reads
mod Tests
use mini_qmt.Common.{
  ℕ, Bool, true, false, not, ◌&&◌, ◌||◌, Option, none, some, List, [], ◌∷◌, ◌==◌, ltb, leb, min,
  max, if◌then◌else◌, Result, ok, err, ◌>>=◌, ◌>>◌, raise_if, value_error, is_empty, any, keep_if,
}
use mini_qmt.Common.Dict.{Dict}
use mini_qmt.Common.Sorting.{sorted_set}
use mini_qmt.Market.{Name, Day}

pub data MarketTable : Type 0 where
  instrument_table calendar_table daily_bars corporate_action_table adjustment_factors : MarketTable

-- `left is right`
abbrev pub same_table : MarketTable → MarketTable → Bool
same_table instrument_table instrument_table = true
same_table calendar_table calendar_table = true
same_table daily_bars daily_bars = true
same_table corporate_action_table corporate_action_table = true
same_table adjustment_factors adjustment_factors = true
same_table _ _ = false

-- `TABLE_INSTRUMENT_COLUMNS[table] is not None`
abbrev pub has_instruments : MarketTable → Bool
has_instruments calendar_table = false
has_instruments _ = true

-- `TABLE_DATE_COLUMNS[table] is not None`
abbrev pub has_dates : MarketTable → Bool
has_dates instrument_table = false
has_dates _ = true

abbrev pub Dates : Type 0
Dates = Option (Day × Day)

pub record ComponentScope : Type 0 where
  pub table : MarketTable
  pub instrument_ids : List Name
  pub dates : Dates
  pub fields : List Name

-- Both days, or neither.
abbrev pub together : Option Day → Option Day → Result Dates
together none none = ok none
together (some start) (some end) = do raise_if (ltb end start) value_error; ok (some (start, end))
together _ _ = err value_error

-- The constructor of a scope.
unfoldable pub component_scope :
    MarketTable → List Name → Option Day → Option Day → List Name → Result ComponentScope
component_scope table instrument_ids start_date end_date fields = do
  dates ← together start_date end_date
  let names = sorted_set ltb fields
  raise_if (is_empty names || any (λ (field : Name). field == 0) names) value_error
  ok (record {
    table = table;
    instrument_ids = sorted_set ltb instrument_ids;
    dates = dates;
    fields = names;
  })

-- `item in items`
abbrev pub member : List Name → Name → Bool
member items item = any (λ (k : Name). k == item) items

-- `set(left) & set(right)` is not empty.
abbrev pub share : List Name → List Name → Bool
share left right = any (member right) left

-- `set(left) <= set(right)`
abbrev pub is_within : List Name → List Name → Bool
is_within left right = not (any (λ (k : Name). not (member right k)) left)

abbrev pub dates_overlap : Dates → Dates → Bool
dates_overlap none right = true
dates_overlap (some left) none = true
dates_overlap (some (start, end)) (some (start', end')) = leb start end' && leb start' end

-- `ComponentScope.overlaps`
unfoldable pub overlaps : ComponentScope → ComponentScope → Bool
overlaps self other =
    if not (same_table self.table other.table)
    then false
    else if not (is_empty self.instrument_ids)
        && not (is_empty other.instrument_ids)
        && not (share self.instrument_ids other.instrument_ids)
    then false
    else dates_overlap self.dates other.dates

-- The test of the instruments: an empty selector is the whole table.
abbrev pub instruments_contain : List Name → List Name → Bool
instruments_contain own ids = is_empty own || not (is_empty ids) && is_within ids own

abbrev pub dates_contain : Dates → Dates → Bool
dates_contain none other = true
dates_contain (some own) none = false
dates_contain (some (start, end)) (some (start', end')) = not (ltb start' start || ltb end end')

-- `ComponentScope.contains`
unfoldable pub contains : ComponentScope → ComponentScope → Bool
contains self other =
    if not (same_table self.table other.table)
    then false
    else if not (instruments_contain self.instrument_ids other.instrument_ids)
    then false
    else if not (dates_contain self.dates other.dates)
    then false
    else is_within other.fields self.fields

pub record ComponentRow : Type 0 where
  pub instrument_id : Name
  pub day : Option Day
  pub cells : Dict Name

-- `values.between(start, end)`
abbrev pub is_between : Day → Day → ComponentRow → Bool
is_between start end row = elim row.day [ none ↦ false | some day ↦ leb start day && leb day end ]

-- The rows of the given instruments, where any are given and the table has instruments.
abbrev pub by_instruments : MarketTable → List Name → List ComponentRow → List ComponentRow
by_instruments table ids rows =
    if not (is_empty ids) && has_instruments table
    then keep_if (λ (row : ComponentRow). member ids row.instrument_id) rows
    else rows

abbrev pub by_dates : MarketTable → Dates → List ComponentRow → List ComponentRow
by_dates table none rows = rows
by_dates table (some (start, end)) rows =
    if has_dates table then keep_if (is_between start end) rows else rows

-- `_filter_scope_rows`
unfoldable pub filter_scope_rows : List ComponentRow → ComponentScope → List ComponentRow
filter_scope_rows rows scope =
    by_dates scope.table scope.dates (by_instruments scope.table scope.instrument_ids rows)

-- The rows that `_read_projected` keeps.
unfoldable pub read_projected :
    List ComponentRow → ComponentScope → List Name → Dates → List ComponentRow
unfolding filter_scope_rows
read_projected rows scope ids dates =
    by_dates scope.table dates (by_instruments scope.table ids (filter_scope_rows rows scope))

-- The instruments of `_effective_read_scope`
abbrev pub effective_ids : List Name → List Name → List Name
effective_ids scope_ids ids =
    if is_empty scope_ids
    then ids
    else if is_empty ids
    then sorted_set ltb scope_ids
    else sorted_set ltb (keep_if (member scope_ids) ids)

-- The dates of `_effective_read_scope`
abbrev pub effective_dates : Dates → Dates → Dates
effective_dates none dates = dates
effective_dates (some own) none = some own
effective_dates (some (start, end)) (some (start', end')) = some (max start' start, min end' end)

-- `_effective_read_scope`
unfoldable pub effective_read_scope : ComponentScope → List Name → Dates → List Name × Dates
effective_read_scope scope ids dates =
    (effective_ids scope.instrument_ids ids, effective_dates scope.dates dates)

abbrev pub within_dates : MarketTable → Dates → List ComponentRow → List ComponentRow
within_dates table none rows = rows
within_dates table (some (start, end)) rows =
    if leb start end && has_dates table then keep_if (is_between start end) rows else rows

-- What `pd.read_parquet` returns for the filters of `_read_source_projection`.
unfoldable pub read_filtered :
    MarketTable → List Name × Dates → List ComponentRow → List ComponentRow
read_filtered table (ids, dates) rows = within_dates table dates (by_instruments table ids rows)

-- A source projection, read without the cache: the file's rows that the filters let through, and of
-- these those of the scope and the request.
unfoldable pub read_uncached :
    List ComponentRow → ComponentScope → List Name → Dates → List ComponentRow
unfolding read_projected effective_read_scope read_filtered
read_uncached stored scope ids dates =
    read_projected (read_filtered scope.table (effective_read_scope scope ids dates) stored) scope
      ids dates
