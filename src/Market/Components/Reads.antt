-- ===== src/Market/Components/Reads.antt =====
-- `_read_source_projection` of marketdata/components.py with its cache. The rows of the verified source
-- file of a projection are a parameter, which may raise: the warehouse finds the file and compares its
-- digest. The columns that a file lacks are not modelled.
pub mod Cached
use mini_qmt.Common.{
  Bool, true, false, ◌&&◌, Option, none, some, List, [], ◌∷◌, ◌++◌, ◌==◌, if◌then◌else◌, Result, ok,
  ◌>>=◌,
}
use mini_qmt.Market.{Name, Day}
use mini_qmt.Market.Components.{
  MarketTable, same_table, ComponentScope, ComponentRow, Dates, member, read_projected,
  effective_read_scope, read_filtered,
}

-- Its table and its fields are those of its scope, as its constructor demands.
pub record SourceProjection : Type 0 where
  pub observation_id : Name
  pub scope : ComponentScope
  pub file_sha256 : Name

-- The key of the cache.
pub record ReadKey : Type 0 where
  pub observation_id : Name
  pub table : MarketTable
  pub ids : List Name
  pub dates : Dates

abbrev pub same_names : List Name → List Name → Bool
same_names [] [] = true
same_names (a ∷ left) (b ∷ right) = a == b && same_names left right
same_names _ _ = false

abbrev pub same_dates : Dates → Dates → Bool
same_dates none none = true
same_dates (some (a, b)) (some (c, d)) = a == c && b == d
same_dates _ _ = false

abbrev pub same_key : ReadKey → ReadKey → Bool
same_key left right =
    left.observation_id == right.observation_id
    && same_table left.table right.table
    && same_names left.ids right.ids
    && same_dates left.dates right.dates

pub record ComponentStore : Type 0 where
  pub source_read_cache : List (ReadKey × List ComponentRow)
  pub opened_component_ids : List Name
  pub open_events : List Name

-- `self._source_read_cache.get(key)`
unfoldable pub cached : List (ReadKey × List ComponentRow) → ReadKey → Option (List ComponentRow)
cached [] key = none
cached ((k, rows) ∷ entries) key = if same_key k key then some rows else cached entries key

-- `_note_open`
unfoldable pub note_open : ComponentStore → Name → ComponentStore
note_open store component_id = record store {
  opened_component_ids =
      if member store.opened_component_ids component_id
      then store.opened_component_ids
      else component_id ∷ store.opened_component_ids;
  open_events = store.open_events ++ component_id ∷ [];
}

abbrev pub key_of : SourceProjection → List Name × Dates → ReadKey
key_of projection (ids, dates) = record {
  observation_id = projection.observation_id;
  table = projection.scope.table;
  ids = ids;
  dates = dates;
}

module _ (stored : SourceProjection → Result (List ComponentRow)) where
  -- A frame that is not cached is read, noted and put into the cache.
  abbrev pub frame_of :
      ComponentStore
      → Name
      → SourceProjection
      → List Name × Dates
      → Option (List ComponentRow)
      → Result (List ComponentRow × ComponentStore)
  frame_of store component_id projection effective (some rows) = ok (rows, store)
  frame_of store component_id projection effective none = do
    whole ← stored projection
    let rows = read_filtered projection.scope.table effective whole
    let noted = note_open store component_id
    ok (
      rows,
      record noted {
        source_read_cache = (key_of projection effective, rows) ∷ noted.source_read_cache;
      },
    )

  -- `_read_source_projection`
  unfoldable pub read_source_projection :
      ComponentStore
      → Name
      → SourceProjection
      → List Name
      → Dates
      → Result (List ComponentRow × ComponentStore)
  read_source_projection store component_id projection ids dates = do
    let effective = effective_read_scope projection.scope ids dates
    (rows, store') ←
        frame_of store component_id projection effective
          (cached store.source_read_cache (key_of projection effective))
    ok (read_projected rows projection.scope ids dates, store')
