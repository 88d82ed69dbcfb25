-- ===== src/Market/Components/Tests.antt =====
-- Examples of the theorems on components: scopes of daily bars.
use mini_qmt.Common.{
  ◌≡◌, ◌↔◌, refl, sym, ap, ◌∙◌, arith, true, none, some, List, [], ◌∷◌, ◌==◌, keep_if, All,
  if◌then◌else◌, Result, ok, err, value_error, ok-injective,
}
use mini_qmt.Common.Sorting.{sorted_set, insert_new}
use mini_qmt.Market.{Name, Day}
use mini_qmt.Market.Components.{
  ComponentScope, ComponentRow, daily_bars, overlaps, contains, member, read_projected,
  effective_read_scope, read_filtered,
}
use mini_qmt.Market.Components.Scopes.{covers, overlaps_iff, contains_iff}
use mini_qmt.Market.Components.Pushdown.{is_wanted}
use mini_qmt.Market.Components.Reads.{
  SourceProjection, ComponentStore, cached, note_open, read_source_projection,
}
use mini_qmt.Market.Components.Reads.Cached.{IsConsistent, IsEntry, read_source_projection_lem}

abbrev narrow : ComponentScope
narrow = record {
  table = daily_bars;
  instrument_ids = 7 ∷ [];
  dates = some (12, 14);
  fields = 3 ∷ [];
}

abbrev wide : ComponentScope
wide = record {
  table = daily_bars;
  instrument_ids = [];
  dates = some (10, 14);
  fields = 2 ∷ 3 ∷ [];
}

overlaps_iff_example : (overlaps narrow wide ≡ true) ↔ (
    (daily_bars ≡ daily_bars)
    × ((id : Name) × (day : Day) × (covers narrow id day ≡ true) × (covers wide id day ≡ true)))
overlaps_iff_example = overlaps_iff narrow wide (omega arith) (omega arith)

contains_iff_example : (contains wide narrow ≡ true) ↔ (
    (daily_bars ≡ daily_bars)
    × ((id : Name) (day : Day) → covers narrow id day ≡ true → covers wide id day ≡ true)
    × ((field : Name) → member narrow.fields field ≡ true → member wide.fields field ≡ true))
contains_iff_example = contains_iff wide narrow (omega arith)

abbrev bar : Name → Day → ComponentRow
bar id day = record { instrument_id = id; day = some day; cells = [] }

abbrev stored_bars : List ComponentRow
stored_bars = bar 7 11 ∷ bar 7 12 ∷ bar 8 12 ∷ []

abbrev projection : SourceProjection
projection = record { observation_id = 1; scope = narrow; file_sha256 = 5 }

-- The one observation that there is.
abbrev file_of : Name → Result (List ComponentRow)
file_of observation_id = if observation_id == 1 then ok stored_bars else err value_error

abbrev file : SourceProjection → Result (List ComponentRow)
file p = file_of p.observation_id

abbrev fresh_store : ComponentStore
fresh_store = record { source_read_cache = []; opened_component_ids = []; open_events = [] }

abbrev read_store : ComponentStore
read_store = record {
  source_read_cache =
      (
        record { observation_id = 1; table = daily_bars; ids = 7 ∷ []; dates = some (12, 14) },
        bar 7 12 ∷ [],
      )
      ∷ [];
  opened_component_ids = 9 ∷ [];
  open_events = 9 ∷ [];
}

file-IsConsistent : IsConsistent file
file-IsConsistent p q whole other e t s k = ok-injective (sym s ∙ ap file_of e ∙ k)

first_read :
    read_source_projection file fresh_store 9 projection (7 ∷ []) none
    ≡ ok (bar 7 12 ∷ [], read_store)
unfolding read_source_projection cached note_open read_projected effective_read_scope read_filtered
    sorted_set insert_new
first_read = refl

read_source_projection_lem_example :
    ((whole : List ComponentRow)
      → file projection ≡ ok whole
      → bar 7 12 ∷ [] ≡ keep_if (is_wanted narrow (7 ∷ []) none) whole)
    × All (IsEntry file) read_store.source_read_cache
read_source_projection_lem_example =
    read_source_projection_lem file fresh_store read_store 9 projection (7 ∷ []) none
      (bar 7 12 ∷ []) file-IsConsistent tt first_read

contains_test : contains wide narrow ≡ true
unfolding contains
contains_test = refl
