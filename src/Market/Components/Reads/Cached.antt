-- ===== src/Market/Components/Reads/Cached.antt =====
-- The cache of `_read_source_projection` of marketdata/components.py returns what a read of the file
-- would.
use mini_qmt.Common.{
  ◌≡◌, refl, sym, ap, ◌∙◌, true, ◌&&◌, Option, none, some, List, [], ◌∷◌, ◌==◌, ==_iff, Bool-cases,
  inl, inr, Result, ok, >>=-eq-ok, ok-injective, keep_if, All,
}
use mathlib.Core.Path.{subst}
use mini_qmt.Market.{Name}
use mini_qmt.Market.Components.{
  MarketTable, ComponentRow, Dates, read_projected, effective_read_scope, read_filtered,
  read_uncached, same_table,
}
use mini_qmt.Market.Components.Scopes.{same_table_iff}
use mini_qmt.Market.Components.Sets.{parts}
use mini_qmt.Market.Components.Pushdown.{is_wanted, read_uncached-pushdown}
use mini_qmt.Market.Components.Reads.{
  SourceProjection, ReadKey, same_names, same_dates, same_key, ComponentStore, cached, note_open,
  key_of, frame_of, read_source_projection,
}

same_names_iff : (left right : List Name) → same_names left right ≡ true → left ≡ right
same_names_iff [] [] h = refl
same_names_iff (a ∷ left) (b ∷ right) h =
    let (first, rest) = parts (a == b) (same_names left right) h in
    rw ((==_iff a b).0 first, same_names_iff left right rest) refl
same_names_iff [] (b ∷ right) h = absurd (cc h)
same_names_iff (a ∷ left) [] h = absurd (cc h)

same_dates_iff : (left right : Dates) → same_dates left right ≡ true → left ≡ right
same_dates_iff none none h = refl
same_dates_iff (some (a, b)) (some (c, d)) h =
    let (start, end) = parts (a == c) (b == d) h in
    rw ((==_iff a c).0 start, (==_iff b d).0 end) refl
same_dates_iff none (some d) h = absurd (cc h)
same_dates_iff (some d) none h = absurd (cc h)

key_of_parts :
    {id id' : Name} {table table' : MarketTable} {ids ids' : List Name} {dates dates' : Dates}
    → id ≡ id'
    → table ≡ table'
    → ids ≡ ids'
    → dates ≡ dates'
    → ◌≡◌ {A = ReadKey}
        (record { observation_id = id; table = table; ids = ids; dates = dates })
        (record { observation_id = id'; table = table'; ids = ids'; dates = dates' })
key_of_parts a b c d = rw (a, b, c, d) refl

same_key_iff : (left right : ReadKey) → same_key left right ≡ true → left ≡ right
same_key_iff left right h =
    let same_ids = same_names left.ids right.ids in
    let same_days = same_dates left.dates right.dates in
    let of_id = left.observation_id == right.observation_id in
    let of_table = same_table left.table right.table in
    let (h1, dated) = parts ((of_id && of_table) && same_ids) same_days h in
    let (h2, named) = parts (of_id && of_table) same_ids h1 in
    let (numbered, kept) = parts of_id of_table h2 in
    key_of_parts ((==_iff left.observation_id right.observation_id).0 numbered)
      ((same_table_iff left.table right.table).0 kept) (same_names_iff left.ids right.ids named)
      (same_dates_iff left.dates right.dates dated)

module _ (stored : SourceProjection → Result (List ComponentRow)) where
  -- The file of a table of an observation does not depend on the rest of the projection: its digest is
  -- the stored one, or the projection is refused.
  abbrev pub IsConsistent : Type 0
  IsConsistent =
      (p q : SourceProjection) (whole other : List ComponentRow)
      → p.observation_id ≡ q.observation_id
      → p.scope.table ≡ q.scope.table
      → stored p ≡ ok whole
      → stored q ≡ ok other
      → whole ≡ other

  -- An entry holds the filtered rows of its file.
  abbrev pub IsEntry : ReadKey × List ComponentRow → Type 0
  IsEntry (key, rows) =
      (p : SourceProjection) (whole : List ComponentRow)
      → key.observation_id ≡ p.observation_id
      → key.table ≡ p.scope.table
      → stored p ≡ ok whole
      → rows ≡ read_filtered key.table (key.ids, key.dates) whole

  some_injective : {a b : List ComponentRow} → some a ≡ some b → a ≡ b
  some_injective h = cc

  cached-IsEntry :
      (entries : List (ReadKey × List ComponentRow)) (key : ReadKey) (rows : List ComponentRow)
      → All IsEntry entries
      → cached entries key ≡ some rows
      → IsEntry (key, rows)
  unfolding cached
  cached-IsEntry [] key rows all h = absurd (cc h)
  cached-IsEntry ((k, found) ∷ entries) key rows all h = elim (Bool-cases (same_key k key)) [
    | inl e ↦
        subst (λ x. IsEntry (x, rows)) (same_key_iff k key e)
          (subst (λ x. IsEntry (k, x)) (some_injective (rw e at h)) all.0)
    | inr e ↦ cached-IsEntry entries key rows all.1 (rw e at h)
  ]

  -- A frame is an entry, whether it was cached or is read now.
  frame_of-IsEntry :
      (store store' : ComponentStore) (component_id : Name) (p : SourceProjection)
      (effective : List Name × Dates) (o : Option (List ComponentRow)) (frame : List ComponentRow)
      → IsConsistent
      → All IsEntry store.source_read_cache
      → ((r : List ComponentRow) → o ≡ some r → IsEntry (key_of p effective, r))
      → frame_of stored store component_id p effective o ≡ ok (frame, store')
      → IsEntry (key_of p effective, frame) × All IsEntry store'.source_read_cache
  unfolding note_open
  frame_of-IsEntry store store' component_id p effective (some r) frame consistent sound known h =
      let same = ok-injective h in
      (
        subst (λ x. IsEntry (key_of p effective, x))
            (ap (λ (x : List ComponentRow × ComponentStore). x.0) same) (known r refl),
        subst (λ (x : ComponentStore). All IsEntry x.source_read_cache)
            (ap (λ (x : List ComponentRow × ComponentStore). x.1) same) sound,
      )
  frame_of-IsEntry store store' component_id p (near, days) none frame consistent sound known h =
      let (whole, read, done) = >>=-eq-ok (stored p) _ h in
      let same = ok-injective done in
      let t = p.scope.table in
      let entry : IsEntry (key_of p (near, days), read_filtered t (near, days) whole) =
        λ q other e k s.
          ap (read_filtered t (near, days)) (consistent p q whole other e k read s) in
      (
        subst (λ x. IsEntry (key_of p (near, days), x))
            (ap (λ (x : List ComponentRow × ComponentStore). x.0) same) entry,
        subst (λ (x : ComponentStore). All IsEntry x.source_read_cache)
            (ap (λ (x : List ComponentRow × ComponentStore). x.1) same) (entry, sound),
      )

  -- If the cache holds filtered rows of the files, a read returns exactly the file's rows that the
  -- scope admits and the request asks for, in their order, and the cache still holds such rows. It
  -- is a hypothesis that the file of an observation's table is the same for every projection that can
  -- be read.
  pub read_source_projection_lem :
      (store store' : ComponentStore) (component_id : Name) (p : SourceProjection) (ids : List Name)
      (dates : Dates) (rows : List ComponentRow)
      → IsConsistent
      → All IsEntry store.source_read_cache
      → read_source_projection stored store component_id p ids dates ≡ ok (rows, store')
      → ((whole : List ComponentRow)
          → stored p ≡ ok whole
          → rows ≡ keep_if (is_wanted p.scope ids dates) whole)
        × All IsEntry store'.source_read_cache
  unfolding read_source_projection effective_read_scope read_uncached read_filtered
  read_source_projection_lem store store' component_id p ids dates rows consistent sound h =
      let effective = effective_read_scope p.scope ids dates in
      let key = key_of p effective in
      let ((frame, store1), read, done) =
        >>=-eq-ok
          (frame_of stored store component_id p effective (cached store.source_read_cache key)) _
          h in
      let same = ok-injective done in
      let (entry, kept) =
        frame_of-IsEntry store store1 component_id p effective (cached store.source_read_cache key)
          frame consistent sound (λ r e. cached-IsEntry store.source_read_cache key r sound e)
          read in
      (
        λ whole s.
            let (pushed, wanted) = read_uncached-pushdown whole p.scope ids dates in
            sym (ap (λ (x : List ComponentRow × ComponentStore). x.0) same)
            ∙ ap (λ x. read_projected x p.scope ids dates) (entry p whole refl refl s)
            ∙ (pushed ∙ wanted),
        subst (λ (x : ComponentStore). All IsEntry x.source_read_cache)
            (ap (λ (x : List ComponentRow × ComponentStore). x.1) same) kept,
      )
