-- ===== src/Market/Components/Scopes.antt =====
-- `overlaps` and `contains` of marketdata/components.py against the instruments, days and fields that
-- a scope stands for.
use mini_qmt.Common.{
  suc, ◌≤◌, ◌≡◌, ◌↔◌, refl, sym, ◌∙◌, arith, Bool, true, false, not, ◌&&◌, ◌||◌, Option, none, some,
  List, [], ◌∷◌, ◌==◌, ltb, leb, max, is_empty, any, if◌then◌else◌, ok, >>=-eq-ok, raise_if-eq-ok,
  ok-injective, not_ltb→le,
}
use mini_qmt.Common.Sorting.{sorted_set}
use mini_qmt.Market.{Name, Day}
use mini_qmt.Market.Components.Sets.{parts, both, member_here, is_within_iff, share_iff}
use mini_qmt.Market.Components.{
  MarketTable, instrument_table, calendar_table, daily_bars, corporate_action_table,
  adjustment_factors, same_table, ComponentScope, Dates, together, component_scope, member, share,
  is_within, dates_overlap, dates_contain, instruments_contain, overlaps, contains,
}

-- What a scope stands for: without instruments all of them, without dates all days.
abbrev pub covers_instrument : List Name → Name → Bool
covers_instrument ids id = is_empty ids || member ids id

abbrev pub covers_day : Dates → Day → Bool
covers_day none day = true
covers_day (some (start, end)) day = leb start day && leb day end

abbrev pub covers : ComponentScope → Name → Day → Bool
covers scope id day = covers_instrument scope.instrument_ids id && covers_day scope.dates day

-- The start is not after the end.
abbrev pub Ordered : Dates → Type 0
Ordered none = Unit
Ordered (some (start, end)) = start ≤ end

pub same_table_iff : (t u : MarketTable) → (same_table t u ≡ true) ↔ (t ≡ u)
same_table_iff t u = (there t u, λ e. rw (← e) (self t))
  where
    self : (t : MarketTable) → same_table t t ≡ true
    self instrument_table = refl
    self calendar_table = refl
    self daily_bars = refl
    self corporate_action_table = refl
    self adjustment_factors = refl

    there : (t u : MarketTable) → same_table t u ≡ true → t ≡ u
    there instrument_table instrument_table h = refl
    there calendar_table calendar_table h = refl
    there daily_bars daily_bars h = refl
    there corporate_action_table corporate_action_table h = refl
    there adjustment_factors adjustment_factors h = refl
    there _ _ h = absurd (cc h)

-- Some instrument is covered.
some_instrument : (ids : List Name) → (id : Name) × (covers_instrument ids id ≡ true)
some_instrument [] = (0, refl)
some_instrument (id ∷ ids) = (id, member_here id ids)

some_day : (dates : Dates) → Ordered dates → (day : Day) × (covers_day dates day ≡ true)
some_day none h = (0, refl)
some_day (some (start, end)) h = (start, ground arith)

-- The test of `overlaps` on the instruments.
abbrev instruments_meet : List Name → List Name → Bool
instruments_meet left right =
    not (not (is_empty left) && not (is_empty right) && not (share left right))

instruments_meet_iff :
    (left right : List Name)
    → (instruments_meet left right ≡ true)
      ↔ ((id : Name) × (covers_instrument left id ≡ true) × (covers_instrument right id ≡ true))
instruments_meet_iff [] right =
    (λ h. let (id, k) = some_instrument right in (id, refl, k), λ k. refl)
instruments_meet_iff (x ∷ xs) [] = (λ h. (x, member_here x xs, refl), λ k. refl)
instruments_meet_iff (x ∷ xs) (y ∷ ys) =
    let (find, back) = share_iff (x ∷ xs) (y ∷ ys) in
    (λ h. find (positive (share (x ∷ xs) (y ∷ ys)) h), λ k. rw (back k) refl)
  where
    positive : (b : Bool) → not (not b) ≡ true → b ≡ true
    positive true h = refl
    positive false h = h

dates_overlap_iff :
    (left right : Dates)
    → Ordered left
    → Ordered right
    → (dates_overlap left right ≡ true)
      ↔ ((day : Day) × (covers_day left day ≡ true) × (covers_day right day ≡ true))
dates_overlap_iff none right h k = (λ o. let (d, r) = some_day right k in (d, refl, r), λ o. refl)
dates_overlap_iff (some left) none h k =
    (λ o. let (d, r) = some_day (some left) h in (d, r, refl), λ o. refl)
dates_overlap_iff (some (s, e)) (some (s', e')) h k =
    (λ o. (max s s', first o, second o), λ (d, l, r). third d l r)
  where
    first : (leb s e' && leb s' e) ≡ true → (leb s (max s s') && leb (max s s') e) ≡ true
    first o = ground arith

    second : (leb s e' && leb s' e) ≡ true → (leb s' (max s s') && leb (max s s') e') ≡ true
    second o = ground arith

    third :
        (d : Day)
        → (leb s d && leb d e) ≡ true
        → (leb s' d && leb d e') ≡ true
        → (leb s e' && leb s' e) ≡ true
    third d l r = ground arith

-- The guards of `overlaps` in one.
overlap_guards :
    (t x d : Bool) → (if not t then false else if x then false else d) ≡ (t && (not x && d))
overlap_guards true true d = refl
overlap_guards true false d = refl
overlap_guards false x d = refl

-- Two scopes with dates in order overlap exactly if they are of one table and some instrument and day
-- are covered by both.
pub overlaps_iff :
    (self other : ComponentScope)
    → Ordered self.dates
    → Ordered other.dates
    → (overlaps self other ≡ true) ↔ (
        (self.table ≡ other.table)
        × ((id : Name) × (day : Day) × (covers self id day ≡ true) × (covers other id day ≡ true)))
unfolding overlaps
overlaps_iff self other h k =
    let meet = instruments_meet_iff self.instrument_ids other.instrument_ids in
    let days = dates_overlap_iff self.dates other.dates h k in
    let table = same_table_iff self.table other.table in
    let t = same_table self.table other.table in
    let apart =
      not (is_empty self.instrument_ids)
      && not (is_empty other.instrument_ids)
      && not (share self.instrument_ids other.instrument_ids) in
    let d = dates_overlap self.dates other.dates in
    let whole = overlap_guards t apart d in
    (
      λ o.
          let (same, o1) = parts t _ (sym whole ∙ o) in
          let (met, o2) = parts (not apart) d o1 in
          let (id, l, r) = meet.0 met in
          let (day, l', r') = days.0 o2 in (table.0 same, (id, day, both _ _ l l', both _ _ r r')),
      λ (same, (id, day, l, r)).
          let (l1, l2) = parts (covers_instrument self.instrument_ids id) _ l in
          let (r1, r2) = parts (covers_instrument other.instrument_ids id) _ r in
          whole
          ∙ both t _ (table.1 same)
              (both (not apart) d (meet.1 (id, l1, r1)) (days.1 (day, l2, r2))),
    )

-- A name that is beyond all of a list.
abbrev beyond : List Name → Name
beyond [] = 0
beyond (x ∷ xs) = max (suc x) (beyond xs)

beyond_all : (xs : List Name) (n : Name) → beyond xs ≤ n → member xs n ≡ false
beyond_all [] n h = refl
beyond_all (x ∷ xs) n h = ground (arith, beyond_all xs n)

instruments_contain_iff :
    (own ids : List Name)
    → (instruments_contain own ids ≡ true)
      ↔ ((id : Name) → covers_instrument ids id ≡ true → covers_instrument own id ≡ true)
instruments_contain_iff [] ids = (λ h id k. refl, λ h. refl)
instruments_contain_iff (x ∷ xs) [] = (
  λ h. absurd (cc h),
  λ h.
      absurd
        (cc (sym (h (beyond (x ∷ xs)) refl) ∙ beyond_all (x ∷ xs) (beyond (x ∷ xs)) (omega arith))),
)
instruments_contain_iff (x ∷ xs) (y ∷ ys) = is_within_iff (y ∷ ys) (x ∷ xs)

dates_contain_iff :
    (own dates : Dates)
    → Ordered dates
    → (dates_contain own dates ≡ true)
      ↔ ((day : Day) → covers_day dates day ≡ true → covers_day own day ≡ true)
dates_contain_iff none dates o = (λ h day k. refl, λ h. refl)
dates_contain_iff (some (s, e)) none o = (λ h. absurd (cc h), λ h. absurd (late (h (suc e) refl)))
  where
    late : (leb s (suc e) && leb (suc e) e) ≡ true → ⊥
    late h = ground arith
dates_contain_iff (some (s, e)) (some (s', e')) o =
    (λ h day k. there day h k, λ h. back (h s' (start refl)) (h e' (end refl)))
  where
    there :
        (d : Day)
        → not (ltb s' s || ltb e e') ≡ true
        → (leb s' d && leb d e') ≡ true
        → (leb s d && leb d e) ≡ true
    there d h k = ground arith

    start : true ≡ true → (leb s' s' && leb s' e') ≡ true
    start h = ground arith

    end : true ≡ true → (leb s' e' && leb e' e') ≡ true
    end h = ground arith

    back :
        (leb s s' && leb s' e) ≡ true
        → (leb s e' && leb e' e) ≡ true
        → not (ltb s' s || ltb e e') ≡ true
    back h k = ground arith

contain_guards :
    (t i d f : Bool)
    → (if not t then false else if not i then false else if not d then false else f)
      ≡ (t && (i && (d && f)))
contain_guards true true true f = refl
contain_guards true true false f = refl
contain_guards true false d f = refl
contain_guards false i d f = refl

-- A scope contains one with dates in order exactly if they are of one table, it covers every
-- instrument and day that the other covers, and it has every field of the other.
pub contains_iff :
    (self other : ComponentScope)
    → Ordered other.dates
    → (contains self other ≡ true) ↔ (
        (self.table ≡ other.table)
        × ((id : Name) (day : Day) → covers other id day ≡ true → covers self id day ≡ true)
        × ((field : Name) → member other.fields field ≡ true → member self.fields field ≡ true))
unfolding contains
contains_iff self other o =
    let ids = instruments_contain_iff self.instrument_ids other.instrument_ids in
    let days = dates_contain_iff self.dates other.dates o in
    let fields = is_within_iff other.fields self.fields in
    let table = same_table_iff self.table other.table in
    let t = same_table self.table other.table in
    let i = instruments_contain self.instrument_ids other.instrument_ids in
    let d = dates_contain self.dates other.dates in
    let f = is_within other.fields self.fields in
    let whole = contain_guards t i d f in
    let (an_id, covered_id) = some_instrument other.instrument_ids in
    let (a_day, covered_day) = some_day other.dates o in
    (
      λ c.
          let (same, c1) = parts t _ (sym whole ∙ c) in
          let (c2, c3) = parts i _ c1 in
          let (c4, c5) = parts d f c3 in
          (
            table.0 same,
            λ id day k.
                let (k1, k2) = parts (covers_instrument other.instrument_ids id) _ k in
                both _ _ (ids.0 c2 id k1) (days.0 c4 day k2),
            fields.0 c5,
          ),
      λ (same, all, named).
          let of_ids = λ (id : Name) (k : covers_instrument other.instrument_ids id ≡ true).
            (parts (covers_instrument self.instrument_ids id) _
              (all id a_day (both _ _ k covered_day))).0 in
          let of_days = λ (day : Day) (k : covers_day other.dates day ≡ true).
            (parts (covers_instrument self.instrument_ids an_id) _
              (all an_id day (both _ _ covered_id k))).1 in
          whole
          ∙ both t _ (table.1 same)
              (both i _ (ids.1 of_ids) (both d f (days.1 of_days) (fields.1 named))),
    )

-- The constructor leaves the dates in order.
pub component_scope-Ordered :
    (table : MarketTable) (ids : List Name) (start_date end_date : Option Day) (fields : List Name)
    {s : ComponentScope}
    → component_scope table ids start_date end_date fields ≡ ok s
    → Ordered s.dates
unfolding component_scope
component_scope-Ordered table ids start_date end_date fields h =
    let (dates, t, h1) = >>=-eq-ok (together start_date end_date) _ h in
    let names = sorted_set ltb fields in
    let (_, done) = raise_if-eq-ok (is_empty names || any (λ (f : Name). f == 0) names) _ _ h1 in
    let same = ok-injective done in rw (← same) (ordered start_date end_date t)
  where
    ordered : (a b : Option Day) {d : Dates} → together a b ≡ ok d → Ordered d
    ordered none none k = let same = ok-injective k in rw (← same) tt
    ordered (some a) (some b) k =
        let (late, done) = raise_if-eq-ok (ltb b a) _ _ k in
        let same = ok-injective done in rw (← same) (not_ltb→le b a late)
    ordered none (some b) k = absurd (cc k)
    ordered (some a) none k = absurd (cc k)
