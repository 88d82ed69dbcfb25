-- ===== src/Market/Portal/Actions.antt =====
-- The corporate actions that `CanonicalMarketData.session` of marketdata/portal.py shows.
use mini_qmt.Common.{◌<◌, ◌≤◌, ◌≡◌, refl, arith, Option, some, List, [], ◌∷◌, leb, keep_if, All}
use mathlib.Core.List.{Mem}
use mini_qmt.Market.{Day, CorporateAction, MarketSession}
use mini_qmt.Market.Portal.{CanonicalMarketData, session}

-- The second list has the actions of the first in their order, and at any places others that become
-- known after the day.
pub data Inserted (day : Day) : List CorporateAction → List CorporateAction → Type 0 where
  no_actions : Inserted day [] []
  kept :
      (a : CorporateAction) {old new : List CorporateAction}
      → Inserted day old new
      → Inserted day (a ∷ old) (a ∷ new)
  inserted :
      (a : CorporateAction) {old new : List CorporateAction}
      → day < a.known_date
      → Inserted day old new
      → Inserted day old (a ∷ new)

same_visible :
    (day : Day) {old new : List CorporateAction}
    → Inserted day old new
    → keep_if (λ (a : CorporateAction). leb a.known_date day) new
      ≡ keep_if (λ (a : CorporateAction). leb a.known_date day) old
same_visible day no_actions = refl
same_visible day (kept a rest) = ground (arith, same_visible day rest)
same_visible day (inserted a later rest) = ground (arith, same_visible day rest)

-- The actions of the list that are known by the day and have the date are shown.
abbrev pub AllShown :
    (CorporateAction → Option Day) → Day → List CorporateAction → List CorporateAction → Type 0
AllShown date day shown actions =
    All (λ (a : CorporateAction). a.known_date ≤ day → date a ≡ some day → Mem a shown) actions

-- Actions that become known after a day do not change what the session of the day shows, wherever they
-- stand among the other actions and however many they are.
pub session_not_ahead :
    (market : CanonicalMarketData) (day : Day) (actions : List CorporateAction)
    → Inserted day market.action_records actions
    → session (record market { action_records = actions }) day ≡ session market day
unfolding session
session_not_ahead market day actions more = rw (same_visible day more) refl

-- What a session shows of the actions: none that is not known by its day, and in each list all that are
-- known and have the day as the list's date.
pub record Shows (actions : List CorporateAction) (day : Day) (s : MarketSession) : Type 0 where
  pub records_known : All (λ (a : CorporateAction). a.known_date ≤ day) s.record_actions
  pub exs_known : All (λ (a : CorporateAction). a.known_date ≤ day) s.ex_actions
  pub pays_known : All (λ (a : CorporateAction). a.known_date ≤ day) s.pay_actions
  pub listings_known : All (λ (a : CorporateAction). a.known_date ≤ day) s.listing_actions
  pub records : AllShown (λ a. a.record_date) day s.record_actions actions
  pub exs : AllShown (λ a. some a.ex_date) day s.ex_actions actions
  pub pays : AllShown (λ a. a.pay_date) day s.pay_actions actions
  pub listings : AllShown (λ a. a.listing_date) day s.listing_actions actions
