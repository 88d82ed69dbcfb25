-- ===== src/Kernel/Valid/Payments.antt =====
-- Dividends, declined rights, listings and entitlements keep a portfolio valid.
use mini_qmt.Common.{
  ℕ, ◌≡◌, inl, inr, Bool, true, false, Option, none, some, List, [], ◌∷◌, ◌++◌, ◌==◌, ok, Result,
  or_raise, type_error, >>=-eq-ok, ok-injective, Bool-cases, All, All-append,
}
use mini_qmt.Decimal
use mini_qmt.Decimal.{Decimal}
use mini_qmt.Market.{
  Day, CorporateAction, CorporateActionType, MarketSession, cash_dividend, stock_dividend, split,
  rights_issue,
}
use mini_qmt.Trading.Fees.{money}
use mini_qmt.Trading.State.{PortfolioState, check_state, PositionLot, check_lot, Entitlement}
use mini_qmt.Kernel.Setup.{DigestBody, action_event}
use mini_qmt.Kernel.Orders.Booking.Lots.{IsLot}
use mini_qmt.Kernel.Actions.{
  run_actions, ex_action, pay_dividend, pay_by, decline_rights, pay_action, distributed_lots,
  mark_unadjusted, mark_fraction, list_shares, list_by, listing_action, apply_open_actions, capture,
  capture_entitlements, action_ids,
}
use mini_qmt.Kernel.Actions.Common.{Outcome, entitlement_of, mark}
use mini_qmt.Kernel.Actions.Split.Costs.{valid_lot}
use mini_qmt.Kernel.Valid.{IsPortfolio, check_state-IsPortfolio}
use mini_qmt.Kernel.Valid.Actions.{
  Keeps, mark-Keeps, unchanged-Keeps, unentitled-Keeps, ex_action-Keeps,
}

pay_dividend-Keeps :
    (day : Day) (s : PortfolioState) (a : CorporateAction) (e : Entitlement)
    → Keeps s (pay_dividend day s a e)
unfolding pay_dividend
pay_dividend-Keeps day s a e r v h =
    let (per_share, _, h1) = >>=-eq-ok (or_raise a.cash_per_share type_error) _ h in
    let (gross, _, h2) = >>=-eq-ok (money _) _ h1 in
    let (_, _, h3) = >>=-eq-ok (money _) _ h2 in
    let (_, _, h4) = >>=-eq-ok (money _) _ h3 in
    let (paid, checked, h5) = >>=-eq-ok (check_state _) _ h4 in
    let (event, _, h6) = >>=-eq-ok (action_event day _ a _) _ h5 in
    let ((final, later), marked, done) = >>=-eq-ok (mark paid day _ a) _ h6 in
    let same : (final, event ∷ later) ≡ r = ok-injective done in
    rw (← same)
      (mark-Keeps paid day _ a (final, later) (check_state-IsPortfolio _ v.lots checked) marked)

pay_by-Keeps :
    (e : Option Entitlement) (day : Day) (s : PortfolioState) (a : CorporateAction)
    → Keeps s (pay_by e day s a)
pay_by-Keeps none day s a r v h = unentitled-Keeps day s a r v h
pay_by-Keeps (some e) day s a r v h = pay_dividend-Keeps day s a e r v h

decline_rights-Keeps :
    (day : Day) (s : PortfolioState) (a : CorporateAction) → Keeps s (decline_rights day s a)
unfolding decline_rights
decline_rights-Keeps day s a r v h =
    let (event, _, h1) = >>=-eq-ok (action_event day _ a _) _ h in
    let (current, checked, done) = >>=-eq-ok (check_state _) _ h1 in
    let same : (current, event ∷ []) ≡ r = ok-injective done in
    rw (← same) (check_state-IsPortfolio _ v.lots checked)

pay_action-Keeps :
    (day : Day) (s : PortfolioState) (a : CorporateAction) → Keeps s (pay_action day s a)
unfolding pay_action
pay_action-Keeps day s a r v h = go a.action_type h
  where
    go :
        (type : CorporateActionType)
        → (elim type as (λ _. Result Outcome) [
          | rights_issue ↦ decline_rights day s a
          | cash_dividend ↦ pay_by (entitlement_of a.action_id s.entitlements) day s a
          | _ ↦ ok (s, [])
        ])
          ≡ ok r
        → IsPortfolio r.0
    go cash_dividend e = pay_by-Keeps (entitlement_of a.action_id s.entitlements) day s a r v e
    go stock_dividend e = unchanged-Keeps s [] r v e
    go split e = unchanged-Keeps s [] r v e
    go rights_issue e = decline_rights-Keeps day s a r v e

-- A loop over actions keeps what its body keeps.
run_actions-Keeps :
    (step : PortfolioState → CorporateAction → Result Outcome)
    → ((s : PortfolioState) (a : CorporateAction) → Keeps s (step s a))
    → (s : PortfolioState) (actions : List CorporateAction) → Keeps s (run_actions step s actions)
unfolding run_actions
run_actions-Keeps step keeps s [] r v h = unchanged-Keeps s [] r v h
run_actions-Keeps step keeps s (a ∷ actions) r v h =
    let ((current, events), first, h1) = >>=-eq-ok (step s a) _ h in
    let ((final, later), rest, done) = >>=-eq-ok (run_actions step current actions) _ h1 in
    let same : (final, events ++ later) ≡ r = ok-injective done in
    rw (← same) (
      run_actions-Keeps step keeps current actions (final, later)
        (keeps s a (current, events) v first) rest)

module _ (digest : DigestBody → ℕ) where
  distributed_lots-valid :
      (day : Day) (a : CorporateAction) (e : Entitlement) {lots : List PositionLot}
      → distributed_lots digest day a e ≡ ok lots
      → All IsLot lots
  unfolding distributed_lots
  distributed_lots-valid day a e {lots} h = elim (Bool-cases (e.distributed_quantity == 0)) [
    | inl nothing ↦ let same : [] ≡ lots = ok-injective (rw nothing at h) in rw (← same) tt
    | inr shares ↦
        let (lot, c, done) = >>=-eq-ok (check_lot _) _ (rw shares at h) in
        rw (← ok-injective done) (valid_lot _ c, tt)
  ]

  mark_unadjusted-Keeps :
      (on : Option Day) (day : Day) (s : PortfolioState) (a : CorporateAction)
      → Keeps s (mark_unadjusted digest on day s a)
  mark_unadjusted-Keeps none day s a r v h = mark-Keeps s day _ a r v h
  mark_unadjusted-Keeps (some d) day s a r v h = unchanged-Keeps s [] r v h

  mark_fraction-Keeps :
      (exact : Bool) (day : Day) (s : PortfolioState) (a : CorporateAction)
      → Keeps s (mark_fraction digest exact day s a)
  mark_fraction-Keeps true day s a r v h = unchanged-Keeps s [] r v h
  mark_fraction-Keeps false day s a r v h = mark-Keeps s day _ a r v h

  list_shares-Keeps :
      (day : Day) (s : PortfolioState) (a : CorporateAction) (e : Entitlement)
      → Keeps s (list_shares digest day s a e)
  unfolding list_shares
  list_shares-Keeps day s a e r v h =
      let ((checked, unadjusted), first, h1) =
        >>=-eq-ok (mark_unadjusted digest e.adjusted_on day s a) _ h in
      let (new_lots, distributed, h2) = >>=-eq-ok (distributed_lots digest day a e) _ h1 in
      let (current, accepted, h3) = >>=-eq-ok (check_state _) _ h2 in
      let (event, _, h4) = >>=-eq-ok (action_event day _ a _) _ h3 in
      let (ratio, _, h5) = >>=-eq-ok (or_raise a.share_ratio type_error) _ h4 in
      let exact = Decimal.mul (Decimal.of_ℕ e.quantity) ratio in
      let whole = Decimal.eq exact (Decimal.of_ℕ e.distributed_quantity) in
      let ((final, fraction), last, done) =
        >>=-eq-ok (mark_fraction digest whole day current a) _ h5 in
      let same : (final, unadjusted ++ event ∷ fraction) ≡ r = ok-injective done in
      let held : IsPortfolio checked =
        mark_unadjusted-Keeps e.adjusted_on day s a (checked, unadjusted) v first in
      let lots =
        All-append IsLot checked.lots new_lots held.lots
          (distributed_lots-valid day a e distributed) in
      rw (← same) (
        mark_fraction-Keeps whole day current a (final, fraction)
          (check_state-IsPortfolio _ lots accepted) last)

  list_by-Keeps :
      (e : Option Entitlement) (day : Day) (s : PortfolioState) (a : CorporateAction)
      → Keeps s (list_by digest e day s a)
  list_by-Keeps none day s a r v h = unentitled-Keeps day s a r v h
  list_by-Keeps (some e) day s a r v h = list_shares-Keeps day s a e r v h

  listing_action-Keeps :
      (day : Day) (s : PortfolioState) (a : CorporateAction)
      → Keeps s (listing_action digest day s a)
  unfolding listing_action
  listing_action-Keeps day s a r v h = go a.action_type h
    where
      go :
          (type : CorporateActionType)
          → (elim type as (λ _. Result Outcome) [
            | stock_dividend ↦ list_by digest (entitlement_of a.action_id s.entitlements) day s a
            | _ ↦ ok (s, [])
          ])
            ≡ ok r
          → IsPortfolio r.0
      go cash_dividend e = unchanged-Keeps s [] r v e
      go stock_dividend e = list_by-Keeps (entitlement_of a.action_id s.entitlements) day s a r v e
      go split e = unchanged-Keeps s [] r v e
      go rights_issue e = unchanged-Keeps s [] r v e

  pub apply_open_actions-Keeps :
      (s : PortfolioState) (market : MarketSession) → Keeps s (apply_open_actions digest s market)
  unfolding apply_open_actions
  apply_open_actions-Keeps s market r v h =
      let day = market.session_date in
      let ((after_ex, e1), first, h1) =
        >>=-eq-ok (run_actions (ex_action day) s market.ex_actions) _ h in
      let ((after_pay, e2), second, h2) =
        >>=-eq-ok (run_actions (pay_action day) after_ex market.pay_actions) _ h1 in
      let ((final, e3), third, done) =
        >>=-eq-ok (run_actions (listing_action digest day) after_pay market.listing_actions) _ h2 in
      let same : (final, e1 ++ e2 ++ e3) ≡ r = ok-injective done in
      let v1 : IsPortfolio after_ex =
        run_actions-Keeps (ex_action day) (ex_action-Keeps day) s market.ex_actions (after_ex, e1) v
          first in
      let v2 : IsPortfolio after_pay =
        run_actions-Keeps (pay_action day) (pay_action-Keeps day) after_ex market.pay_actions
          (after_pay, e2) v1 second in
      rw (← same) (
        run_actions-Keeps (listing_action digest day) (listing_action-Keeps day) after_pay
          market.listing_actions (final, e3) v2 third)

pub capture_entitlements-Keeps :
    (s : PortfolioState) (market : MarketSession) → Keeps s (capture_entitlements s market)
unfolding capture_entitlements
capture_entitlements-Keeps s market r v h =
    let ((added, events), _, h1) =
      >>=-eq-ok (capture s market.session_date (action_ids s.entitlements) market.record_actions) _
        h in
    let (current, checked, done) = >>=-eq-ok (check_state _) _ h1 in
    let same : (current, events) ≡ r = ok-injective done in
    rw (← same) (check_state-IsPortfolio _ v.lots checked)
