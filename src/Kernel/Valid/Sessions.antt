-- ===== src/Kernel/Valid/Sessions.antt =====
-- A session and a submitted intent keep a portfolio valid.
use mini_qmt.Common.{
  ℕ, ◌≡◌, inl, inr, not, [], ok, >>=-eq-ok, raise_if-eq-ok, ok-injective, Bool-cases,
}
use mini_qmt.Common.Sorting.{sort}
use mini_qmt.Market.{MarketSession, Day}
use mini_qmt.Trading.State.{PortfolioState, check_state, SessionResult}
use mini_qmt.Kernel.Setup.{TradingKernel, DigestBody, is_session}
use mini_qmt.Kernel.Actions.{apply_open_actions, capture_entitlements}
use mini_qmt.Kernel.Actions.Common.{Outcome}
use mini_qmt.Kernel.Close.{value_at_close}
use mini_qmt.Kernel.Close.Worth.{value_at_close-Valued}
use mini_qmt.Kernel.Session.{
  process_session, execute_orders, sort_orders, executes_before, mark_untrusted,
}
use mini_qmt.Kernel.Valid.{
  IsPortfolio, check_state-IsPortfolio, SameBooks-IsPortfolio, mark_incomplete-IsPortfolio,
}
use mini_qmt.Kernel.Valid.Orders.{execute_orders-IsPortfolio}
use mini_qmt.Kernel.Valid.Payments.{apply_open_actions-Keeps, capture_entitlements-Keeps}

module _ (digest : DigestBody → ℕ) (kernel : TradingKernel) (s : PortfolioState) where
  mark_untrusted-IsPortfolio :
      (day : Day) (r : Outcome)
      → IsPortfolio s
      → mark_untrusted digest kernel s day ≡ ok r
      → IsPortfolio r.0
  mark_untrusted-IsPortfolio day r v h =
      elim (Bool-cases kernel.fee_schedule.trusted_for_simulation) [
        | inl trusted ↦ let same : (s, []) ≡ r = ok-injective (rw trusted at h) in rw (← same) v
        | inr untrusted ↦
            mark_incomplete-IsPortfolio s r.0 day _ kernel.fee_schedule.schedule_id v
              (rw untrusted at h)
      ]

  -- A session that a kernel completes leaves a valid portfolio valid: through the corporate actions,
  -- the orders, the valuation and the entitlements its initial cash stays positive, its cash is
  -- never below zero, and all its lots are as their constructor admits them.
  pub process_session-IsPortfolio :
      (market : MarketSession) {r : SessionResult}
      → IsPortfolio s
      → process_session digest kernel s market ≡ ok r
      → IsPortfolio r.state
  unfolding process_session
  process_session-IsPortfolio market {r} v h =
      let day = market.session_date in
      let (_, h1) = raise_if-eq-ok (not (is_session kernel.sessions day)) _ _ h in
      let ((marked, e1), m, h2) = >>=-eq-ok (mark_untrusted digest kernel s day) _ h1 in
      let v1 : IsPortfolio marked = mark_untrusted-IsPortfolio day (marked, e1) v m in
      let ((opened, e2), a, h3) = >>=-eq-ok (apply_open_actions digest marked market) _ h2 in
      let v2 : IsPortfolio opened =
        apply_open_actions-Keeps digest marked market (opened, e2) v1 a in
      let (sorted, _, h4) = >>=-eq-ok (sort_orders day opened.pending_orders) _ h3 in
      let (current, c, h5) = >>=-eq-ok (check_state _) _ h4 in
      let v3 : IsPortfolio current = check_state-IsPortfolio _ v2.lots c in
      let (done, x, h6) =
        >>=-eq-ok (execute_orders digest kernel market current (sort executes_before sorted.due)) _
          h5 in
      let v4 : IsPortfolio done.state =
        execute_orders-IsPortfolio digest kernel market current (sort executes_before sorted.due) v3
          x in
      let (closing, w, h7) = >>=-eq-ok (value_at_close done.state market) _ h6 in
      let v5 : IsPortfolio closing.state =
        SameBooks-IsPortfolio done.state closing.state
          (value_at_close-Valued done.state market w).books v4 in
      let ((final, e3), t, last) = >>=-eq-ok (capture_entitlements closing.state market) _ h7 in
      rw (← ok-injective last) (capture_entitlements-Keeps closing.state market (final, e3) v5 t)
