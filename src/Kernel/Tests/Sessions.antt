-- ===== src/Kernel/Tests/Sessions.antt =====
-- Examples of the theorems on sessions, valuations, intents and incomplete states.
use mini_qmt.Common.{◌≡◌, arith, some, List, [], ok, Result}
use mini_qmt.Trading.State.{PortfolioState, LedgerEvent}
use mini_qmt.Kernel.Setup.{mark_incomplete}
use mini_qmt.Kernel.Setup.Marking.{mark_incomplete_twice}
use mini_qmt.Kernel.Close.{value_at_close}
use mini_qmt.Kernel.Close.Worth.{Valued, value_at_close-Valued}
use mini_qmt.Kernel.Session.{process_session, sort_orders}
use mini_qmt.Kernel.Session.Partition.{Partitioned, sort_orders-Partitioned}
use mini_qmt.Kernel.Submission.{submit_intent}
use mini_qmt.Kernel.Submission.Scheduled.{Submitted, submit_intent-Submitted}
use mini_qmt.Kernel.Valid.{IsPortfolio}
use mini_qmt.Kernel.Valid.Sessions.{process_session-IsPortfolio}
use mini_qmt.Kernel.Tests.{
  value_of, returns, digest, kernel, portfolio, lots-IsLot, market, intent, reason,
}
use mini_qmt.Kernel.Tests.Runs.{
  process_session-returns, value_at_close-returns, sort_orders-returns, submit_intent-returns,
  mark_incomplete-returns,
}

portfolio-IsPortfolio : IsPortfolio portfolio
portfolio-IsPortfolio = record { initial = omega arith; solvent = omega arith; lots = lots-IsLot }

process_session-IsPortfolio_example :
    IsPortfolio
      (value_of (process_session digest kernel portfolio market) process_session-returns).state
process_session-IsPortfolio_example =
    process_session-IsPortfolio digest kernel portfolio market portfolio-IsPortfolio
      (returns (process_session digest kernel portfolio market) process_session-returns)

submit_intent-Submitted_example :
    (intent.decision_date ≡ market.session_date)
    × Submitted kernel intent 11 (some 12) portfolio (
        value_of
          (submit_intent digest kernel intent portfolio market (some 12))
          submit_intent-returns)
submit_intent-Submitted_example =
    submit_intent-Submitted digest kernel intent portfolio market (some 12) (
      returns (submit_intent digest kernel intent portfolio market (some 12)) submit_intent-returns)

value_at_close-Valued_example :
    Valued portfolio market (value_of (value_at_close portfolio market) value_at_close-returns)
value_at_close-Valued_example =
    value_at_close-Valued portfolio market
      (returns (value_at_close portfolio market) value_at_close-returns)

sort_orders-Partitioned_example :
    Partitioned 11 portfolio.pending_orders
      (value_of (sort_orders 11 portfolio.pending_orders) sort_orders-returns)
sort_orders-Partitioned_example =
    sort_orders-Partitioned 11 portfolio.pending_orders
      (returns (sort_orders 11 portfolio.pending_orders) sort_orders-returns)

abbrev marked : Result (PortfolioState × List LedgerEvent)
marked = mark_incomplete portfolio 11 reason 7

abbrev incomplete : PortfolioState
incomplete = (value_of marked mark_incomplete-returns).0

mark_incomplete_twice_example : mark_incomplete incomplete 12 reason 7 ≡ ok (incomplete, [])
mark_incomplete_twice_example =
    mark_incomplete_twice portfolio incomplete 11 12 reason 7
      (returns marked mark_incomplete-returns)
