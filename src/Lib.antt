-- ===== src/Lib.antt =====
-- A model of the simulation of miniQMT: the trading kernel, the repository and the service
-- (fundlab/trading), with the market data that they read (fundlab/marketdata).
--
-- The program simulates a portfolio day by day. A strategy submits a PortfolioIntent after the close;
-- the risk policy assesses it, and what it approves becomes orders for the next session. A session
-- applies the corporate actions, executes the orders that are due at the prices of the daily bars,
-- values the portfolio at the close, and captures the entitlements of the record dates. Everything
-- that happens is reported as a ledger event. The kernel is pure: it takes a state and returns one.
--
-- The files follow the program:
--   Common, Common/*: shared helpers. Exceptions are the values of Result; the order in which calls
--     raise is the order of the do blocks.
--   Decimal, Decimal/*: the part of Python's decimal module that the code calls, in its default context.
--   Market: fundlab/marketdata/contracts.py and portal.py, the enumerations and the records.
--   Market/Portal, Portal/*: fundlab/marketdata/portal.py, the queries of CanonicalMarketData.
--   Market/Rules, Rules/*: fundlab/marketdata/trade_rules.py, the rules of quantities, stocks and ETFs.
--   Market/Components, Components/*: fundlab/marketdata/components.py, scopes, the rows of a read, and
--     its cache (Components/Reads).
--   Market/Reconciliation, Reconciliation/*: fundlab/marketdata/reconciliation.py, the choice of a
--     field's value among candidates.
--   Trading/Fees, Fees/*: fundlab/trading/fees.py (money, FeeRule, FeeBreakdown, FeeSchedule).
--   Trading/Intent, Intent/*: fundlab/trading/intent.py (PortfolioIntent, RiskPolicy, assess_intent);
--     Intent/Create: PortfolioIntent.create.
--   Trading/State, State/Events: fundlab/trading/state.py. A `check_` function is the `__post_init__`
--     of a class; `replace` runs it again, so each replace of the code is a `check_state` of the model.
--   Trading/Repository, Repository/*: fundlab/trading/repository.py (TradingRepository and its records).
--     The SQLite tables are dicts, a transaction that raises changes nothing, and the unique keys of
--     the tables are tests that raise an integrity error. A JSON column holds the value itself.
--   Trading/Quantity, Trading/Pricing: the functions at the end of fundlab/trading/kernel.py,
--     `_blocked_reason` and `_fill_price`.
--   Kernel/Setup: TradingKernel.__init__, _advance_session, _order_event, _action_event and
--     _mark_incomplete.
--   Kernel/Orders: _execute_order; Orders/Sizing: the quantities of _execute_order and
--     _affordable_buy_quantity; Orders/Booking: _apply_buy and _apply_sell.
--   Kernel/Actions: _apply_open_actions and _capture_entitlements; Actions/Split: _apply_split;
--     Actions/Allocation: _allocate_share_action_cost.
--   Kernel/Close: _value_at_close and _equity. Kernel/Session: process_session.
--   Kernel/Submission: submit_intent.
--   Kernel/Valid: the validity of a portfolio through all of these.
--   Simulation/Schedule, Schedule/*: fundlab/trading/schedule.py; Schedule/Months is the arithmetic of
--     date.year and date.month.
--   Simulation/Service, Service/*: fundlab/trading/runtime.py (the clocks and SimulationService). A
--     call returns the repository and its result, since a run that raises leaves what it stored. An
--     intent source is a record with the function decide, which may raise.
--   Simulation/Static: StaticAllocationSource of the same file.
--   Simulation/Feedback, Feedback/*: fundlab/trading/reporting.py, and the queries of the repository
--     that only the feedback makes.
--   Tests of Kernel, Market, Simulation and Trading: small markets, runs on them and examples.
--
-- How values are modelled:
--   A Decimal is a coefficient over a power of ten, rounded to 28 digits half to even as the default
--     context does. The exponent under which a value prints, the negative zero and the limits on
--     exponents are left out, and a quantize beyond 28 digits is an arithmetic error.
--   Amounts that the code has passed through money are whole cents, an integer.
--   A float is the decimal that str prints for it, which is what decimal_value makes of it.
--   An identifier or free text is a number, its place in the order of texts; 0 is the blank text.
--   A date is its ordinal. A dict is an association list in insertion order.
--   The payload of an event is typed; an incomplete reason is its kind and its subject.
--   The digest (SHA-256 of canonical JSON) is a parameter, on which no theorem assumes anything.
--   The sum of _equity runs over a set, in no order that the language fixes; the model takes the sorted one.
--
-- Loops are structural but for the search of _affordable_buy_quantity, whose fuel is the number of
-- slots; each round makes the range of slots smaller, and the search's theorem needs no more.
--
-- Not modelled: the files and connections of SQLite, price adjustment (products of binary floats over
-- tables), the providers, the warehouse with its ingestion and history, the tables of the reconciliation,
-- the files and manifests of components, and the command line.
pub mod Common
pub mod Decimal
pub mod Market
pub mod Trading
pub mod Kernel
pub mod Simulation
