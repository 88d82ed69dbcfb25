-- ===== src/Kernel/Close/Worth.antt =====
-- What a valuation says, and what it changes.
use mini_qmt.Common.{
  ◌≡◌, refl, ◌∙◌, Option, none, some, List, [], ◌∷◌, ok, >>=-eq-ok, ok-injective, raise_if-eq-ok,
}
use mini_qmt.Common.Int.{◌+ℤ◌, pos}
use mini_qmt.Common.Sorting.{sorted_set}
use mini_qmt.Common.Dict.{Dict, get}
use mini_qmt.Decimal
use mini_qmt.Decimal.{Decimal}
use mini_qmt.Decimal.Exact.{of_cents}
use mini_qmt.Market.{Name, Day, DailyBar, MarketSession}
use mini_qmt.Trading.Fees.{money}
use mini_qmt.Trading.Fees.Exact.{money-add}
use mini_qmt.Trading.State.{
  PortfolioState, check_state, check_event, Reason, LedgerEvent, reason_before,
}
use mini_qmt.Kernel.Setup.Marking.{mark_incomplete_frame}
use mini_qmt.Kernel.Setup.{mark_incomplete}
use mini_qmt.Kernel.Close.{
  Tally, value_at, tally_symbols, value_at_close, Closing, held_instruments, update_prices,
}

-- Two states with the same books: they differ in their last prices and their reasons alone.
pub record SameBooks (s t : PortfolioState) : Type 0 where
  pub initial_cash : t.initial_cash ≡ s.initial_cash
  pub cash : t.cash ≡ s.cash
  pub lots : t.lots ≡ s.lots
  pub pending_orders : t.pending_orders ≡ s.pending_orders
  pub entitlements : t.entitlements ≡ s.entitlements
  pub realized_pnl : t.realized_pnl ≡ s.realized_pnl
  pub fees_paid : t.fees_paid ≡ s.fees_paid
  pub dividend_income : t.dividend_income ≡ s.dividend_income

pub same_books : (s : PortfolioState) → SameBooks s s
same_books s = record {
  initial_cash = refl;
  cash = refl;
  lots = refl;
  pending_orders = refl;
  entitlements = refl;
  realized_pnl = refl;
  fees_paid = refl;
  dividend_income = refl;
}

pub SameBooks-trans : (s t u : PortfolioState) → SameBooks s t → SameBooks t u → SameBooks s u
SameBooks-trans s t u p q = record {
  initial_cash = q.initial_cash ∙ p.initial_cash;
  cash = q.cash ∙ p.cash;
  lots = q.lots ∙ p.lots;
  pending_orders = q.pending_orders ∙ p.pending_orders;
  entitlements = q.entitlements ∙ p.entitlements;
  realized_pnl = q.realized_pnl ∙ p.realized_pnl;
  fees_paid = q.fees_paid ∙ p.fees_paid;
  dividend_income = q.dividend_income ∙ p.dividend_income;
}

pub marked_books :
    (s s' : PortfolioState) (day : Day) (reason : Reason) (entity : Name)
    {events : List LedgerEvent}
    → mark_incomplete s day reason entity ≡ ok (s', events)
    → SameBooks s s'
marked_books s s' day reason entity m =
    let (a, b, c, d, e, f, g, h, i) = mark_incomplete_frame s s' day reason entity m in
    record {
      initial_cash = b;
      cash = a;
      lots = c;
      pending_orders = d;
      entitlements = e;
      realized_pnl = g;
      fees_paid = h;
      dividend_income = i;
    }

value_at-SameBooks :
    (symbol : Name) (bars : Dict DailyBar) (day : Day) (t : Tally) (price : Option Decimal)
    {r : Tally}
    → value_at symbol bars day t price ≡ ok r
    → SameBooks t.state r.state
value_at-SameBooks symbol bars day t none {r} h =
    let (marked, m, done) = >>=-eq-ok (mark_incomplete t.state day _ symbol) _ h in
    rw (← ok-injective done) (marked_books t.state marked.0 day _ symbol m)
value_at-SameBooks symbol bars day t (some price) {r} h =
    let (worth, _, done) = >>=-eq-ok (money _) _ h in rw (← ok-injective done) (same_books t.state)

tally_symbols-SameBooks :
    (prices : Dict Decimal) (bars : Dict DailyBar) (day : Day) (t : Tally) (symbols : List Name)
    {r : Tally}
    → tally_symbols prices bars day t symbols ≡ ok r
    → SameBooks t.state r.state
unfolding tally_symbols
tally_symbols-SameBooks prices bars day t [] {r} h = rw (← ok-injective h) (same_books t.state)
tally_symbols-SameBooks prices bars day t (symbol ∷ symbols) {r} h =
    let (next, valued, rest) = >>=-eq-ok (value_at symbol bars day t (get prices symbol)) _ h in
    SameBooks-trans t.state next.state r.state
      (value_at-SameBooks symbol bars day t (get prices symbol) valued)
      (tally_symbols-SameBooks prices bars day next symbols rest)

unreasoned :
    (s : PortfolioState) (prices : Dict Decimal) (reasons : List Reason)
    → SameBooks s (record s { last_prices = prices; incomplete_reasons = reasons })
unreasoned s prices reasons = record {
  initial_cash = refl;
  cash = refl;
  lots = refl;
  pending_orders = refl;
  entitlements = refl;
  realized_pnl = refl;
  fees_paid = refl;
  dividend_income = refl;
}

checked_books :
    (s : PortfolioState) (prices : Dict Decimal) {c : PortfolioState}
    → check_state (record s { last_prices = prices }) ≡ ok c
    → SameBooks s c × (c.last_prices ≡ prices)
unfolding check_state
checked_books s prices {c} h =
    let (_, done) = raise_if-eq-ok _ _ _ h in
    let same : record s {
      last_prices = prices;
      incomplete_reasons = sorted_set reason_before s.incomplete_reasons;
    }
        ≡ c =
      ok-injective done in
    rw (← same) (unreasoned s prices _, refl)

-- What a valuation at the close comes to.
pub record Valued (s : PortfolioState) (market : MarketSession) (r : Closing) : Type 0 where
  pub books : SameBooks s r.state
  pub prices : r.state.last_prices ≡ update_prices s.last_prices market.bars
  pub day : r.valuation.session_date ≡ market.session_date
  pub cash : r.valuation.cash ≡ s.cash
  pub equity : r.valuation.total_equity ≡ r.valuation.cash +ℤ r.valuation.market_value

-- The total equity of a valuation is the cash and the market value, to the cent, and the closing
-- changes no books: only the last prices, which take the session's closes, and the reasons.
pub value_at_close-Valued :
    (s : PortfolioState) (market : MarketSession) {r : Closing}
    → value_at_close s market ≡ ok r
    → Valued s market r
unfolding value_at_close
value_at_close-Valued s market {r} h =
    let start : Tally = record { state = s; value = of_cents (pos 0); stale = []; events = [] } in
    let prices = update_prices s.last_prices market.bars in
    let (t, tallied, h1) =
      >>=-eq-ok
        (tally_symbols prices market.bars market.session_date start (held_instruments s.lots)) _
        h in
    let (value, _, h2) = >>=-eq-ok (money _) _ h1 in
    let (total, e, h3) = >>=-eq-ok (money _) _ h2 in
    let (_, _, h4) = >>=-eq-ok (Decimal.div _ _) _ h3 in
    let (_, _, h5) = >>=-eq-ok (Decimal.quantize 8 _) _ h4 in
    let (current, checked, h6) = >>=-eq-ok (check_state _) _ h5 in
    let (_, _, done) = >>=-eq-ok (check_event _) _ h6 in
    let tallied' : SameBooks s t.state =
      tally_symbols-SameBooks prices market.bars market.session_date start (held_instruments s.lots)
        tallied in
    let (books, last) = checked_books t.state prices checked in
    rw (← ok-injective done) (record {
      books = SameBooks-trans s t.state current tallied' books;
      prices = last;
      day = refl;
      cash = books.cash ∙ tallied'.cash;
      equity = rw books.cash (money-add t.state.cash value e);
    })
