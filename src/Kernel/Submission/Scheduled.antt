-- ===== src/Kernel/Submission/Scheduled.antt =====
-- What a submitted intent does to a portfolio.
use mini_qmt.Common.{
  ℕ, ◌≡◌, ◌<◌, refl, ◌⊎◌, inl, inr, sym, ap, arith, Bool, true, false, not, ◌||◌, Option, none,
  some, List, [], ◌∷◌, ◌++◌, leb, ◌==◌, ok, Result, ◌>>=◌, >>=-eq-ok, raise_if-eq-ok, ok-injective,
  Bool-cases, All, All-append,
}
use mini_qmt.Common.Dict.{Dict, get}
use mini_qmt.Common.Int.{ℤ}
use mini_qmt.Common.Sorting.{sort, sorted_set}
use mini_qmt.Decimal.{Decimal}
use mini_qmt.Market.{Name, Day, DailyBar, Instrument, MarketSession}
use mini_qmt.Trading.Fees.{Side}
use mini_qmt.Trading.Intent.{PortfolioIntent, RiskAssessment, assess_intent}
use mini_qmt.Trading.State.{
  PortfolioState, check_state, Order, check_order, LedgerEvent, IntentResult, quantity,
  reason_before,
}
use mini_qmt.Kernel.Setup.{TradingKernel, DigestBody, is_session, order_event, mark_incomplete}
use mini_qmt.Kernel.Close.{equity, usable_close}
use mini_qmt.Kernel.Close.Worth.{SameBooks, same_books, SameBooks-trans, marked_books}
use mini_qmt.Kernel.Submission.{
  Draft, target_quantity, declare, skip_symbol, create_order, draft_priced, draft_orders,
  schedule_orders, unscheduled, schedule_by, submit_intent, order_before, traded_symbols, weight_of,
  intent_event,
}

-- An order of the intent, created on a day for a later one, with nothing filled yet.
pub record OrderFor (intent : PortfolioIntent) (day next_session : Day) (o : Order) : Type 0 where
  pub of_intent : o.intent_id ≡ intent.intent_id
  pub created : o.created_on ≡ day
  pub execution : o.execution_date ≡ next_session
  pub expiry : o.expiry_date ≡ next_session
  pub ahead : day < next_session
  pub positive : 0 < o.requested_quantity
  pub unfilled : o.remaining_quantity ≡ o.requested_quantity

-- A draft keeps the books, and its orders are the intent's.
pub record Drafted (intent : PortfolioIntent) (day next_session : Day) (s : PortfolioState)
    (d : Draft) : Type 0 where
  pub books : SameBooks s d.state
  pub orders : All (OrderFor intent day next_session) d.orders

checked_order :
    (o : Order) {r : Order}
    → check_order o ≡ ok r
    → (r ≡ o) × (0 < o.requested_quantity) × (o.created_on < o.execution_date)
unfolding check_order
checked_order o {r} h = ground arith

module _ (digest : DigestBody → ℕ) (kernel : TradingKernel) (intent : PortfolioIntent)
    (day next_session : Day) (s : PortfolioState) where
  skip_symbol-Drafted :
      (d : Draft) (symbol : Name) {r : Draft}
      → Drafted intent day next_session s d
      → skip_symbol digest kernel intent day d symbol ≡ ok r
      → Drafted intent day next_session s r
  unfolding skip_symbol
  skip_symbol-Drafted d symbol {r} k h =
      let ((current, _), marked, h1) = >>=-eq-ok (mark_incomplete d.state day _ symbol) _ h in
      let (_, _, done) = >>=-eq-ok (intent_event day _ intent _) _ h1 in
      let books = marked_books d.state current day _ symbol marked in
      rw (← ok-injective done)
        (record { books = SameBooks-trans s d.state current k.books books; orders = k.orders })

  order_for :
      (o r : Order)
      → o.intent_id ≡ intent.intent_id
      → o.created_on ≡ day
      → o.execution_date ≡ next_session
      → o.expiry_date ≡ next_session
      → o.remaining_quantity ≡ o.requested_quantity
      → check_order o ≡ ok r
      → OrderFor intent day next_session r
  order_for o r i c x e q h =
      let (same, positive, ahead) = checked_order o h in
      rw same (record {
        of_intent = i;
        created = c;
        execution = x;
        expiry = e;
        ahead = rw (c, x) at ahead;
        positive = positive;
        unfilled = q;
      })

  create_order-Drafted :
      (d : Draft) (symbol : Name) (close weight : Decimal) (move : Option (Side × ℕ)) {r : Draft}
      → Drafted intent day next_session s d
      → create_order digest kernel intent day next_session d symbol close weight move ≡ ok r
      → Drafted intent day next_session s r
  unfolding create_order
  create_order-Drafted d symbol close weight none {r} k h = rw (← ok-injective h) k
  create_order-Drafted d symbol close weight (some (side, q)) {r} k h = elim (Bool-cases (q == 0)) [
    | inl nothing ↦ rw (← ok-injective (rw nothing at h)) k
    | inr some_shares ↦
        let (o, c, h1) = >>=-eq-ok (check_order _) _ (rw some_shares at h) in
        let (_, _, done) = >>=-eq-ok (order_event day _ o _) _ h1 in
        let mine : OrderFor intent day next_session o = order_for _ o refl refl refl refl refl c in
        rw (← ok-injective done) (record {
          books = k.books;
          orders =
              All-append (OrderFor intent day next_session) d.orders (o ∷ []) k.orders (mine, tt);
        })
  ]

  draft_priced-Drafted :
      (total_equity : ℤ) (weights : Dict Decimal) (d : Draft) (symbol : Name)
      (instrument : Option Instrument) (bar : Option DailyBar) {r : Draft}
      → Drafted intent day next_session s d
      → draft_priced digest kernel intent day next_session total_equity weights d symbol instrument
          bar
        ≡ ok r
      → Drafted intent day next_session s r
  draft_priced-Drafted total_equity weights d symbol none bar k h = skip_symbol-Drafted d symbol k h
  draft_priced-Drafted total_equity weights d symbol (some i) none k h =
      skip_symbol-Drafted d symbol k h
  draft_priced-Drafted total_equity weights d symbol (some i) (some bar) {r} k h =
      go (usable_close (some bar)) h
    where
      go :
          (close : Option Decimal)
          → (elim close as (λ _. Result Draft) [
            | none ↦ skip_symbol digest kernel intent day d symbol
            | some c ↦
                (target_quantity total_equity (weight_of weights symbol) c bar >>= λ target.
                declare target (quantity d.state symbol) bar >>= λ move.
                create_order digest kernel intent day next_session d symbol c
                  (weight_of weights symbol)
                  move)
          ])
            ≡ ok r
          → Drafted intent day next_session s r
      go none e = skip_symbol-Drafted d symbol k e
      go (some c) e =
          let (target, _, e1) = >>=-eq-ok (target_quantity total_equity _ c bar) _ e in
          let (move, _, e2) = >>=-eq-ok (declare target (quantity d.state symbol) bar) _ e1 in
          create_order-Drafted d symbol c (weight_of weights symbol) move k e2

  draft_orders-Drafted :
      (market : MarketSession) (total_equity : ℤ) (weights : Dict Decimal) (d : Draft)
      (symbols : List Name) {r : Draft}
      → market.session_date ≡ day
      → Drafted intent day next_session s d
      → draft_orders digest kernel intent market next_session total_equity weights d symbols ≡ ok r
      → Drafted intent day next_session s r
  unfolding draft_orders
  draft_orders-Drafted market total_equity weights d [] same k h = rw (← ok-injective h) k
  draft_orders-Drafted market total_equity weights d (symbol ∷ symbols) same k h =
      let (next, first, rest) =
        >>=-eq-ok
          (draft_priced digest kernel intent market.session_date next_session total_equity weights d
            symbol (get kernel.instruments symbol) (get market.bars symbol))
          _ h in
      draft_orders-Drafted market total_equity weights next symbols same
        (draft_priced-Drafted total_equity weights d symbol (get kernel.instruments symbol)
          (get market.bars symbol) k (rw same at first))
        rest

-- The result of an accepted intent with a next session: its orders wait for that session.
pub record Scheduled (kernel : TradingKernel) (intent : PortfolioIntent) (day next_session : Day)
    (s : PortfolioState) (r : IntentResult) : Type 0 where
  pub accepted : r.assessment.accepted ≡ true
  pub session : is_session kernel.sessions next_session ≡ true
  pub ahead : day < next_session
  pub orders : All (OrderFor intent day next_session) r.orders
  pub pending : r.state.pending_orders ≡ sort order_before (s.pending_orders ++ r.orders)
  pub initial_cash : r.state.initial_cash ≡ s.initial_cash
  pub cash : r.state.cash ≡ s.cash
  pub lots : r.state.lots ≡ s.lots
  pub entitlements : r.state.entitlements ≡ s.entitlements
  pub realized_pnl : r.state.realized_pnl ≡ s.realized_pnl
  pub fees_paid : r.state.fees_paid ≡ s.fees_paid
  pub dividend_income : r.state.dividend_income ≡ s.dividend_income

-- Either the intent is refused, or there is no next session, and the portfolio stays as it is,
-- without orders; or it is scheduled.
abbrev pub Submitted :
    TradingKernel → PortfolioIntent → Day → Option Day → PortfolioState → IntentResult → Type 0
Submitted kernel intent day next s r =
    ((r.state ≡ s) × (r.orders ≡ []) × ((r.assessment.accepted ≡ false) ⊎ (next ≡ none)))
    ⊎ ((d : Day) × (next ≡ some d) × Scheduled kernel intent day d s r)

later_session : (a b : Day) (c : Bool) → (leb b a || not c) ≡ false → (a < b) × (c ≡ true)
later_session a b c h = ground arith

checked_pending :
    (s : PortfolioState) (orders : List Order) {c : PortfolioState}
    → check_state (record s { pending_orders = orders }) ≡ ok c
    → (reasons : _) × (c ≡ record s { pending_orders = orders; incomplete_reasons = reasons })
unfolding check_state
checked_pending s orders {c} h =
    let (_, done) = raise_if-eq-ok _ _ _ h in
    (sorted_set reason_before s.incomplete_reasons, sym (ok-injective done))

module _ (digest : DigestBody → ℕ) (kernel : TradingKernel) (intent : PortfolioIntent)
    (s : PortfolioState) (market : MarketSession) where
  schedule_orders-Scheduled :
      (assessment : RiskAssessment) (events : List LedgerEvent) (next_session : Day)
      {r : IntentResult}
      → assessment.accepted ≡ true
      → schedule_orders digest kernel intent s market assessment events next_session ≡ ok r
      → Scheduled kernel intent market.session_date next_session s r
  unfolding schedule_orders
  schedule_orders-Scheduled assessment events next_session {r} yes_ h =
      let (guard, h1) =
        raise_if-eq-ok
          (leb next_session market.session_date || not (is_session kernel.sessions next_session)) _
          _ h in
      let (total_equity, _, h2) = >>=-eq-ok (equity s market.bars) _ h1 in
      let start : Draft = record { state = s; orders = []; events = events } in
      let (draft, drafted, h3) =
        >>=-eq-ok
          (draft_orders digest kernel intent market next_session total_equity
            assessment.approved_weights start (traded_symbols assessment.approved_weights s))
          _ h2 in
      let (current, checked, done) = >>=-eq-ok (check_state _) _ h3 in
      let (reasons, same) = checked_pending draft.state _ checked in
      let (ahead, session) =
        later_session market.session_date next_session (is_session kernel.sessions next_session)
          guard in
      let (books, orders) = finish draft total_equity drafted in
      rw (← ok-injective done, same)
        (record {
          accepted = yes_;
          session = session;
          ahead = ahead;
          orders = orders;
          pending = ap (λ ps. sort order_before (ps ++ draft.orders)) books.pending_orders;
          initial_cash = books.initial_cash;
          cash = books.cash;
          lots = books.lots;
          entitlements = books.entitlements;
          realized_pnl = books.realized_pnl;
          fees_paid = books.fees_paid;
          dividend_income = books.dividend_income;
        })
    where
      finish :
          (draft : Draft) (total_equity : ℤ)
          → draft_orders digest kernel intent market next_session total_equity
              assessment.approved_weights
              (record { state = s; orders = []; events = events })
              (traded_symbols assessment.approved_weights s)
            ≡ ok draft
          → SameBooks s draft.state
            × All (OrderFor intent market.session_date next_session) draft.orders
      finish draft total_equity drafted =
          let d =
            draft_orders-Drafted digest kernel intent market.session_date next_session s market
              total_equity assessment.approved_weights _
              (traded_symbols assessment.approved_weights s) refl
              (record { books = same_books s; orders = tt }) drafted in
          (d.books, d.orders)

  unscheduled-Submitted :
      (assessment : RiskAssessment) (events : List LedgerEvent) (next : Option Day)
      {r : IntentResult}
      → (assessment.accepted ≡ false) ⊎ (next ≡ none)
      → unscheduled digest kernel intent s market.session_date assessment events next ≡ ok r
      → Submitted kernel intent market.session_date next s r
  unscheduled-Submitted assessment events none why h =
      let (_, _, done) = >>=-eq-ok (intent_event market.session_date _ intent _) _ h in
      rw (← ok-injective done) (inl (refl, refl, why))
  unscheduled-Submitted assessment events (some d) why h =
      rw (← ok-injective h) (inl (refl, refl, why))

  schedule_by-Submitted :
      (assessment : RiskAssessment) (events : List LedgerEvent) (accepted : Bool)
      (next : Option Day) {r : IntentResult}
      → assessment.accepted ≡ accepted
      → schedule_by digest kernel intent s market assessment events accepted next ≡ ok r
      → Submitted kernel intent market.session_date next s r
  schedule_by-Submitted assessment events true (some d) e h =
      inr (d, refl, schedule_orders-Scheduled assessment events d e h)
  schedule_by-Submitted assessment events true none e h =
      unscheduled-Submitted assessment events none (inr refl) h
  schedule_by-Submitted assessment events false next e h =
      unscheduled-Submitted assessment events next (inl e) h

  -- An intent that is submitted without an error is of the session's own day. If it is refused or
  -- has no next session, the portfolio does not change and no order is made. If not, every order is
  -- of the intent, created that day for the next session and expiring then, of a positive quantity
  -- with nothing filled, and joins the pending orders; cash, lots, entitlements and totals stay.
  pub submit_intent-Submitted :
      (next : Option Day) {r : IntentResult}
      → submit_intent digest kernel intent s market next ≡ ok r
      → (intent.decision_date ≡ market.session_date)
        × Submitted kernel intent market.session_date next s r
  unfolding submit_intent
  submit_intent-Submitted next h =
      let (guard, h1) = raise_if-eq-ok (not (intent.decision_date == market.session_date)) _ _ h in
      let (received, _, h2) = >>=-eq-ok (intent_event market.session_date _ intent _) _ h1 in
      let (assessed, _, h3) = >>=-eq-ok (intent_event market.session_date _ intent _) _ h2 in
      (
        same_day guard,
        schedule_by-Submitted (assess_intent intent kernel.instruments kernel.risk_policy)
            (received ∷ assessed ∷ []) _ next refl h3,
      )
    where
      same_day :
          not (intent.decision_date == market.session_date) ≡ false
          → intent.decision_date ≡ market.session_date
      same_day e = ground arith
