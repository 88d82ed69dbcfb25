-- ===== src/Kernel/Valid.antt =====
-- trading/state.py, trading/kernel.py: the validity of a portfolio, which every operation keeps.
pub mod Actions
pub mod Payments
pub mod Orders
pub mod Sessions
use mini_qmt.Common.{ℕ, ◌≡◌, arith, ok, Result, ◌∙◌, All, List}
use mini_qmt.Common.Int.{ℤ, pos, ◌≤ℤ◌}
use mini_qmt.Market.{Name, Day}
use mini_qmt.Trading.State.{PortfolioState, check_state, Reason, LedgerEvent}
use mini_qmt.Kernel.Setup.{mark_incomplete}
use mini_qmt.Kernel.Close.Worth.{SameBooks, marked_books}
use mini_qmt.Kernel.Orders.Booking.Lots.{IsLot}

-- A portfolio with some initial cash, no debt, and lots that their constructor admits.
pub record IsPortfolio (s : PortfolioState) : Type 0 where
  pub initial : pos 1 ≤ℤ s.initial_cash
  pub solvent : pos 0 ≤ℤ s.cash
  pub lots : All IsLot s.lots

checks :
    (s : PortfolioState) {c : PortfolioState}
    → check_state s ≡ ok c
    → (pos 1 ≤ℤ c.initial_cash) × (pos 0 ≤ℤ c.cash) × (c.lots ≡ s.lots)
unfolding check_state
checks s {c} h = ground arith

-- A state that its constructor admits is valid if its lots are.
pub check_state-IsPortfolio :
    (s : PortfolioState) {c : PortfolioState}
    → All IsLot s.lots
    → check_state s ≡ ok c
    → IsPortfolio c
check_state-IsPortfolio s {c} v h =
    let (initial, solvent, same) = checks s h in
    record { initial = initial; solvent = solvent; lots = rw same v }

-- States with the same books are valid together.
pub SameBooks-IsPortfolio : (s t : PortfolioState) → SameBooks s t → IsPortfolio s → IsPortfolio t
SameBooks-IsPortfolio s t b v = record {
  initial = rw b.initial_cash v.initial;
  solvent = rw b.cash v.solvent;
  lots = rw b.lots v.lots;
}

pub mark_incomplete-IsPortfolio :
    (s s' : PortfolioState) (day : Day) (reason : Reason) (entity : Name)
    {events : List LedgerEvent}
    → IsPortfolio s
    → mark_incomplete s day reason entity ≡ ok (s', events)
    → IsPortfolio s'
mark_incomplete-IsPortfolio s s' day reason entity v h =
    SameBooks-IsPortfolio s s' (marked_books s s' day reason entity h) v
