-- ===== src/Kernel/Setup/Marking.antt =====
-- Marking a state incomplete.
use mini_qmt.Common.{
  ℕ, ◌≡◌, arith, true, false, ◌||◌, ◌&&◌, List, [], ◌∷◌, ◌++◌, any, ◌==◌, ltb, ok,
}
use mini_qmt.Common.Sorting.{insert_new, sorted_set}
use mini_qmt.Market.{Name, Day}
use mini_qmt.Trading.State.{
  PortfolioState, Reason, kind_rank, same_reason, reason_before, LedgerEvent,
}
use mini_qmt.Kernel.Setup.{mark_incomplete, is_marked}

order_cases :
    (a b s t : ℕ)
    → (ltb a b || a == b && ltb s t) ≡ false
    → (ltb b a || b == a && ltb t s) ≡ false
    → (a == b && s == t) ≡ true
order_cases a b s t h k = ground arith

same_reason_self : (r : Reason) → same_reason r r ≡ true
unfolding same_reason
same_reason_self r = itself (kind_rank r.kind) r.subject
  where
    itself : (a s : ℕ) → (a == a && s == s) ≡ true
    itself a s = ground arith

-- Two reasons of which neither stands before the other are the same.
same_of_not_before :
    (r x : Reason) → reason_before r x ≡ false → reason_before x r ≡ false → same_reason r x ≡ true
unfolding same_reason reason_before
same_of_not_before r x = order_cases (kind_rank r.kind) (kind_rank x.kind) r.subject x.subject

same_trans :
    (r x y : Reason) → same_reason r x ≡ true → same_reason x y ≡ true → same_reason r y ≡ true
unfolding same_reason
same_trans r x y =
    chain (kind_rank r.kind) (kind_rank x.kind) (kind_rank y.kind) r.subject x.subject y.subject
  where
    chain :
        (a b c s t u : ℕ)
        → (a == b && s == t) ≡ true
        → (b == c && t == u) ≡ true
        → (a == c && s == u) ≡ true
    chain a b c s t u h k = ground arith

-- A reason that is put into the sorted reasons is among them, and no reason is lost.
insert_new_self :
    (r : Reason) (rs : List Reason) → any (same_reason r) (insert_new reason_before r rs) ≡ true
unfolding insert_new
insert_new_self r [] = rw (same_reason_self r)
insert_new_self r (x ∷ xs) =
    ground (arith, same_reason_self r, same_of_not_before r x, insert_new_self r xs)

insert_new-keeps :
    (r y : Reason) (rs : List Reason)
    → any (same_reason r) rs ≡ true
    → any (same_reason r) (insert_new reason_before y rs) ≡ true
unfolding insert_new
insert_new-keeps r y [] h = ground arith
insert_new-keeps r y (x ∷ xs) h = ground (arith, insert_new-keeps r y xs)

insert_new-same :
    (r x : Reason) (rs : List Reason)
    → same_reason r x ≡ true
    → any (same_reason r) (insert_new reason_before x rs) ≡ true
unfolding insert_new
insert_new-same r x [] h = ground arith
insert_new-same r x (y ∷ ys) h =
    ground (arith, same_of_not_before x y, same_trans r x y, insert_new-same r x ys h)

sorted_set-keeps :
    (r : Reason) (rs : List Reason)
    → any (same_reason r) rs ≡ true
    → any (same_reason r) (sorted_set reason_before rs) ≡ true
unfolding sorted_set
sorted_set-keeps r [] h = h
sorted_set-keeps r (x ∷ xs) h = ground (
  arith,
  insert_new-same r x (sorted_set reason_before xs),
  sorted_set-keeps r xs,
  insert_new-keeps r x (sorted_set reason_before xs),
)

any-append_last : (r : Reason) (rs : List Reason) → any (same_reason r) (rs ++ r ∷ []) ≡ true
any-append_last r [] = rw (same_reason_self r)
any-append_last r (x ∷ xs) = ground (arith, any-append_last r xs)

module _ (s s' : PortfolioState) (day : Day) (reason : Reason) (entity : Name)
    {events : List LedgerEvent} where
  -- After a marking the reason is recorded.
  pub mark_incomplete-marked :
      mark_incomplete s day reason entity ≡ ok (s', events) → is_marked s' reason ≡ true
  unfolding mark_incomplete
  mark_incomplete-marked h = ground (
    arith,
    any-append_last reason s.incomplete_reasons,
    sorted_set-keeps reason (s.incomplete_reasons ++ reason ∷ []),
  )

  -- A marking changes nothing but the reasons, and reports one event, or none if the reason is there already.
  pub mark_incomplete_frame :
      mark_incomplete s day reason entity ≡ ok (s', events)
      → (s'.cash ≡ s.cash)
        × (s'.initial_cash ≡ s.initial_cash)
        × (s'.lots ≡ s.lots)
        × (s'.pending_orders ≡ s.pending_orders)
        × (s'.entitlements ≡ s.entitlements)
        × (s'.last_prices ≡ s.last_prices)
        × (s'.realized_pnl ≡ s.realized_pnl)
        × (s'.fees_paid ≡ s.fees_paid)
        × (s'.dividend_income ≡ s.dividend_income)
  unfolding mark_incomplete
  mark_incomplete_frame h = ground arith

-- Marking twice is marking once: the second call changes nothing and reports nothing.
pub mark_incomplete_twice :
    (s s' : PortfolioState) (day later : Day) (reason : Reason) (entity : Name)
    {events : List LedgerEvent}
    → mark_incomplete s day reason entity ≡ ok (s', events)
    → mark_incomplete s' later reason entity ≡ ok (s', [])
unfolding mark_incomplete
mark_incomplete_twice s s' day later reason entity {events} h =
    rw (mark_incomplete-marked s s' day reason entity h)
