-- ===== src/Kernel/Valid/Actions.antt =====
-- Corporate actions keep a portfolio valid.
use mini_qmt.Common.{
  ℕ, suc, ◌≡◌, inl, inr, Bool, true, false, not, Option, none, some, List, [], ◌∷◌, ◌==◌, ok,
  Result, or_raise, type_error, >>=-eq-ok, ok-injective, Bool-cases, All, All-append, All-keep_if,
  sum_by, length, keep_if,
}
use mini_qmt.Common.Int.{ℤ, pos, pos_part}
use mini_qmt.Common.Sorting.{sort}
use mini_qmt.Decimal
use mini_qmt.Decimal.{Decimal}
use mini_qmt.Market.{
  Name, Day, CorporateAction, CorporateActionType, cash_dividend, stock_dividend, split,
  rights_issue,
}
use mini_qmt.Trading.Fees.{money}
use mini_qmt.Trading.State.{
  PortfolioState, check_state, quantity, PositionLot, check_lot, Entitlement, check_entitlement,
  LedgerEvent, is_of, ReasonKind,
}
use mini_qmt.Kernel.Setup.{action_event}
use mini_qmt.Kernel.Orders.Booking.Lots.{IsLot}
use mini_qmt.Kernel.Actions.{ex_effect, ex_action, unentitled}
use mini_qmt.Kernel.Actions.Common.{Outcome, entitlement_of, mark}
use mini_qmt.Kernel.Actions.Split.{
  Share, replace_lots, split_lots, split_position, split_entitled, split_by_multiplier, split_by,
  apply_split, lots_of, lot_quantity, mark_split_fraction, is_same_session, is_positive, distribute,
  floor_shares, lot_before,
}
use mini_qmt.Kernel.Actions.Split.Costs.{valid_lot, replace_lots-Replaced}
use mini_qmt.Kernel.Actions.Allocation.{
  keep_cost, divide_cost, adjust_lots, allocate_cost, allocate_unadjusted, allocate_by,
  allocate_share_action_cost, natural,
}
use mini_qmt.Kernel.Valid.{IsPortfolio, check_state-IsPortfolio, mark_incomplete-IsPortfolio}

-- An operation on portfolios keeps them valid.
abbrev pub Keeps : PortfolioState → Result Outcome → Type 0
Keeps s m = (r : Outcome) → IsPortfolio s → m ≡ ok r → IsPortfolio r.0

pub mark-Keeps :
    (s : PortfolioState) (day : Day) (kind : ReasonKind) (a : CorporateAction)
    → Keeps s (mark s day kind a)
mark-Keeps s day kind a r v h = mark_incomplete-IsPortfolio s r.0 day _ a.action_id v h

pub unchanged-Keeps : (s : PortfolioState) (events : List LedgerEvent) → Keeps s (ok (s, events))
unchanged-Keeps s events r v h = rw (← ok-injective h) v

pub unentitled-Keeps :
    (day : Day) (s : PortfolioState) (a : CorporateAction) → Keeps s (unentitled day s a)
unentitled-Keeps day s a r v h = elim (Bool-cases (quantity s a.instrument_id == 0)) [
  | inl nothing ↦ unchanged-Keeps s [] r v (rw nothing at h)
  | inr shares ↦ mark-Keeps s day _ a r v (rw shares at h)
]

-- The lots of a position that is split, and those of others.
replacements-valid :
    (total_cost : ℤ) (target : ℕ) (shares : List Share) {lots : List PositionLot}
    → replace_lots total_cost target (pos 0) shares ≡ ok lots
    → All IsLot lots
unfolding replace_lots
replacements-valid total_cost target [] {lots} h = rw (← ok-injective h) tt
replacements-valid total_cost target (s ∷ shares) h =
    (replace_lots-Replaced total_cost target (pos 0) s shares h).valid

split_lots-valid :
    (multiplier : Decimal) (target : ℕ) (lots : List PositionLot) {r : List PositionLot × ℤ}
    → split_lots multiplier target lots ≡ ok r
    → All IsLot r.0
unfolding split_lots
split_lots-valid multiplier target lots {r} h =
    let (total_cost, _, h1) = >>=-eq-ok (money _) _ h in
    let shares =
      keep_if is_positive (distribute target (floor_shares multiplier 0 (sort lot_before lots))) in
    let (after, replaced, done) = >>=-eq-ok (replace_lots total_cost target (pos 0) shares) _ h1 in
    let same : (after, total_cost) ≡ r = ok-injective done in
    rw (← same) (replacements-valid total_cost target shares replaced)

mark_split_fraction-Keeps :
    (exact : Bool) (s : PortfolioState) (a : CorporateAction) (day : Day)
    → Keeps s (mark_split_fraction exact s a day)
mark_split_fraction-Keeps true s a day r v h = unchanged-Keeps s [] r v h
mark_split_fraction-Keeps false s a day r v h = mark-Keeps s day _ a r v h

split_position-Keeps :
    (s : PortfolioState) (a : CorporateAction) (day : Day) (e : Option Entitlement) (m : Decimal)
    → Keeps s (split_position s a day e m)
unfolding split_position
split_position-Keeps s a day e m r v h =
    let lots = lots_of a.instrument_id s in
    let exact = Decimal.mul (Decimal.of_ℕ (sum_by lot_quantity lots)) m in
    let target = pos_part (Decimal.floor exact) in
    let whole = Decimal.eq exact (Decimal.of_ℕ target) in
    let ((replacements, total_cost), splitted, h1) = >>=-eq-ok (split_lots m target lots) _ h in
    let (current, checked, h2) = >>=-eq-ok (check_state _) _ h1 in
    let (event, _, h3) = >>=-eq-ok (action_event day _ a _) _ h2 in
    let ((final, later), marked, done) = >>=-eq-ok (mark_split_fraction whole current a day) _ h3 in
    let same : (final, event ∷ later) ≡ r = ok-injective done in
    let valid =
      All-append IsLot (keep_if (λ l. not (is_of a.instrument_id l)) s.lots) replacements
        (All-keep_if IsLot (λ l. not (is_of a.instrument_id l)) s.lots v.lots)
        (split_lots-valid m target lots splitted) in
    rw (← same) (
      mark_split_fraction-Keeps whole current a day (final, later)
        (check_state-IsPortfolio _ valid checked) marked)

split_by_multiplier-Keeps :
    (s : PortfolioState) (a : CorporateAction) (day : Day) (e : Option Entitlement)
    (multiplier : Option Decimal)
    → Keeps s (split_by_multiplier s a day e multiplier)
unfolding split_by_multiplier
split_by_multiplier-Keeps s a day e none r v h = mark-Keeps s day _ a r v h
split_by_multiplier-Keeps s a day e (some m) r v h =
    elim (Bool-cases (Decimal.le m (Decimal.of_ℕ 0))) [
      | inl bad ↦ mark-Keeps s day _ a r v (rw bad at h)
      | inr good ↦
          elim (Bool-cases
            (not (sum_by lot_quantity (lots_of a.instrument_id s) == split_entitled s a e))) [
              | inl differs ↦ mark-Keeps s day _ a r v (rw (good, differs) at h)
              | inr same ↦ split_position-Keeps s a day e m r v (rw (good, same) at h)
            ]
    ]

split_by-Keeps :
    (s : PortfolioState) (a : CorporateAction) (day : Day) (e : Option Entitlement)
    → Keeps s (split_by s a day e)
split_by-Keeps s a day (some e) r v h = split_by_multiplier-Keeps s a day (some e) _ r v h
split_by-Keeps s a day none r v h = elim (Bool-cases (quantity s a.instrument_id == 0)) [
  | inl nothing ↦ unchanged-Keeps s [] r v (rw nothing at h)
  | inr shares ↦ elim (Bool-cases (not (is_same_session a))) [
    | inl another ↦ mark-Keeps s day _ a r v (rw (shares, another) at h)
    | inr same ↦ split_by_multiplier-Keeps s a day none _ r v (rw (shares, same) at h)
  ]
]

pub apply_split-Keeps :
    (s : PortfolioState) (a : CorporateAction) (day : Day) → Keeps s (apply_split s a day)
unfolding apply_split
apply_split-Keeps s a day r v h =
    split_by-Keeps s a day (entitlement_of a.action_id s.entitlements) r v h

-- The loop over the lots of a share distribution keeps them valid.
adjust_lots-valid :
    (id : Name) (total_cost old_cost : ℤ) (count seen : ℕ) (assigned : ℤ) (lots : List PositionLot)
    {after : List PositionLot}
    → All IsLot lots
    → adjust_lots id total_cost old_cost count seen assigned lots ≡ ok after
    → All IsLot after
unfolding adjust_lots
adjust_lots-valid id total_cost old_cost count seen assigned [] v h = rw (← ok-injective h) tt
adjust_lots-valid id total_cost old_cost count seen assigned (lot ∷ lots) v h =
    elim (Bool-cases (is_of id lot)) [
      | inl ours ↦
          let (step, _, h1) =
            >>=-eq-ok (keep_cost total_cost old_cost (suc seen == count) assigned lot) _
              (rw (ours, adjust_lots) at h) in
          let (adjusted, c, h2) = >>=-eq-ok (check_lot _) _ h1 in
          let (rest, r, done) =
            >>=-eq-ok (adjust_lots id total_cost old_cost count (suc seen) step.1 lots) _ h2 in
          rw (← ok-injective done) (
            valid_lot _ c,
            adjust_lots-valid id total_cost old_cost count (suc seen) step.1 lots v.1 r,
          )
      | inr other ↦
          let (rest, r, done) =
            >>=-eq-ok (adjust_lots id total_cost old_cost count seen assigned lots) _
              (rw (other, adjust_lots) at h) in
          rw (← ok-injective done)
            (v.0, adjust_lots-valid id total_cost old_cost count seen assigned lots v.1 r)
    ]

allocate_cost-Keeps :
    (s : PortfolioState) (a : CorporateAction) (day : Day) (e : Entitlement)
    → Keeps s (allocate_cost s a day e)
unfolding allocate_cost
allocate_cost-Keeps s a day e r v h =
    let lots = lots_of a.instrument_id s in
    let (ratio, _, h1) = >>=-eq-ok (or_raise a.share_ratio type_error) _ h in
    let new_quantity = Decimal.floor (Decimal.mul (Decimal.of_ℕ e.quantity) ratio) in
    let (total_cost, _, h2) = >>=-eq-ok (money _) _ h1 in
    let ((old_cost, new_cost), _, h3) =
      >>=-eq-ok (divide_cost total_cost (sum_by lot_quantity lots) new_quantity) _ h2 in
    let (adjusted, looped, h4) =
      >>=-eq-ok (adjust_lots a.instrument_id total_cost old_cost (length lots) 0 (pos 0) s.lots) _
        h3 in
    let (_, _, h5) = >>=-eq-ok (natural new_quantity) _ h4 in
    let (_, _, h6) = >>=-eq-ok (check_entitlement _) _ h5 in
    let (current, checked, h7) = >>=-eq-ok (check_state _) _ h6 in
    let (_, _, done) = >>=-eq-ok (action_event day _ a _) _ h7 in
    let valid =
      adjust_lots-valid a.instrument_id total_cost old_cost (length lots) 0 (pos 0) s.lots v.lots
        looped in
    rw (← ok-injective done) (check_state-IsPortfolio _ valid checked)

allocate_unadjusted-Keeps :
    (on : Option Day) (s : PortfolioState) (a : CorporateAction) (day : Day) (e : Entitlement)
    → Keeps s (allocate_unadjusted on s a day e)
allocate_unadjusted-Keeps (some d) s a day e r v h = unchanged-Keeps s [] r v h
allocate_unadjusted-Keeps none s a day e r v h =
    elim (Bool-cases (sum_by lot_quantity (lots_of a.instrument_id s) == e.quantity)) [
      | inl same ↦ allocate_cost-Keeps s a day e r v (rw same at h)
      | inr differs ↦ mark-Keeps s day _ a r v (rw differs at h)
    ]

allocate_by-Keeps :
    (e : Option Entitlement) (s : PortfolioState) (a : CorporateAction) (day : Day)
    → Keeps s (allocate_by e s a day)
allocate_by-Keeps none s a day r v h = unentitled-Keeps day s a r v h
allocate_by-Keeps (some e) s a day r v h = allocate_unadjusted-Keeps e.adjusted_on s a day e r v h

ex_effect-Keeps :
    (s : PortfolioState) (a : CorporateAction) (day : Day) → Keeps s (ex_effect s a day)
unfolding allocate_share_action_cost
ex_effect-Keeps s a day r v h = go a.action_type h
  where
    go :
        (type : CorporateActionType)
        → (elim type as (λ _. Result Outcome) [
          | stock_dividend ↦ allocate_share_action_cost s a day
          | split ↦ apply_split s a day
          | _ ↦ ok (s, [])
        ])
          ≡ ok r
        → IsPortfolio r.0
    go cash_dividend e = unchanged-Keeps s [] r v e
    go stock_dividend e =
        allocate_by-Keeps (entitlement_of a.action_id s.entitlements) s a day r v e
    go split e = apply_split-Keeps s a day r v e
    go rights_issue e = unchanged-Keeps s [] r v e

pub ex_action-Keeps :
    (day : Day) (s : PortfolioState) (a : CorporateAction) → Keeps s (ex_action day s a)
unfolding ex_action
ex_action-Keeps day s a r v h =
    let (seen, _, h1) = >>=-eq-ok (action_event day _ a _) _ h in
    let (after, effect, done) = >>=-eq-ok (ex_effect s a day) _ h1 in
    rw (← ok-injective done) (ex_effect-Keeps s a day after v effect)
