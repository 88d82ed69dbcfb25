-- ===== src/Kernel/Session/Partition.antt =====
-- The loop of `process_session` over the pending orders.
use mini_qmt.Common.{
  suc, ◌≡◌, refl, inl, inr, Bool, true, false, not, ◌&&◌, List, [], ◌∷◌, ok, >>=-eq-ok,
  ok-injective, Bool-cases, if◌then◌else◌, keep_if, length, ap,
}
use mini_qmt.Market.{Day}
use mini_qmt.Trading.State.{Order, LedgerEvent}
use mini_qmt.Kernel.Setup.{order_event}
use mini_qmt.Kernel.Session.{sort_orders, Sorted, keep_order, is_expired, is_due}

-- The orders that stay pending.
abbrev pub stays : Day → Order → Bool
stays day o = not (is_expired day o) && not (is_due day o)

-- The orders that are executed.
abbrev pub executes : Day → Order → Bool
executes day o = not (is_expired day o) && is_due day o

pub record Partitioned (day : Day) (orders : List Order) (r : Sorted) : Type 0 where
  pub retained : r.retained ≡ keep_if (stays day) orders
  pub due : r.due ≡ keep_if (executes day) orders
  pub events : length r.events ≡ length (keep_if (is_expired day) orders)

module _ (day : Day) (o : Order) (orders : List Order) (rest : Sorted)
    (p : Partitioned day orders rest) where
  expired_step :
      (event : LedgerEvent)
      → is_expired day o ≡ true
      → Partitioned day (o ∷ orders) (record rest { events = event ∷ rest.events })
  expired_step event e = record {
    retained = rw e p.retained;
    due = rw e p.due;
    events = rw e (ap (λ n. suc n) p.events);
  }

  kept_step : is_expired day o ≡ false → Partitioned day (o ∷ orders) (keep_order day o rest)
  kept_step e = go (is_due day o) refl
    where
      go :
          (b : Bool)
          → is_due day o ≡ b
          → Partitioned day (o ∷ orders) (
              if b
              then record rest { due = o ∷ rest.due }
              else record rest { retained = o ∷ rest.retained })
      go true d = record {
        retained = rw (e, d) p.retained;
        due = rw (e, d) (ap (λ os. o ∷ os) p.due);
        events = rw e p.events;
      }
      go false d = record {
        retained = rw (e, d) (ap (λ os. o ∷ os) p.retained);
        due = rw (e, d) p.due;
        events = rw e p.events;
      }

-- The loop sorts the pending orders in three: an order past its expiry is dropped with one event,
-- of the others those dated to the session are due, and the rest stay pending, all in their order.
pub sort_orders-Partitioned :
    (day : Day) (orders : List Order) {r : Sorted}
    → sort_orders day orders ≡ ok r
    → Partitioned day orders r
unfolding sort_orders
sort_orders-Partitioned day [] {r} h =
    rw (← ok-injective h) (record { retained = refl; due = refl; events = refl })
sort_orders-Partitioned day (o ∷ orders) {r} h = elim (Bool-cases (is_expired day o)) [
  | inl late ↦
      let (event, _, h') = >>=-eq-ok (order_event day _ o _) _ (rw late at h) in
      let (rest, looped, done) = >>=-eq-ok (sort_orders day orders) _ h' in
      rw (← ok-injective done)
        (expired_step day o orders rest (sort_orders-Partitioned day orders looped) event late)
  | inr alive ↦
      let (rest, looped, done) = >>=-eq-ok (sort_orders day orders) _ (rw alive at h) in
      rw (← ok-injective done)
        (kept_step day o orders rest (sort_orders-Partitioned day orders looped) alive)
]
