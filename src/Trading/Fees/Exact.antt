-- ===== src/Trading/Fees/Exact.antt =====
-- Amounts in cents through `money`: what it returns is exact where its argument is in cents.
use mini_qmt.Common.{ok, ◌≡◌}
use mini_qmt.Common.Int.{ℤ, ◌+ℤ◌, ◌-ℤ◌}
use mini_qmt.Decimal
use mini_qmt.Decimal.Exact.{of_cents, quantize-add, quantize-sub}
use mini_qmt.Trading.Fees.{money}

pub money-add :
    (a b : ℤ) {r : ℤ} → money (Decimal.add (of_cents a) (of_cents b)) ≡ ok r → r ≡ a +ℤ b
unfolding money
money-add a b {r} h = (quantize-add a b r h).0

pub money-sub :
    (a b : ℤ) {r : ℤ} → money (Decimal.sub (of_cents a) (of_cents b)) ≡ ok r → r ≡ a -ℤ b
unfolding money
money-sub a b {r} h = (quantize-sub a b r h).0

-- A sum in cents that `money` accepts is an amount in cents.
pub money-add_exact :
    (a b : ℤ) {r : ℤ}
    → money (Decimal.add (of_cents a) (of_cents b)) ≡ ok r
    → Decimal.add (of_cents a) (of_cents b) ≡ of_cents (a +ℤ b)
unfolding money
money-add_exact a b {r} h = (quantize-add a b r h).1
