-- ===== src/Common/Dict.antt =====
-- A Python mapping from identifiers, in insertion order.
use mini_qmt.Common.Tests.{◌==◌, if◌then◌else◌}
use Prim.Native.Nat.{ℕ}
use mathlib.Core.Path.{◌≡◌, refl}
use mathlib.Core.List.{List, [], ◌∷◌}
use mathlib.Core.Option.{Option, none, some}
use native.Mathlib.Omega.{arith}

abbrev pub Dict {ℓ} : Type ℓ → Type ℓ
Dict V = List (ℕ × V)

module _ {ℓ} {V : Type ℓ} where
  -- `mapping.get(key)`
  unfoldable pub get : Dict V → ℕ → Option V
  get [] key = none
  get ((k, v) ∷ rest) key = if k == key then some v else get rest key

  -- `mapping[key] = value`
  unfoldable pub put : Dict V → ℕ → V → Dict V
  put [] key value = (key, value) ∷ []
  put ((k, v) ∷ rest) key value =
      if k == key then (k, value) ∷ rest else (k, v) ∷ put rest key value

  pub get-put :
      (d : Dict V) (key other : ℕ) (value : V)
      → get (put d key value) other ≡ (if key == other then some value else get d other)
  unfolding get put
  get-put [] key other value = refl
  get-put ((k, v) ∷ rest) key other value = ground (arith, get-put rest key other value)
