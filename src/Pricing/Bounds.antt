-- ===== src/Pricing/Bounds.antt =====
-- Bounds on the prices of src/pricing/pricing.service.ts.
use drovery_backend.Base.{ℕ, ◌+◌, ◌*◌, ◌≤◌, List, sum_by, arith}
use drovery_backend.Pricing.{
  PackageSize, PackageType, size_fee, type_surcharge, weight_fee, distance_fee,
}

-- The weight fee and the distance fee are their rate times the quantity, rounded to the
-- nearest cent, and a half cent is rounded up.
pub weight_fee-bounds :
    (w m : ℕ)
    → (weight_fee w * 10 ≤ w * 3 + 5)
      × (w * 3 ≤ weight_fee w * 10 + 4)
      × (distance_fee m * 100 ≤ m * 15 + 50)
      × (m * 15 ≤ distance_fee m * 100 + 49)
weight_fee-bounds w m = (omega arith, omega arith, omega arith, omega arith)

-- The price before rounding, in hundredths of a cent: $2, the fees of the size and of the contents,
-- $3 a kilogram and $1.5 a kilometre.
abbrev pub exact_price : PackageSize → List PackageType → ℕ → ℕ → ℕ
exact_price size types w m =
    20000 + size_fee size * 100 + sum_by type_surcharge types * 100 + w * 30 + m * 15
