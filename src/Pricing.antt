-- ===== src/Pricing.antt =====
-- src/pricing/pricing.service.ts and src/common/package-limits.ts: the price of a delivery in
-- cents, from a weight in grams and a distance in metres, and the weight caps. `Math.round` to the
-- cent is written out.
pub mod Bounds
use drovery_backend.Base.{
  ℕ, ◌+◌, ◌*◌, ◌/◌, Bool, true, false, Option, none, some, List, sum_by, ltb,
}
use drovery_backend.Store.{Action, ⊤, throw_if, weight_exceeds_cap}

-- A size that is not in the tables has no cap and no fee.
pub data PackageSize : Type 0 where
  small medium large xl unknown_size : PackageSize

pub data PackageType : Type 0 where
  fragile electronics food healthcare unknown_type : PackageType

abbrev pub max_weight : PackageSize → Option ℕ
max_weight small = some 500
max_weight medium = some 1500
max_weight large = some 3000
max_weight xl = some 5000
max_weight unknown_size = none

abbrev pub exceeds_cap : PackageSize → ℕ → Bool
exceeds_cap size weight = elim (max_weight size) [ none ↦ false | some cap ↦ ltb cap weight ]

unfoldable pub assert_weight_within_cap : PackageSize → ℕ → Action ⊤
assert_weight_within_cap size weight = throw_if (exceeds_cap size weight) weight_exceeds_cap

abbrev pub base_fee : ℕ
base_fee = 200

abbrev pub size_fee : PackageSize → ℕ
size_fee small = 300
size_fee medium = 600
size_fee large = 1000
size_fee xl = 1600
size_fee unknown_size = 0

abbrev pub type_surcharge : PackageType → ℕ
type_surcharge fragile = 200
type_surcharge electronics = 200
type_surcharge food = 100
type_surcharge healthcare = 100
type_surcharge unknown_type = 0

-- $3 a kilogram.
abbrev pub weight_fee : ℕ → ℕ
weight_fee grams = (grams * 3 + 5) / 10

-- $1.5 a kilometre.
abbrev pub distance_fee : ℕ → ℕ
distance_fee metres = (metres * 15 + 50) / 100

pub record PriceEstimate : Type 0 where
  pub base : ℕ
  pub size : ℕ
  pub weight : ℕ
  pub type_fee : ℕ
  pub distance : ℕ
  pub total : ℕ

unfoldable pub estimate_total : PackageSize → ℕ → List PackageType → ℕ → ℕ
estimate_total size weight types distance =
    base_fee
    + size_fee size
    + weight_fee weight
    + sum_by type_surcharge types
    + distance_fee distance

-- The estimate of a package that is within its cap.
unfoldable pub estimate : PackageSize → ℕ → List PackageType → ℕ → PriceEstimate
unfolding estimate_total
estimate size weight types distance = record {
  base = base_fee;
  size = size_fee size;
  weight = weight_fee weight;
  type_fee = sum_by type_surcharge types;
  distance = distance_fee distance;
  total = estimate_total size weight types distance;
}
