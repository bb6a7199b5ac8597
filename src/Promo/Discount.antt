-- ===== src/Promo/Discount.antt =====
-- The discount of src/promo/promo.service.ts stays between zero, the cap and the order's total.
use drovery_backend.Base.{ℕ, ◌+◌, ◌*◌, ◌≤◌, ◌≡◌, refl, none, some, arith, ◌⊎◌, inl, inr}
use drovery_backend.Base.Int.{ℤ, pos, negsuc}
use drovery_backend.Store.{PromoCode, DiscountType, percent, fixed}
use drovery_backend.Promo.Defs.{compute_discount}

-- The discount and the charge add up to the order's total, so neither passes it.
pub discount_splits_total :
    (code : PromoCode) (total : ℕ)
    → let d = compute_discount code total in d.discount_amount + d.final_total ≡ total
unfolding compute_discount
discount_splits_total code total = ground arith

-- A cap of zero or more bounds the discount.
pub discount-le-cap :
    (code : PromoCode) (total cap : ℕ)
    → code.max_discount ≡ some (pos cap)
    → (compute_discount code total).discount_amount ≤ cap
unfolding compute_discount
discount-le-cap code total cap h = ground arith

-- A negative discount value takes nothing off.
pub discount_negative :
    (code : PromoCode) (total v : ℕ)
    → code.discount_value ≡ negsuc v
    → (compute_discount code total).discount_amount ≡ 0
unfolding compute_discount
discount_negative code total v h = ground arith

-- Without a cap, a fixed value of at least the total makes the order free.
pub discount_saturates :
    (code : PromoCode) (total v : ℕ)
    → code.discount_value ≡ pos v
    → code.max_discount ≡ none
    → code.discount_type ≡ fixed
    → total ≤ v
    → (compute_discount code total).final_total ≡ 0
unfolding compute_discount
discount_saturates code total v h n t le = ground arith

scaled_mono : (a b v : ℕ) → a ≤ b → a * v ≤ b * v
scaled_mono a b v h = grind arith

percent_mono :
    (code : PromoCode) (a b v : ℕ)
    → code.discount_type ≡ percent
    → code.discount_value ≡ pos v
    → a ≤ b
    → (compute_discount code a).discount_amount ≤ (compute_discount code b).discount_amount
unfolding compute_discount
percent_mono code a b v t e le = ground (arith, scaled_mono a b v le)

fixed_mono :
    (code : PromoCode) (a b : ℕ)
    → code.discount_type ≡ fixed
    → a ≤ b
    → (compute_discount code a).discount_amount ≤ (compute_discount code b).discount_amount
unfolding compute_discount
fixed_mono code a b t le = ground arith

DiscountType-cases : (t : DiscountType) → (t ≡ percent) ⊎ (t ≡ fixed)
DiscountType-cases percent = inl refl
DiscountType-cases fixed = inr refl

ℤ-cases : (v : ℤ) → ((n : ℕ) × (v ≡ pos n)) ⊎ ((n : ℕ) × (v ≡ negsuc n))
ℤ-cases (pos n) = inl (n, refl)
ℤ-cases (negsuc n) = inr (n, refl)

-- A larger order never gets a smaller discount from the same code.
pub discount_mono :
    (code : PromoCode) (a b : ℕ)
    → a ≤ b
    → (compute_discount code a).discount_amount ≤ (compute_discount code b).discount_amount
discount_mono code a b le = elim (DiscountType-cases code.discount_type) [
  | inr t ↦ fixed_mono code a b t le
  | inl t ↦ elim (ℤ-cases code.discount_value) [
    | inl (v, e) ↦ percent_mono code a b v t e le
    | inr (v, e) ↦ omega (arith, discount_negative code a v e)
  ]
]
