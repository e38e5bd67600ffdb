-- ===== src/Matching/Equality.antt =====
-- The derived `PartialEq` of the results that a round publishes, and that it decides equality.
use oclob.Base.{
  ◌≡◌, ◌↔◌, refl, Bool, true, false, ◌&&◌, Option, none, some, List, [], ◌∷◌, arith, ◌==◌, bool_eq,
}
use oclob.Order.{side_eq}
use oclob.Matching.{MpcSlotResult, MpcPriceLevel, MpcBatchResult}

abbrev pub slot_eq : MpcSlotResult → MpcSlotResult → Bool
slot_eq a b =
    bool_eq a.matched b.matched
    && (a.trade_price == b.trade_price && a.trade_quantity == b.trade_quantity)

abbrev pub slots_eq : List MpcSlotResult → List MpcSlotResult → Bool
slots_eq [] [] = true
slots_eq [] (b ∷ bs) = false
slots_eq (a ∷ slots) [] = false
slots_eq (a ∷ slots) (b ∷ bs) = slot_eq a b && slots_eq slots bs

abbrev pub price_level_eq : MpcPriceLevel → MpcPriceLevel → Bool
price_level_eq a b = side_eq a.side b.side && (a.price == b.price && a.quantity == b.quantity)

abbrev pub price_levels_eq : List MpcPriceLevel → List MpcPriceLevel → Bool
price_levels_eq [] [] = true
price_levels_eq [] (b ∷ bs) = false
price_levels_eq (a ∷ levels) [] = false
price_levels_eq (a ∷ levels) (b ∷ bs) = price_level_eq a b && price_levels_eq levels bs

abbrev pub depth_eq : Option (List MpcPriceLevel) → Option (List MpcPriceLevel) → Bool
depth_eq none none = true
depth_eq none (some b) = false
depth_eq (some a) none = false
depth_eq (some a) (some b) = price_levels_eq a b

unfoldable pub batch_result_eq : MpcBatchResult → MpcBatchResult → Bool
batch_result_eq a b =
    slots_eq a.slots b.slots
    && (a.arriving_remaining == b.arriving_remaining && depth_eq a.public_levels b.public_levels)

slots_eq_iff : (a b : List MpcSlotResult) → (slots_eq a b ≡ true) ↔ (a ≡ b)
slots_eq_iff [] [] = (λ h. refl, λ h. refl)
slots_eq_iff [] (y ∷ ys) = (λ h. ground arith, λ h. ground arith)
slots_eq_iff (x ∷ xs) [] = (λ h. ground arith, λ h. ground arith)
slots_eq_iff (x ∷ xs) (y ∷ ys) =
    let ih = slots_eq_iff xs ys in (λ h. ground (arith, ih), λ h. ground (arith, ih))

price_levels_eq_iff : (a b : List MpcPriceLevel) → (price_levels_eq a b ≡ true) ↔ (a ≡ b)
price_levels_eq_iff [] [] = (λ h. refl, λ h. refl)
price_levels_eq_iff [] (y ∷ ys) = (λ h. ground arith, λ h. ground arith)
price_levels_eq_iff (x ∷ xs) [] = (λ h. ground arith, λ h. ground arith)
price_levels_eq_iff (x ∷ xs) (y ∷ ys) =
    let ih = price_levels_eq_iff xs ys in (λ h. ground (arith, ih), λ h. ground (arith, ih))

depth_eq_iff : (a b : Option (List MpcPriceLevel)) → (depth_eq a b ≡ true) ↔ (a ≡ b)
depth_eq_iff none none = (λ h. refl, λ h. refl)
depth_eq_iff none (some b) = (λ h. cc, λ h. cc)
depth_eq_iff (some a) none = (λ h. cc, λ h. cc)
depth_eq_iff (some a) (some b) =
    let e = price_levels_eq_iff a b in (λ h. ground (arith, e), λ h. ground (arith, e))

pub batch_result_eq_iff : (a b : MpcBatchResult) → (batch_result_eq a b ≡ true) ↔ (a ≡ b)
unfolding batch_result_eq
batch_result_eq_iff a b =
    let s = slots_eq_iff a.slots b.slots in
    let d = depth_eq_iff a.public_levels b.public_levels in
    (λ h. ground (arith, s, d), λ h. ground (arith, s, d))
