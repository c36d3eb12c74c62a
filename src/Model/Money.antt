-- ===== src/Model/Money.antt =====
-- src/core/models/money.ts. A price is a decimal, `coefficient / 10 ^ places` in lowest terms as
-- decimal.js keeps it, so that `places` is its `decimalPlaces()`; amounts that pass are hundredths.
use peak_pass.Prelude.{
  ℕ, ◌-◌, ◌*◌, ◌^◌, ◌≤◌, ◌≡◌, ℤ, pos, negsuc, ◌&&◌, Option, none, some, leb, arith, if◌then◌else◌,
}

pub record Decimal : Type 0 where
  pub coefficient : ℤ
  pub places : ℕ

-- MAX_MONEY_AMOUNT, 99999999.99
abbrev pub max_money_amount : ℕ
max_money_amount = 9999999999

-- The hundredths of a decimal with at most two places.
abbrev pub hundredths : ℕ → ℕ → ℕ
hundredths c places = c * 10 ^ (2 - places)

-- `UnitPriceSchema.safeParse`: `none` is `success: false`.
unfoldable pub parse_unit_price : Decimal → Option ℕ
parse_unit_price d = elim d.coefficient [
  | negsuc _ ↦ none
  | pos c ↦
      let cents = hundredths c d.places in
      if leb d.places 2 && leb 1 cents && leb cents max_money_amount then some cents else none
]

-- An accepted price is at least 0.01 and at most 99999999.99.
pub parse_unit_price_bounds :
    (d : Decimal) {cents : ℕ}
    → parse_unit_price d ≡ some cents
    → (1 ≤ cents) × (cents ≤ max_money_amount)
unfolding parse_unit_price
parse_unit_price_bounds d h = ground arith
