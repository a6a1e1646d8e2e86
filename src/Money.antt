-- ===== src/Money.antt =====
-- `_quantize_currency` of app/services/orders.py and the decimal arithmetic around it. An amount
-- is a whole number of cents; a `Decimal` of a JSON document has any number of places.
pub mod Rounding
use naicha_backend.Models.Rows.{Decimal}
use naicha_backend.Prelude.{
  Bool, if◌then◌else◌, leb, ltb, ltb_ℤ, neg_part, pos_part, sub_ℕ, times, ℕ, ℤ, ◌%◌, ◌*◌, ◌+◌, ◌-◌,
  ◌/◌, ◌==◌, ◌^◌,
}

abbrev pub cents : ℤ → Decimal
cents z = record { coeff = z; places = 2 }

-- The nearest multiple, and the one further from zero where two are as near (ROUND_HALF_UP).
unfoldable pub round_half_up : ℕ → ℕ → ℕ
round_half_up n d = (2 * n + d) / (2 * d)

-- `amount.quantize(Decimal("0.01"), rounding=ROUND_HALF_UP)`, in cents.
unfoldable pub quantize_currency : Decimal → ℤ
unfolding round_half_up times
quantize_currency a =
    if leb a.places 2
    then times (10 ^ (2 - a.places)) a.coeff
    else (let d = 10 ^ (a.places - 2) in
        sub_ℕ (round_half_up (pos_part a.coeff) d) (round_half_up (neg_part a.coeff) d))

-- The nearest multiple, and the even one where two are as near (the default of `quantize`).
unfoldable pub round_half_even : ℕ → ℕ → ℕ
round_half_even n d =
    let q = n / d in
    let twice = 2 * (n % d) in if ltb twice d then q else if ltb d twice then q + 1 else q + q % 2

-- `amount.quantize(Decimal("0.01"))`, in cents.
unfoldable pub quantize_even : Decimal → ℤ
unfolding round_half_even times
quantize_even a =
    if leb a.places 2
    then times (10 ^ (2 - a.places)) a.coeff
    else (let d = 10 ^ (a.places - 2) in
        sub_ℕ (round_half_even (pos_part a.coeff) d) (round_half_even (neg_part a.coeff) d))

-- `a == b`, over the common number of places.
unfoldable pub eq_decimal : Decimal → Decimal → Bool
unfolding times
eq_decimal a b =
    let x = times (10 ^ b.places) a.coeff in
    let y = times (10 ^ a.places) b.coeff in pos_part x + neg_part y == pos_part y + neg_part x

-- The product of two decimals.
unfoldable pub mul_decimal : Decimal → Decimal → Decimal
mul_decimal a b = record {
  coeff =
      sub_ℕ (pos_part a.coeff * pos_part b.coeff + neg_part a.coeff * neg_part b.coeff)
        (pos_part a.coeff * neg_part b.coeff + neg_part a.coeff * pos_part b.coeff);
  places = a.places + b.places;
}

-- `x / Decimal("100")`: two more places.
unfoldable pub hundredth : Decimal → Decimal
hundredth a = record a { places = a.places + 2 }

-- `a < b`, over the common number of places.
unfoldable pub ltb_decimal : Decimal → Decimal → Bool
unfolding times
ltb_decimal a b = ltb_ℤ (times (10 ^ b.places) a.coeff) (times (10 ^ a.places) b.coeff)

-- Python's `min` of two.
abbrev pub min_decimal : Decimal → Decimal → Decimal
min_decimal a b = if ltb_decimal b a then b else a
