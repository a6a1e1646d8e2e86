-- ===== src/Orders/Pricing/Eta.antt =====
-- `_estimate_eta_minutes` and `_format_eta_text` of app/services/orders.py.
use naicha_backend.Database.{EtaText, about_minutes, expected_at, minute}
use naicha_backend.Models.{OrderType, order_type_tagged, ◌is◌}
use naicha_backend.Prelude.{Bool, Option, if◌then◌else◌, max, none, some, ℕ, ◌*◌, ◌+◌, ◌-◌, ◌/◌}

-- The minutes until an instant, none if it has passed.
abbrev minutes_until : ℕ → ℕ → ℕ
minutes_until now scheduled = (scheduled - now) / minute

unfoldable pub estimate_eta_minutes : ℕ → OrderType → ℕ → Bool → Option ℕ → ℕ
estimate_eta_minutes now order_type item_count is_scheduled scheduled_at =
    let base = 8 + (item_count - 1) * 2 + (if order_type is OrderType.delivery then 10 else 0) in
    let eta : ℕ = elim scheduled_at [
      | none ↦ base
      | some at ↦ if is_scheduled then max (minutes_until now at) base else base
    ] in
    max eta 1

unfoldable pub format_eta_text : ℕ → Option ℕ → EtaText
format_eta_text eta_minutes none = about_minutes eta_minutes
format_eta_text eta_minutes (some at) = expected_at at
