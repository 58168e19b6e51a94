-- ===== src/Dates.antt =====
-- The dates of the language (`Date.prototype.toISOString`, `Date.parse`), as far as the service uses
-- them: times are milliseconds since the epoch.
pub mod Unary
use gpg_signing_service.Common.{ℕ, String, ◌≡◌, Option, some, truthy, true}

pub record Dates : Type 0 where
  pub to_iso : ℕ → String
  -- `none` is NaN
  pub parse_date : String → Option ℕ
  pub parse_date-to_iso : (t : ℕ) → parse_date (to_iso t) ≡ some t
  pub truthy-to_iso : (t : ℕ) → truthy (to_iso t) ≡ true
