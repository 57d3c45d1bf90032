-- ===== src/Math.antt =====
-- src/math: canonical decimal strings over the third-party package decimal.js.
pub mod DecimalJs
pub mod Decimal
pub mod ExactDecimal
pub mod Order
