-- ===== src/Payments.antt =====
-- PaymentService of app/services/payments.py (the callback of WeChat Pay) and PaymentMatchService
-- of app/services/payment_match.py (payments by a static QR code, matched by an administrator).
pub mod Records
pub mod Notify
pub mod Acquire
pub mod Match
