-- ===== src/Pay/Cashier.antt =====
-- The payment gateway: backend/internal/pay/cashier.go.
pub mod Trades
mod Digits
pub mod Compare
pub mod Notices
pub mod Requests
pub mod Attempts
pub mod Rows
pub mod Service
