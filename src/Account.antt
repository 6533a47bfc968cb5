-- ===== src/Account.antt =====
-- Accounts: backend/internal/account.
pub mod Entity
pub mod Service
