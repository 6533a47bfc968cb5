-- ===== src/Pay.antt =====
pub mod Entity
pub mod Rows
pub mod LockWallet
pub mod Wallet
pub mod Gift
pub mod Withdraw
pub mod Answer
pub mod Handler
pub mod Recharge
pub mod Confirm
pub mod Values
pub mod Cashier
pub mod Books
pub mod Credit
pub mod Gateway
pub mod Callback
pub mod Expiry
pub mod Batch
pub mod Steps
pub mod Ledger
pub mod Journal
pub mod Orders
pub mod Sample
mod Tests
