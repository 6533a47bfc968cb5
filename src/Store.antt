-- ===== src/Store.antt =====
-- The database that the payment service works on, and the actions that its methods are made of.
-- A table is the list of its rows, the newest first.
mod Tables
mod Events
mod Monad
pub mod Ensures
unfoldable pub use Tables.*
pub use Events.*
unfoldable pub use Monad.*
