-- ===== src/Wallet.antt =====
-- The wallet of the user service: the tables it writes, the database session, the balance
-- service, top-up orders and voucher codes.
pub mod Models
pub mod Session
pub mod Balance
pub mod Orders
pub mod Vouchers
pub mod Keys
pub mod Ledger
pub mod History
pub mod Failures
pub mod Redemption
mod Tests
