-- ===== src/Testnet.antt =====
-- apps/api/app/services/testnet_trading_service.py: what it reads of the exchange's answers and the prices
-- and statuses that it derives from them.
pub mod Payload
pub mod Refs
pub mod Status
pub mod Prices
pub mod Merge
pub mod Names
pub mod Protection
pub mod Rounding
pub mod Exchange
pub mod Logs
pub mod Confirm
pub mod Place
pub mod Quiet
pub mod Ends
pub mod Outcome
pub mod Protects
pub mod Executed
pub mod Synced
pub mod Closes
pub mod Loops
pub mod Exits
pub mod Consistent
pub mod Runs
pub mod Fills
pub mod Entry
pub mod LocalExit
pub mod Refresh
pub mod Exit
pub mod Sweep
mod Tests
mod RunTests
