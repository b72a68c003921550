-- ===== src/Risk.antt =====
-- The risk engine (apps/api/app/services/risk_engine.py) and the schemas that it takes and returns.
pub mod Schemas
pub mod Policy
pub mod Regime
pub mod Exposure
pub mod Sizing
pub mod Evaluate
pub mod Approval
pub mod Limits
pub mod Tests
mod Examples
pub mod Refusal
pub mod Scale
pub mod Total
pub mod Raises
