-- ===== src/Ynab.antt =====
-- internal/tools/ynab: the shared request allowance and the outage circuits of the YNAB provider.
pub mod Circuit
pub mod Quota
pub mod Dispatch
mod Tests
mod DispatchTests
