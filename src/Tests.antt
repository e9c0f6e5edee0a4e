-- ===== src/Tests.antt =====
-- Runs of the models and the theorems at concrete inputs.
mod BreakerTests
mod ManagerTests
mod LimiterTests
mod RuleTests
mod WhitelistTests
pub mod ReplayTests
mod ErrorTests
mod NormalizerTests
mod ContextTests
mod DiscoveryTests
mod HandlerTests
mod SecurityTests
mod SigningTests
mod StartupTests
mod HealthTests
mod SlidingTests
mod StorageTests
mod WriterTests
