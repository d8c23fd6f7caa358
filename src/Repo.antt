-- ===== src/Repo.antt =====
-- pkg/repo: one git repository, kept up to date and executed from.
pub mod Config
pub mod Status
pub mod State
pub mod Destroy
pub mod Host
pub mod Secret
pub mod Auth
pub mod Credentials
pub mod Act
pub mod Revision
pub mod Work
pub mod Rounds
pub mod Outage
pub mod Invariant
pub mod Checkout
pub mod Current
pub mod Follow
pub mod Retry
pub mod Lock
pub mod Exclusion
pub mod Samples
pub mod Tests
pub mod FollowTests
