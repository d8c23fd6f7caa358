-- ===== src/Crossplane.antt =====
-- pkg/crossplane: the composition function and the report that it writes.
pub mod Report
pub mod Statuses
pub mod Inputs
pub mod Printed
pub mod Clean
pub mod Response
pub mod Cleaned
pub mod Composite
pub mod Desired
pub mod Status
pub mod Function
pub mod Critical
pub mod Answer
pub mod Asked
pub mod Compared
pub mod Taken
pub mod Unready
pub mod Kept
pub mod Reported
pub mod Serve
pub mod Proxy
pub mod Reuse
pub mod Samples
pub mod Tests
pub mod ProxyTests
pub mod RunTests
