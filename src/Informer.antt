-- ===== src/Informer.antt =====
-- main.go: the informer on the cluster's modules, and the whole of informer, channels and manager.
pub mod Handlers
pub mod System
pub mod Users
pub mod Overtaking
pub mod Paths
pub mod Checked
pub mod Executed
pub mod Goroutines
pub mod Drain
pub mod Jam
pub mod Sequential
pub mod Process
pub mod Started
pub mod Tests
pub mod JamTests
pub mod ProcessTests
