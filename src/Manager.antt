-- ===== src/Manager.antt =====
-- pkg/RepoManager: the repositories in use, with a count of the modules that use each.
pub mod State
pub mod Start
pub mod Counts
pub mod Replay
pub mod Same
pub mod Collision
pub mod Execute
pub mod Stop
pub mod Tests
