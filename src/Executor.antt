-- ===== src/Executor.antt =====
-- pkg/executor: evaluates the files of a module and merges what they ask for.
pub mod Types
pub mod Interface
pub mod File
pub mod Exec
pub mod Passes
pub mod Loop
pub mod Maps
pub mod Folds
pub mod Stages
pub mod FileMaps
pub mod Merged
pub mod Kept
pub mod Rounds
pub mod Requests
pub mod Total
pub mod Accounts
pub mod Bounds
pub mod Outputs
pub mod New
pub mod Details
pub mod TestData
pub mod Samples
pub mod Tests
pub mod MergeTests
