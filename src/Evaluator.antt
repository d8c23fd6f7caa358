-- ===== src/Evaluator.antt =====
-- pkg/executor/jsonnetExecutor.go and pkg/executor/cueExecutor.go: the evaluators of the two
-- languages, each as a `GenericExecutor`.
pub mod Tables
pub mod Jsonnet
pub mod Schema
pub mod Cue
pub mod Complete
pub mod Returns
pub mod Required
pub mod Instances
pub mod Tests
