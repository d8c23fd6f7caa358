-- ===== src/Lib.antt =====
-- crossform is a Crossplane composition function: for a composite resource that names a module (a
-- git address, a revision and a path), it evaluates the jsonnet or CUE files of the module and
-- answers with the resources that the cluster shall have.
--
-- The parts and how they meet. An informer (main.go) watches the modules of the cluster and sends the
-- configuration of each to the repository manager (pkg/RepoManager/repoManager.go) over two channels.
-- The manager counts the modules that use a repository, creates it with the first and destroys it with
-- the last. Each repository (pkg/repo/repo.go, config.go, status.go) has a worker that clones it and
-- then polls it. The function (pkg/crossplane/function.go, report.go) asks the manager to execute the
-- module of a request; the repository runs the executor (pkg/executor/executor.go, execute.go,
-- main.go, crossformObject.go) on the directory of its clone, which asks an evaluator for the fields
-- of each file; and the function turns the result into a response and a report.
--
-- Files:
--   Common    Outcome: what a Go call does (a value, an error, a panic), with bind and `Ensures`;
--             Dict: a map with text keys, by lookup, put and remove; Maps: what keeps one;
--             Json: map[string]interface{}.
--   Repo      Config and Secret: config.go (`NewConfig`, `GetSecretData`); Status: status.go; State,
--             Auth, Revision, Work, Destroy: repo.go (`NewRepo`, `getAuth`, `init`, `checkUpdates`,
--             `update`, `work`, `Execute`, `Destroy`); Host: what they call of go-git, the cluster and
--             the disk; Act: a method as a function of the repository and the world.
--             Lock: the lock and the stop channel between worker, `Destroy` and `Execute`, as a step
--             relation; Outage: the loop of `worker`. Outage, Credentials, Rounds, Invariant, Current,
--             Follow, Retry, Checkout and Exclusion hold theorems; Samples, Tests and FollowTests, runs.
--   Manager   State: `GetRepo`, `GetRepoByHash` and the two cases of `worker`; Replay: its loop;
--             Start: `NewRepoManager`; Execute: `Execute`; Stop: `Destroy`. Counts, Replay,
--             Same and Collision hold theorems.
--   Informer  Handlers: the handlers of `makeModulesInformer`; System: informer, channels, manager and
--             the workers of the repositories as one step relation; Goroutines: manager and repositories
--             as goroutines, where a `Destroy` takes time; Process: `main`. Users, Paths, Checked, Executed,
--             Drain, Overtaking, Jam, Sequential and Started hold theorems; Tests, JamTests and ProcessTests,
--             runs.
--   Executor  Types and Interface: the data and `genericExecutor`; File: `execFile`; Exec:
--             `makeRequestResult` and `Exec`; New: `NewExecutor`, `marshal` and `Execute`;
--             TestData: `writeTestData`.
--             Total, Passes, Accounts, Bounds, Loop, Maps, Folds, Stages, FileMaps, Merged, Kept, Rounds,
--             Requests, Outputs and Details hold theorems; Samples, Tests and MergeTests, runs.
--   Evaluator Tables: the loops that both constructors share; Jsonnet and Schema: jsonnetExecutor.go
--             (`newJsonnetExecutor`, `GetResource`, `ValidateInputs` and the other methods); Cue:
--             cueExecutor.go. Each ends in a `GenericExecutor`, which `new_executor` takes. Complete,
--             Returns, Required and Instances hold theorems; Tests, runs.
--   Crossplane Report: report.go; Clean, Composite, Desired, Status, Response, Function: the parts of
--             `RunFunction`, in the order of the code. Cleaned, Statuses, Inputs, Printed,
--             Critical, Unready, Asked, Compared, Taken, Answer, Kept and Reported hold theorems. Proxy:
--             pkg/crossplane/proxy-function.go; Serve: `Run` of both functions, the proxy's in
--             proxy-function.go; Reuse: its theorem. Samples, Tests, ProxyTests and RunTests hold runs.
--
-- How the code is read. An `error` is its message. A type assertion without a second result, and a
-- use of a nil pointer, panics; a panic ends the program. Maps are lists of entries, and a `range`
-- visits them in the order of the list, which stands for the order that a run happens to choose.
-- Loops are over finite lists, and those of the workers for a number of rounds or over the messages
-- taken, so no fuel is used. Logging is left out, but for the call of `auth.Name()` in a log line,
-- which can panic. The counts of users are far from the bound of Go's int. The executor writes
-- connection details into the observed resources in place: `add_details` returns what it leaves, and
-- the function goes on with that. A response begins empty: what the SDK copies into it from earlier
-- steps of a pipeline is left out.
--
-- How the goroutines are read. A repository's round is one step, as it holds the repository's lock. In
-- System a `Destroy` is one step too, which is enough for what holds in every state; that it takes
-- time, and may block for ever, is in Goroutines. The lock of Lock lets a reader or the worker pass a
-- writer that waits, which Go's does not: every run of the program is one of the model, but not the
-- other way round. While `main` waits for the informer, the other goroutines run, and what they make
-- of the manager and the disk is an argument of Process.
--
-- Parameters: MD5 in hexadecimal, go-git and the lists of secrets (`Host`), `os.RemoveAll`, `os.Stat`,
-- `json.Marshal` and `json.Unmarshal`, the jsonnet VM (`JsonnetHost`), the CUE library (`CueHost`), the
-- JSON schema library (`SchemaHost`), gRPC (`ProxyHost`), the disk (`Disk`, `TestDisk`), YAML (`Yaml`),
-- client-go and the probes (`Platform`), the SDK's server, and the setters of the Crossplane SDK
-- (`Services`).
--
-- Not modelled: lib.jsonnet and lib.cue, which the two languages' libraries evaluate; the probes'
-- answers and the logger, which are I/O; the parsing of the proxy's command line; the lock of the
-- manager, and that the proxy's requests may overlap.
pub mod Common
pub mod Repo
pub mod Executor
pub mod Evaluator
pub mod Manager
pub mod Informer
pub mod Crossplane
