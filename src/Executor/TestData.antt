-- ===== src/Executor/TestData.antt =====
-- pkg/executor/executor.go: `writeTestData`, which records a run as a test where none is recorded yet.
-- The disk, over the world `W`, and `yaml.Marshal` are parameters.
use Prim.Native.String.{◌++◌ as ◌+++◌}
use crossform.Common.{String, Bool, true, false, Option, none, some}
use crossform.Common.Outcome.{Outcome, ok, fail, panic}
use crossform.Executor.Types.{ExecCommand, ExecResult}

-- the type behind the interface of the evaluator
pub data Language : Type 0 where
  jsonnet cue other : Language

pub record TestDisk (W : Type 0) : Type 0 where
  -- os.IsNotExist of the error of os.Stat
  pub is_missing : String → W → Bool
  pub mkdir_all : String → W → Option String × W
  pub copy : String → String → W → Option String × W
  pub write_file : String → String → W → Option String × W

pub record Yaml : Type 0 where
  pub of_command : ExecCommand → Outcome String
  pub of_result : ExecResult → Outcome String
  pub of_error : String → Outcome String

abbrev pub test_path : Language → Option String
test_path jsonnet = some "pkg/executor/testdata/jsonnet/new"
test_path cue = some "pkg/executor/testdata/cue/new"
test_path other = none

-- an error, or none, or a panic, and the world
abbrev pub Written : Type 0 → Type 0
Written W = Outcome (Unit {0}) × W

module _ {W : Type 0} where
  -- `if err != nil { return err }`
  abbrev pub and_then : Option String × W → (W → Written W) → Written W
  and_then (none, w) next = next w
  and_then (some e, w) next = (fail e, w)

  abbrev pub marshalled : Outcome String → W → (String → Written W) → Written W
  marshalled (ok text) w next = next text
  marshalled (fail e) w next = (fail e, w)
  marshalled panic w next = (panic, w)

module _ {W : Type 0} (disk : TestDisk W) (yaml : Yaml) where
  -- the result of the run, or its error
  unfoldable pub write_outcome : String → ExecResult → Option String → W → Written W
  write_outcome path result none w =
      marshalled (yaml.of_result result) w
        λ res. and_then (disk.write_file (path +++ "/result.yaml") res w) λ w₁. (ok tt, w₁)
  write_outcome path result (some e) w =
      marshalled (yaml.of_error e) w
        λ eey. and_then (disk.write_file (path +++ "/error.yaml") eey w) λ w₁. (ok tt, w₁)

  unfoldable pub write_new :
      String → String → ExecCommand → ExecResult → Option String → W → Written W
  write_new path module_path cmd result error w = marshalled (yaml.of_command cmd) w λ text.
      and_then (disk.mkdir_all path w) λ w₁.
        and_then (disk.copy (module_path +++ "/" +++ cmd.path) (path +++ "/src") w₁) λ w₂.
          and_then (disk.write_file (path +++ "/command.yaml") text w₂)
            λ w₃. write_outcome path result error w₃

  -- `module_path` is the path that the executor was made with.
  unfoldable pub write_test_data :
      Language → String → ExecCommand → ExecResult → Option String → W → Written W
  write_test_data language module_path cmd result error w = elim (test_path language) [
    | none ↦ (fail "test does not support this project type", w)
    | some path ↦ elim (disk.is_missing path w) [
      | false ↦ (ok tt, w)
      | true ↦ write_new path module_path cmd result error w
    ]
  ]
