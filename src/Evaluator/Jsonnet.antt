-- ===== src/Evaluator/Jsonnet.antt =====
-- pkg/executor/jsonnetExecutor.go but for `ValidateInputs`. The jsonnet library, the file system and
-- `json.Unmarshal` are parameters.
use Prim.Native.String.{◌++◌ as ◌+++◌}
use crossform.Common.{String, Bool, true, false, Option, none, some, List, [], ◌∷◌, if◌then◌else◌}
use crossform.Common.Dict.{Dict, put}
use crossform.Common.Json.{Fields, end}
use crossform.Common.Outcome.{Outcome, ok, wrap, ◌>>=◌}
use crossform.Executor.Types.{Metadata, Crossform, Ready, ready_unspecified}
use crossform.Executor.New.{Inputs}
use crossform.Evaluator.Tables.{Tables, append_fields, load_metadata, ready_of}

pub record JsonnetHost : Type 0 where
  pub glob : String → Outcome (List String)
  pub read_file : String → Outcome String
  -- vm.EvaluateAnonymousSnippet on a snippet, with the external code that `ExtCode` set
  pub evaluate : Dict String → String → Outcome String
  pub decode_names : String → Outcome (List String)
  pub decode_metadata : String → Outcome Metadata
  pub decode_crossform : String → Outcome Crossform
  pub decode_object : String → Outcome Fields

-- `jsonnetExecutor`: of the virtual machine, the external code that was given to it.
pub record JsonnetExecutor : Type 0 where
  pub path : String
  pub vm : Dict String
  pub tables : Tables

abbrev pub ext_codes : Inputs → String → Dict String
ext_codes i lib = put "crossform" lib (
    put "context" i.context
      (put "xr" i.xr (put "requested" i.requested (put "observed" i.observed []))))

-- The snippets that are evaluated.
abbrev pub file_import : String → String
file_import file = "local m = import '" +++ (file +++ "';")

abbrev pub names_snippet : String → String
names_snippet file = file_import file +++ " std.objectFields(m)"

abbrev pub field_snippet : String → String → String
field_snippet file field = file_import file +++ (" m['" +++ (field +++ "']"))

abbrev pub crossform_snippet : String → String → String
crossform_snippet file field = field_snippet file field +++ ".crossform"

abbrev pub metadata_snippet : String → String → String
metadata_snippet file field = crossform_snippet file field +++ ".metadata"

abbrev pub metadata_error : String → String → String → String
metadata_error verb file field =
    "unable to " +++ (verb +++ (" crossform metadata. file=" +++ (file +++ (" field=" +++ field))))

module _ (host : JsonnetHost) where
  module _ (vm : Dict String) where
    -- `getFields`
    unfoldable pub list_names : String → Outcome (List String)
    list_names file = do json ← host.evaluate vm (names_snippet file); host.decode_names json

    unfoldable pub get_metadata : String → String → Outcome Metadata
    get_metadata file field = do
      json ← wrap (metadata_error "get" file field) (host.evaluate vm (metadata_snippet file field))
      wrap (metadata_error "unmarshal" file field) (host.decode_metadata json)

    unfoldable pub get_crossform : String → String → Outcome Crossform
    get_crossform file field = do
      json ← host.evaluate vm (crossform_snippet file field)
      host.decode_crossform json

    -- A deferred resource is not evaluated.
    unfoldable pub get_resource : String → String → Outcome (Fields × Bool × Ready)
    get_resource file field = do
      c ← get_crossform file field
      if c.deferred then ok (end, true, ready_unspecified) else (do
        json ← host.evaluate vm (field_snippet file field)
        object ← host.decode_object json
        ok (object, false, ready_of c.ready))

    -- the loop over the files; a file without fields gets no entry
    unfoldable pub load_fields : List String → Dict (List String) → Outcome (Dict (List String))
    load_fields [] t = ok t
    load_fields (file ∷ files) t = do
      names ← list_names file
      load_fields files (append_fields file names t)

  -- from the files of the directory on
  unfoldable pub load_files : String → Inputs → List String → Outcome (Option JsonnetExecutor)
  load_files path i [] = ok none
  load_files path i (file ∷ files) = do
    lib ← host.read_file "lib.jsonnet"
    let vm = ext_codes i lib
    fields ← load_fields vm (file ∷ files) []
    metadata ← load_metadata (get_metadata vm) fields []
    ok (
        some (record {
          path = path;
          vm = vm;
          tables = record { fields = fields; metadata = metadata };
        }))

  unfoldable pub new_jsonnet_executor : String → Inputs → Outcome (Option JsonnetExecutor)
  new_jsonnet_executor path i = do
    files ← host.glob (path +++ "/*.jsonnet")
    load_files path i files
