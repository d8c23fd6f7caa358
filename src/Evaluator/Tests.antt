-- ===== src/Evaluator/Tests.antt =====
-- Small modules in both languages. A snippet's result is the snippet itself, which the decoders read.
use Prim.Native.String.{◌++◌ as ◌+++◌}
use crossform.Common.{
  String, ◌≡◌, refl, true, false, Option, none, some, List, [], ◌∷◌, ◌==◌, if◌then◌else◌, elem,
  length, ◌≤◌, inr, is_some,
}
use crossform.Common.Dict.{Dict, lookup, put, has, map_values}
use crossform.Common.Json.{str, obj, Fields, end, field, get, set, entries, of_entries}
use crossform.Common.Outcome.{Outcome, ok, panic, ◌>>=◌}
use crossform.Executor.Types.{Metadata, Crossform, ready_true, ExecCommand}
use crossform.Executor.New.{
  Inputs, choose, marshal, add_details, add_all_details, last_of, last_of_each, new_executor,
}
use crossform.Evaluator.Tables.{keys, append_fields, load_file, load_metadata}
use crossform.Evaluator.Jsonnet.{
  JsonnetHost, JsonnetExecutor, ext_codes, metadata_snippet, field_snippet, list_names, load_fields,
  new_jsonnet_executor,
}
use crossform.Evaluator.Jsonnet
use crossform.Evaluator.Schema.{
  SchemaHost, schema_of, no_schema, jsonnet_executor, new_jsonnet, validate_inputs,
}
use crossform.Evaluator.Cue.{
  CueHost, CueExecutor, cue_executor, build_all, list_selectors, load_selectors, load_instances,
  new_cue, trim_all, find_crossform, get_crossform_value,
}
use crossform.Evaluator.Cue
use crossform.Evaluator.Returns.{IsCalm, new_jsonnet-exec_file}
use crossform.Executor.File.{FileResult, exec_file}
use crossform.Evaluator.Complete.{IsDescribed, new_executor-IsDescribed}
use crossform.Evaluator.Required.{is_required, schema_at, property_at, schema_of-describes}
use crossform.Evaluator.Instances.{load_instances-listed}

abbrev main : String
main = "m/main.jsonnet"

abbrev described : String → String → Metadata
described id type = record { id = id; type = type }

abbrev crossform_of : Metadata → Crossform
crossform_of m = record {
  metadata = m;
  ready = some true;
  request = none;
  output = obj end;
  schema = none;
  deferred = false;
}

abbrev jsonnet : JsonnetHost
jsonnet = record {
  glob = λ pattern. ok (if pattern == "m/*.jsonnet" then main ∷ [] else []);
  read_file = λ path. ok "{}";
  evaluate = λ vm snippet. ok snippet;
  decode_names = λ json. ok ("bucket" ∷ "size" ∷ []);
  decode_metadata = λ json. ok (
      if json == metadata_snippet main "bucket"
      then described "bucket" "resource"
      else described "size" "input");
  decode_crossform = λ json. ok (crossform_of (described "bucket" "resource"));
  decode_object = λ json. ok (field "code" (str json) end);
}

abbrev schemas : SchemaHost String String
schemas = record {
  marshal = λ fs. inr "{}";
  add_resource = λ url json. inr json;
  compile = λ compiler url. inr compiler;
  validate = λ sch input. if is_some (get "size" input) then none else some "size is required";
}

abbrev cue : CueHost String String
cue = record {
  glob = λ pattern. ok ("c/a.cue" ∷ "c/b.cue" ∷ []);
  read_file = λ path. ok "#output: {}";
  format = λ text args. text;
  load = λ path files. files;
  build_error = λ b. none;
  package_name = λ b. "main";
  compile = λ text. ok text;
  build = λ lib b. ok b;
  details = λ e. e;
  selectors = λ v. ok (if v == "a.cue" then "out" ∷ [] else []);
  hidden_fields = λ v. ok (("_crossform", v) ∷ []);
  lookup_path = λ v path. v +++ ("." +++ path);
  marshal = λ v. ok v;
  decode_metadata = λ json. ok (described json "output");
  decode_crossform = λ json. ok (crossform_of (described json "output"));
  decode_object = λ json. ok end;
}

abbrev inputs : Inputs
inputs = record { observed = "{}"; requested = "{}"; xr = "{}"; context = "{}" }

abbrev jsonnet_module : JsonnetExecutor
jsonnet_module = record {
  path = "m";
  vm = ext_codes inputs "{}";
  tables = record {
    fields = (main, "bucket" ∷ "size" ∷ []) ∷ [];
    metadata =
        ("m/main.jsonnet/bucket", described "bucket" "resource")
        ∷ ("m/main.jsonnet/size", described "size" "input")
        ∷ [];
  };
}

program : Unit {0}
unfolding new_executor choose marshal add_details add_all_details last_of last_of_each keys
    append_fields load_file load_metadata list_names load_fields new_jsonnet_executor
    Jsonnet.load_files Jsonnet.get_metadata Jsonnet.get_crossform Jsonnet.get_resource schema_of
    new_jsonnet validate_inputs build_all list_selectors load_selectors load_instances
    Cue.load_files new_cue Cue.get_metadata Cue.get_crossform Cue.get_resource trim_all
    find_crossform get_crossform_value lookup put map_values get set entries of_entries ◌>>=◌
program = tt

new_jsonnet_executor-main : new_jsonnet_executor jsonnet "m" inputs ≡ ok (some jsonnet_module)
unfolding program
new_jsonnet_executor-main = refl

get_resource-bucket :
    (jsonnet_executor schemas jsonnet jsonnet_module).get_resource main "bucket"
    ≡ ok
        (field "code" (str "local m = import 'm/main.jsonnet'; m['bucket']") end, false, ready_true)
unfolding program
get_resource-bucket = refl

abbrev cmd : ExecCommand
cmd = record {
  repository_url = "https://git";
  repository_revision = "main";
  path = "m";
  observed = [];
  requested = [];
  module_name = "example";
  xr = end;
  context = "{}";
}

abbrev marshal_map : Fields → Outcome String
marshal_map fs = ok "{}"

abbrev missing : String → Option String
missing path = none

-- A module is executed below the directory of its clone; the file system shows it here at "m".
abbrev moved : JsonnetHost
moved = record jsonnet { glob = λ pattern. ok (main ∷ []) }

abbrev moved_module : JsonnetExecutor
moved_module = record jsonnet_module { path = "repos/x/m" }

new_executor-moved :
    new_executor missing marshal_map (new_jsonnet schemas moved) (new_cue cue) cmd "repos/x"
    ≡ ok (cmd, jsonnet_executor schemas moved moved_module)
unfolding program
new_executor-moved = refl

new_executor-IsDescribed_example : IsDescribed (jsonnet_executor schemas moved moved_module)
new_executor-IsDescribed_example =
    new_executor-IsDescribed schemas moved cue missing marshal_map cmd cmd "repos/x"
      (jsonnet_executor schemas moved moved_module) new_executor-moved

-- Of two inputs with a schema, one has a default; a third has no schema.
abbrev with_schema : Option Fields → Crossform
with_schema s = record (crossform_of (described "size" "input")) { schema = s }

abbrev declared : Dict Crossform
declared =
    ("size", with_schema (some (field "type" (str "integer") end)))
    ∷ ("name", with_schema (some (field "default" (str "web") end)))
    ∷ ("free", with_schema none)
    ∷ []

schema_of-declared : (schema_of declared no_schema).required ≡ "size" ∷ []
unfolding program
schema_of-declared = refl

validate_inputs-empty : validate_inputs schemas declared end ≡ some "size is required"
unfolding program
validate_inputs-empty = refl

schema_of-describes_example :
    (lookup "size" (schema_of declared no_schema).properties
      ≡ property_at (schema_at (lookup "size" declared)) none)
    × (elem "size" (schema_of declared no_schema).required
        ≡ is_required (schema_at (lookup "size" declared)))
unfolding lookup
schema_of-describes_example = schema_of-describes declared "size" (refl, (refl, (refl, tt)))

abbrev two_files : List String
two_files = "a.cue" ∷ "b.cue" ∷ []

abbrev cue_module : CueExecutor String
cue_module = record {
  path = "c";
  instances = ("a.cue", "a.cue") ∷ ("b.cue", "b.cue") ∷ [];
  tables = record {
    fields = ("a.cue", "out" ∷ []) ∷ ("b.cue", []) ∷ [];
    metadata = ("a.cue/out", described "a.cue.out.metadata" "output") ∷ [];
  };
}

load_instances-two : load_instances cue "c" inputs two_files two_files ≡ ok cue_module
unfolding program
load_instances-two = refl

load_instances-listed_example :
    (length two_files ≤ length two_files)
    × ((k : String)
        → elem k (keys cue_module.tables.fields) ≡ true
        → has k cue_module.instances ≡ true)
load_instances-listed_example =
    load_instances-listed cue "c" inputs two_files two_files cue_module load_instances-two

new_cue-two : new_cue cue "c" inputs ≡ ok (some (cue_executor cue cue_module))
unfolding program
new_cue-two = refl

-- Two files of one package.
load_instances-one_build : load_instances cue "c" inputs two_files ("a.cue" ∷ []) ≡ panic
unfolding program
load_instances-one_build = refl

jsonnet-IsCalm : IsCalm jsonnet
jsonnet-IsCalm = record {
  evaluate = λ vm snippet h. cc;
  decode_crossform = λ json h. cc;
  decode_object = λ json h. cc;
}

new_jsonnet-main :
    new_jsonnet schemas jsonnet "m" inputs
    ≡ ok (some (jsonnet_executor schemas jsonnet jsonnet_module))
unfolding program
new_jsonnet-main = refl

new_jsonnet-exec_file_example :
    (r : FileResult) × (exec_file (jsonnet_executor schemas jsonnet jsonnet_module) true main
      ≡ ok r)
new_jsonnet-exec_file_example =
    new_jsonnet-exec_file schemas jsonnet jsonnet-IsCalm "m" inputs
      (jsonnet_executor schemas jsonnet jsonnet_module) true main new_jsonnet-main
