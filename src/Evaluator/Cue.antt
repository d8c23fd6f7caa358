-- ===== src/Evaluator/Cue.antt =====
-- pkg/executor/cueExecutor.go. The CUE library, the file system and `json.Unmarshal` are parameters:
-- `V` is `cue.Value` and `B` is `*build.Instance`.
use Prim.Native.String.{◌++◌ as ◌+++◌}
use text.Mathlib.Text.{starts_with}
use crossform.Common.{
  String, Bool, true, false, Option, none, some, List, [], ◌∷◌, ◌==◌, if◌then◌else◌,
}
use crossform.Common.Dict.{Dict, lookup, put}
use crossform.Common.Json.{Fields, end}
use crossform.Common.Outcome.{Outcome, ok, fail, panic, must, wrap, ◌>>=◌, ◌>>◌}
use crossform.Executor.Types.{Metadata, Crossform, Ready, ready_unspecified}
use crossform.Executor.Interface.{GenericExecutor}
use crossform.Executor.New.{Inputs}
use crossform.Evaluator.Tables.{
  Tables, list_of, keys, field_path, append_fields, load_metadata, ready_of,
}

pub record CueHost (V B : Type 0) : Type 0 where
  pub glob : String → Outcome (List String)
  pub read_file : String → Outcome String
  -- fmt.Sprintf
  pub format : String → List String → String
  -- load.Instances on file names, in a directory
  pub load : String → List String → List B
  pub build_error : B → Option String
  pub package_name : B → String
  -- ctx.CompileString, and ctx.BuildInstance in a scope, with the `Err` of the value
  pub compile : String → Outcome V
  pub build : V → B → Outcome V
  pub details : String → String
  -- the selectors of a value's fields; the hidden ones too, with their values
  pub selectors : V → Outcome (List String)
  pub hidden_fields : V → Outcome (List (String × V))
  -- LookupPath(ParsePath(_))
  pub lookup_path : V → String → V
  pub marshal : V → Outcome String
  pub decode_metadata : String → Outcome Metadata
  pub decode_crossform : String → Outcome Crossform
  pub decode_object : String → Outcome Fields

-- strings.TrimPrefix
abbrev pub drop_prefix : String → String → String
drop_prefix String.[] s = s
drop_prefix (String.◌∷◌ c p) String.[] = String.[]
drop_prefix (String.◌∷◌ c p) (String.◌∷◌ d s) = drop_prefix p s

abbrev pub trim_prefix : String → String → String
trim_prefix p s = if starts_with s p then drop_prefix p s else s

unfoldable pub trim_all : String → List String → List String
trim_all p [] = []
trim_all p (s ∷ ss) = trim_prefix p s ∷ trim_all p ss

-- `cueExecutor`
pub record CueExecutor (V : Type 0) : Type 0 where
  pub path : String
  pub instances : Dict V
  pub tables : Tables

abbrev pub imports : String
imports = "\n_observed:%s\n_requested:%s\n_xr:%s\n_context:%s\n"

abbrev pub cue_error : String → String → String → String
cue_error what file field =
    "unable to " +++ (what +++ (". file=" +++ (file +++ (" field=" +++ field))))

-- errors.WithMessage
abbrev pub with_message : {A : Type 0} → (String → String) → Outcome A → Outcome A
with_message text (ok a) = ok a
with_message text (fail e) = fail (text e +++ (": " +++ e))
with_message text panic = panic

-- if err != nil { return nil, err }
abbrev pub no_error : Option String → Outcome (Unit {0})
no_error none = ok tt
no_error (some e) = fail e

-- the loop of `getCrossformValue`
unfoldable pub find_crossform : {V : Type 0} → List (String × V) → Outcome V
find_crossform [] = fail "unable to find _crossform field"
find_crossform ((k, v) ∷ fields) = if k == "_crossform" then ok v else find_crossform fields

module _ {V B : Type 0} (host : CueHost V B) where
  unfoldable pub get_crossform_value : V → Outcome V
  get_crossform_value v = do fields ← host.hidden_fields v; find_crossform fields

  -- builds[i] for every file; it panics where there are fewer builds than files
  unfoldable pub build_all : V → List String → List B → Dict V → Outcome (Dict V)
  build_all lib [] builds t = ok t
  build_all lib (file ∷ files) [] t = panic
  build_all lib (file ∷ files) (b ∷ builds) t = do
    v ← with_message host.details (host.build lib b)
    build_all lib files builds (put file v t)

  -- The methods; a file without an instance is a nil pointer, which panics.
  module _ (instances : Dict V) where
    abbrev pub value_at : String → String → Outcome V
    value_at file field = do v ← must (lookup file instances); ok (host.lookup_path v field)

    -- `getFields`
    unfoldable pub list_selectors : String → Outcome (List String)
    list_selectors file = do
      v ← must (lookup file instances)
      wrap ("unable to get get fields. file=" +++ file) (host.selectors v)

    unfoldable pub get_metadata : String → String → Outcome Metadata
    get_metadata file field = do
      v ← value_at file field
      cf ← wrap (cue_error "get crossform value" file field) (get_crossform_value v)
      json ←
          wrap (cue_error "get crossform metadata" file field)
            (host.marshal (host.lookup_path cf "metadata"))
      wrap (cue_error "unmarshal crossform metadata" file field) (host.decode_metadata json)

    unfoldable pub get_crossform : String → String → Outcome Crossform
    get_crossform file field = do
      v ← value_at file field
      cf ← wrap (cue_error "get crossform value" file field) (get_crossform_value v)
      json ← wrap (cue_error "unmarshal crossform object" file field) (host.marshal cf)
      wrap (cue_error "unmarshal crossform object" file field) (host.decode_crossform json)

    unfoldable pub get_resource : String → String → Outcome (Fields × Bool × Ready)
    get_resource file field = do
      c ← get_crossform file field
      if c.deferred then ok (end, true, ready_unspecified) else (do
        v ← value_at file field
        json ← wrap (cue_error "unmarshal crossform object" file field) (host.marshal v)
        object ← host.decode_object json
        ok (object, false, ready_of c.ready))

    -- the loop over the files; every file gets an entry
    unfoldable pub load_selectors : List String → Dict (List String) → Outcome (Dict (List String))
    load_selectors [] t = ok t
    load_selectors (file ∷ files) t = do
      names ← list_selectors file
      load_selectors files (append_fields file names (put file (list_of (lookup file t)) t))

  abbrev pub cue_executor : CueExecutor V → GenericExecutor
  cue_executor e = record {
    get_file_names = keys e.tables.fields;
    get_fields = λ file. list_of (lookup file e.tables.fields);
    get_metadata_object = λ file field. lookup (field_path file field) e.tables.metadata;
    get_crossform_object = get_crossform e.instances;
    validate_inputs = λ inputs input. none;
    get_resource = get_resource e.instances;
  }

  -- the text of the library, in the package of the module
  abbrev pub lib_text : Inputs → String → String → String
  lib_text i lib name =
      let text = host.format (imports +++ lib) (i.observed ∷ i.requested ∷ i.xr ∷ i.context ∷ []) in
      if name == "" then text else "package " +++ (name +++ ("\n" +++ text))

  -- from the first build on
  unfoldable pub load_instances : String → Inputs → List String → List B → Outcome (CueExecutor V)
  load_instances path i files [] = fail "cannot load instances"
  load_instances path i files (b ∷ builds) = do
    no_error (host.build_error b)
    lib ← host.read_file "lib.cue"
    lib_value ← host.compile (lib_text i lib (host.package_name b))
    instances ← build_all lib_value files (b ∷ builds) []
    fields ← load_selectors instances files []
    metadata ← load_metadata (get_metadata instances) fields []
    ok (record {
      path = path;
      instances = instances;
      tables = record { fields = fields; metadata = metadata };
    })

  -- from the files of the directory on; the CUE library is given their names in it
  unfoldable pub load_files : String → Inputs → List String → Outcome (Option (CueExecutor V))
  load_files path i [] = ok none
  load_files path i (file ∷ files) = do
    let names = trim_all (path +++ "/") (file ∷ files)
    e ← load_instances path i names (host.load path names)
    ok (some e)

  -- `newCueExecutor`
  unfoldable pub new_cue : String → Inputs → Outcome (Option GenericExecutor)
  new_cue path i = do
    files ← host.glob (path +++ "/*.cue")
    made ← load_files path i files
    elim made [ none ↦ ok none | some e ↦ ok (some (cue_executor e)) ]
