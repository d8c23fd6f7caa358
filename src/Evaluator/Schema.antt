-- ===== src/Evaluator/Schema.antt =====
-- pkg/executor/jsonnetExecutor.go: `ValidateInputs`, and the evaluator that it completes. The JSON
-- schema library is a parameter: `C` is its compiler and `S` a compiled schema.
use crossform.Common.{
  String, Option, none, some, List, [], ◌∷◌, ◌++◌, if◌then◌else◌, is_some, ◌⊎◌, inl, inr,
}
use crossform.Common.Dict.{Dict, lookup, put}
use crossform.Common.Json.{Value, str, obj, arr, Items, no_items, add_item, Fields, get, of_entries}
use crossform.Common.Outcome.{Outcome, ok, ◌>>=◌}
use crossform.Executor.Types.{Crossform}
use crossform.Executor.Interface.{GenericExecutor}
use crossform.Executor.New.{Inputs}
use crossform.Evaluator.Tables.{list_of, keys, field_path}
use crossform.Evaluator.Jsonnet.{
  JsonnetHost, JsonnetExecutor, get_crossform, get_resource, new_jsonnet_executor,
}

pub record SchemaHost (C S : Type 0) : Type 0 where
  -- an error, or the value
  pub marshal : Fields → String ⊎ String
  pub add_resource : String → String → String ⊎ C
  pub compile : C → String → String ⊎ S
  -- the error of `Validate`, if there is one
  pub validate : S → Fields → Option String

-- The schema while the loop builds it.
pub record Schema : Type 0 where
  pub required : List String
  pub properties : Dict Value

abbrev pub add_schema : String → Option Fields → Schema → Schema
add_schema k none schema = schema
add_schema k (some s) schema = record {
  properties = put k (obj s) schema.properties;
  required = if is_some (get "default" s) then schema.required else schema.required ++ k ∷ [];
}

unfoldable pub schema_of : Dict Crossform → Schema → Schema
schema_of [] schema = schema
schema_of ((k, v) ∷ inputs) schema = schema_of inputs (add_schema k v.schema schema)

abbrev pub no_schema : Schema
no_schema = record { required = []; properties = [] }

abbrev pub items_of : List String → Items → Items
items_of [] acc = acc
items_of (s ∷ ss) acc = items_of ss (add_item acc (str s))

abbrev pub schema_value : Schema → Fields
schema_value schema = of_entries (
    ("type", str "object")
    ∷ ("required", arr (items_of schema.required no_items))
    ∷ ("properties", obj (of_entries schema.properties))
    ∷ [])

-- `if err != nil { return err }`
abbrev pub and_then : {A : Type 0} → String ⊎ A → (A → Option String) → Option String
and_then (inl e) next = some e
and_then (inr a) next = next a

abbrev pub inputs_url : String
inputs_url = "https://crossform.io/inputs"

module _ {C S : Type 0} (schemas : SchemaHost C S) where
  unfoldable pub validate_inputs : Dict Crossform → Fields → Option String
  validate_inputs inputs input =
      and_then (schemas.marshal (schema_value (schema_of inputs no_schema))) λ json.
        and_then (schemas.add_resource inputs_url json) λ compiler.
          and_then (schemas.compile compiler inputs_url) λ sch. schemas.validate sch input

  -- `*jsonnetExecutor` as a `genericExecutor`
  abbrev pub jsonnet_executor : JsonnetHost → JsonnetExecutor → GenericExecutor
  jsonnet_executor host e = record {
    get_file_names = keys e.tables.fields;
    get_fields = λ file. list_of (lookup file e.tables.fields);
    get_metadata_object = λ file field. lookup (field_path file field) e.tables.metadata;
    get_crossform_object = get_crossform host e.vm;
    validate_inputs = validate_inputs;
    get_resource = get_resource host e.vm;
  }

  -- `newJsonnetExecutor`
  unfoldable pub new_jsonnet : JsonnetHost → String → Inputs → Outcome (Option GenericExecutor)
  new_jsonnet host path i = do
    made ← new_jsonnet_executor host path i
    elim made [ none ↦ ok none | some e ↦ ok (some (jsonnet_executor host e)) ]
