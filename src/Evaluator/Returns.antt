-- ===== src/Evaluator/Returns.antt =====
-- A jsonnet module on a VM that does not panic: the evaluator keeps what the executor relies on.
use crossform.Common.{String, ◌≡◌, ◌≢◌, Bool, some, arith, inl, inr}
use crossform.Common.Dict.{Dict}
use crossform.Common.Outcome.{ok, panic, ◌>>=◌, Outcome-cases}
use crossform.Executor.New.{Inputs}
use crossform.Executor.Interface.{GenericExecutor, IsComplete}
use crossform.Executor.File.{FileResult, exec_file}
use crossform.Executor.Total.{exec_file-returns}
use crossform.Evaluator.Jsonnet.{
  JsonnetHost, JsonnetExecutor, get_crossform, get_resource, crossform_snippet, field_snippet,
}
use crossform.Evaluator.Schema.{SchemaHost, jsonnet_executor, new_jsonnet}
use crossform.Evaluator.Complete.{AreFilled, Made, made, new_jsonnet-Made}

-- The VM and `json.Unmarshal` answer with a value or an error.
pub record IsCalm (host : JsonnetHost) : Type 0 where
  pub evaluate : (vm : Dict String) (snippet : String) → host.evaluate vm snippet ≢ panic
  pub decode_crossform : (json : String) → host.decode_crossform json ≢ panic
  pub decode_object : (json : String) → host.decode_object json ≢ panic

module _ (host : JsonnetHost) (calm : IsCalm host) (vm : Dict String) where
  get_crossform-calm : (file field : String) → get_crossform host vm file field ≢ panic
  unfolding get_crossform ◌>>=◌
  get_crossform-calm file field h =
      let snippet = crossform_snippet file field in
      elim (Outcome-cases (host.evaluate vm snippet)) [
        | inl (json, p) ↦ ground (arith, calm.decode_crossform json)
        | inr stopped ↦ ground (arith, calm.evaluate vm snippet)
      ]

  get_resource-calm : (file field : String) → get_resource host vm file field ≢ panic
  unfolding get_resource ◌>>=◌
  get_resource-calm file field h = elim (Outcome-cases (get_crossform host vm file field)) [
    | inl (c, p) ↦
        let snippet = field_snippet file field in
        elim (Outcome-cases (host.evaluate vm snippet)) [
          | inl (json, q) ↦ ground (arith, calm.decode_object json)
          | inr stopped ↦ ground (arith, calm.evaluate vm snippet)
        ]
    | inr stopped ↦ ground (arith, get_crossform-calm file field)
  ]

module _ {C S : Type 0} (schemas : SchemaHost C S) (host : JsonnetHost) (calm : IsCalm host) where
  jsonnet_executor-IsComplete :
      (e : JsonnetExecutor) → AreFilled e.tables → IsComplete (jsonnet_executor schemas host e)
  jsonnet_executor-IsComplete e filled = record {
    described = filled.at;
    object = get_crossform-calm host calm e.vm;
    resource = get_resource-calm host calm e.vm;
  }

  Made-IsComplete : (e : GenericExecutor) → Made IsComplete (some e) → IsComplete e
  Made-IsComplete e (made e' h) = h

  -- If the jsonnet VM and the decoding of JSON end in a value or an error, then the executor's pass
  -- over any file, with the evaluator that `newJsonnetExecutor` made, always returns a result,
  -- whatever the module holds.
  pub new_jsonnet-exec_file :
      (path : String) (i : Inputs) (e : GenericExecutor) (evaluate : Bool) (file : String)
      → new_jsonnet schemas host path i ≡ ok (some e)
      → (r : FileResult) × (exec_file e evaluate file ≡ ok r)
  new_jsonnet-exec_file path i e evaluate file h =
      let m =
        (new_jsonnet-Made schemas host IsComplete jsonnet_executor-IsComplete path i).at _ h in
      exec_file-returns e (Made-IsComplete e m) evaluate file
