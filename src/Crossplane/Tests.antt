-- ===== src/Crossplane/Tests.antt =====
-- Small runs of the composition function.
use crossform.Common.{String, ◌≡◌, refl, true, false, Option, none, some, List, [], ◌∷◌, inl, elem}
use crossform.Common.Dict.{Dict, lookup, map_option}
use crossform.Common.Json.{str, bool, obj, Fields, end, field, get}
use crossform.Common.Outcome.{Outcome, ok, fail}
use crossform.Executor.Types.{ready_unspecified, DesiredComposed, ExecResult, new_exec_result}
use crossform.Crossplane.Clean.{clean}
use crossform.Crossplane.Cleaned.{IsCleanMetadata}
use crossform.Crossplane.Response.{RunFunctionResponse, Severity, normal, warning}
use crossform.Crossplane.Function.{finish, run_function}
use crossform.Crossplane.Desired.{clean_desired}
use crossform.Crossplane.Asked.{choice}
use crossform.Crossplane.Taken.{AreOthers, desired_of-takes, desired_of-panics}
use crossform.Crossplane.Desired.{desired_of}
use crossform.Common.Outcome.{panic}
use crossform.Common.{false}
use crossform.Common.{elem}
use crossform.Crossplane.Desired.{clean_desired}
use crossform.Crossplane.Critical.{observed_again, finish-critical}
use crossform.Crossplane.Answer.{IsStripped, finish-cleans, finish-flags}
use crossform.Crossplane.Samples.{
  services, accepts, bucket, clean_bucket_metadata, clean_bucket, observed, xr, program, repository,
  request, partial,
}

clean-bucket : clean bucket ≡ clean_bucket
unfolding program
clean-bucket = refl

-- The module failed: the bucket is asked for again.
finish-critical_example :
    (rsp : RunFunctionResponse) × (finish services "https://git" "main" observed xr
        (fail "no such file")
      ≡ ok rsp)
    × ((k : String) → lookup k rsp.desired_composed ≡ map_option observed_again (lookup k observed))
unfolding program
finish-critical_example =
    finish-critical services accepts "https://git" "main" observed xr (fail "no such file") refl
      (inl refl)

abbrev cleaned : DesiredComposed
cleaned = record { resource = clean_bucket; ready = ready_unspecified }

abbrev report : Fields
report =
    field "resources"
      (obj (field "later" (str "DEFERRED") (field "bucket" (str "ERROR:\nno such field") end)))
      (field "inputsValidation" (str "OK") end)

abbrev composite : Fields
composite = field "apiVersion" (str "example.org/v1") (
    field "kind" (str "Site") (
      field "status"
        (obj (
          field "hasErrors" (bool true) (
            field "report" (obj report)
              (field "repository" (obj repository) (field "outputs" (obj end) end)))))
        end))

abbrev finished : Outcome RunFunctionResponse
finished = finish services "https://git" "main" observed xr (ok partial)

-- What a response says, without its messages.
abbrev composite_of : Outcome RunFunctionResponse → Option Fields
composite_of (ok rsp) = rsp.desired_composite
composite_of _ = none

abbrev composed_of : Outcome RunFunctionResponse → Dict DesiredComposed
composed_of (ok rsp) = rsp.desired_composed
composed_of _ = []

finish-composite : composite_of finished ≡ some composite
unfolding program
finish-composite = refl

finish-composed : composed_of finished ≡ ("bucket", cleaned) ∷ []
unfolding program
finish-composed = refl

abbrev messages : String
messages =
    "Inputs validation: OK\nResource later DEFERRED\nResource bucket OK\nResource bucket ERROR:\nno such field"

abbrev response : RunFunctionResponse
response = record {
  results = (normal, messages) ∷ [];
  desired_composite = some composite;
  desired_composed = ("bucket", cleaned) ∷ [];
  requirements = none;
}

finish-partial : finished ≡ ok response
unfolding program
finish-partial = refl

finish-cleans_example :
    (get "status" cleaned.resource ≡ none) × IsCleanMetadata clean_bucket_metadata
unfolding program
finish-cleans_example =
    finish-cleans services "https://git" "main" observed xr (ok partial) response "bucket" cleaned
      clean_bucket_metadata finish-partial refl refl

finish-flags_example : IsStripped true composite
unfolding program
finish-flags_example =
    finish-flags services "https://git" "main" observed xr (ok partial) response composite
      finish-partial refl

-- A composite among the desired resources ends the program.
abbrev own : DesiredComposed
own = record {
  resource =
      field "apiVersion" (str "example.org/v1")
        (field "kind" (str "Site") (field "metadata" (obj (field "name" (str "site") end)) end));
  ready = ready_unspecified;
}

abbrev describing : ExecResult
describing = record new_exec_result { desired = ("new", cleaned) ∷ ("self", own) ∷ [] }

desired_of-panics_example : desired_of observed false describing xr ≡ panic
unfolding program
desired_of-panics_example = desired_of-panics observed describing xr "self" own refl refl

-- An execution that failed is reported as a warning, after the one that the changes are disabled.
abbrev results_of : Outcome RunFunctionResponse → List (Severity × String)
results_of (ok rsp) = rsp.results
results_of _ = []

run_function-failed :
    results_of (run_function services request)
    ≡ (warning, "execution critical error, changes disabled")
      ∷ (warning, "Inputs validation: OK\nResource bucket OK")
      ∷ []
unfolding program
run_function-failed = refl

-- The bucket is deferred in this run.
abbrev deferring : ExecResult
deferring = record new_exec_result { desired = ("other", cleaned) ∷ []; deferred = "bucket" ∷ [] }

abbrev asked : Dict DesiredComposed
asked = ("other", cleaned) ∷ ("bucket", cleaned) ∷ []

desired_of-takes_example :
    ((k : String)
      → lookup k asked
        ≡ map_option clean_desired
            (choice (elem k deferring.deferred) (lookup k observed) (lookup k deferring.desired)))
    × (xr ≡ xr)
    × (false ≡ false → AreOthers xr asked)
unfolding program
desired_of-takes_example = desired_of-takes observed false deferring xr xr asked refl
