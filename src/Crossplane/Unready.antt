-- ===== src/Crossplane/Unready.antt =====
-- A run for a module whose repository the manager does not have, or has not cloned yet.
use crossform.Common.{String, ◌≡◌, refl, false, some, List, ◌⊎◌, inl, inr, arith}
use crossform.Common.Dict.{Dict, lookup, map_option}
use crossform.Common.Json.{str, obj, Fields, get}
use crossform.Common.Outcome.{Outcome, ok, fail, ◌>>=◌}
use crossform.Executor.Types.{ExecCommand, ExecResult, ObservedComposed}
use crossform.Repo.State.{Repo}
use crossform.Repo.Work
use crossform.Manager.State.{Manager, get_repo}
use crossform.Manager.Execute.{execute}
use crossform.Crossplane.Response.{RunFunctionResponse}
use crossform.Crossplane.Status.{name_of, xr_status, strip_xr}
use crossform.Crossplane.Function.{Services, run_function}
use crossform.Crossplane.Critical.{Accepts, HasPlainRepository, observed_again, finish-critical}

-- What the manager's `Execute` leaves of the observed resources: only an executor that runs changes
-- them.
abbrev left_of : Outcome (Dict ObservedComposed) → Dict ObservedComposed → Dict ObservedComposed
left_of (ok left) observed = left
left_of _ observed = observed

-- The function with a manager: `run` is `executor.Execute`, with what it leaves.
abbrev pub managed :
    {R : Type 0}
    → (String → String)
    → (String → ExecCommand → Outcome ExecResult × Dict ObservedComposed)
    → Manager R
    → Services
    → Services
managed md5_hex run m services = record services {
  execute = λ cmd. (
    execute md5_hex (λ path task. (run path task).0) cmd m,
    left_of (execute md5_hex (λ path task. ok (run path task).1) cmd m) cmd.observed,
  );
}

-- The manager has no repository for the module, or one that is not initialized.
abbrev pub IsUnready : {R : Type 0} → (String → String) → String → String → Manager R → Type 0
IsUnready {R} md5_hex url revision m =
    ((e : String) × (get_repo md5_hex url revision m ≡ fail e))
    ⊎ ((r : Repo R) × (get_repo md5_hex url revision m ≡ ok r) × (r.status.is_initialized ≡ false))

execute-unready :
    {R A : Type 0} (md5_hex : String → String) (m : Manager R) (cmd : ExecCommand)
    (run : String → ExecCommand → Outcome A)
    → IsUnready md5_hex cmd.repository_url cmd.repository_revision m
    → (e : String) × (execute md5_hex run cmd m ≡ fail e)
unfolding execute Work.execute ◌>>=◌
execute-unready md5_hex m cmd run (inl (e, p)) = (e, ground arith)
execute-unready md5_hex m cmd run (inr (r, p, q)) = ("repository not initialized", ground arith)

-- A request whose composite names a module whose repository is unknown to the manager, or not cloned
-- yet, is answered, and the answer asks for exactly the observed resources, each as it was observed
-- (and cleaned). This holds if the setters accept the response and the composite has a map, or
-- nothing, as the repository in its status.
pub run_function-unready :
    {R : Type 0} (md5_hex : String → String)
    (run : String → ExecCommand → Outcome ExecResult × Dict ObservedComposed) (m : Manager R)
    (services : Services) (repository revision path context : String) (xr spec : Fields)
    (requested : Dict (List Fields)) (observed : Dict ObservedComposed)
    → Accepts services
    → IsUnready md5_hex repository revision m
    → get "spec" xr ≡ some (obj spec)
    → get "repository" spec ≡ some (str repository)
    → get "revision" spec ≡ some (str revision)
    → get "path" spec ≡ some (str path)
    → HasPlainRepository (xr_status (strip_xr xr))
    → (rsp : RunFunctionResponse) × (run_function (managed md5_hex run m services) (record {
      desired = ok tt;
      context_json = ok context;
      xr = ok xr;
      requested = ok requested;
      observed = ok observed;
    })
        ≡ ok rsp)
      × ((k : String)
          → lookup k rsp.desired_composed ≡ map_option observed_again (lookup k observed))
unfolding run_function ◌>>=◌
run_function-unready md5_hex run m services repository revision path context xr spec requested
      observed accepts unready s r v p plain =
    let cmd : ExecCommand = record {
      repository_url = repository;
      repository_revision = revision;
      path = path;
      observed = observed;
      requested = requested;
      module_name = name_of xr;
      xr = xr;
      context = context;
    } in
    let (e, failed) = execute-unready md5_hex m cmd (λ dir task. (run dir task).0) unready in
    let (e', unchanged) = execute-unready md5_hex m cmd (λ dir task. ok (run dir task).1) unready in
    let (rsp, answers, again) =
      finish-critical (managed md5_hex run m services)
        (record { composite = accepts.composite; composed = accepts.composed }) repository revision
        observed xr (fail e) refl plain in
    (rsp, rw (s, r, v, p, failed, unchanged) answers, again)
