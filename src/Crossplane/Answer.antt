-- ===== src/Crossplane/Answer.antt =====
-- What every answer of `RunFunction` satisfies once the module was executed.
use crossform.Common.{
  String, ◌≡◌, refl, subst, Bool, true, false, Option, none, some, arith, ◌==◌, ◌||◌, ◌&&◌, not,
  is_empty, Option-cases, inl, inr,
}
use crossform.Common.Dict.{
  Dict, lookup, remove, map_values, lookup-nil, lookup-remove, lookup-map_values,
}
use crossform.Common.Json.{
  Value, str, bool, obj, Fields, get, set, delete, get-set, get-delete, of_entries,
}
use crossform.Common.Outcome.{
  Outcome, ok, fail, panic, Ensures, Ensures-ok, Ensures-bind, Ensures-then,
}
use crossform.Executor.Types.{ExecResult, ObservedComposed, DesiredComposed}
use crossform.Repo.Status.{Status}
use crossform.Crossplane.Report.{Report, report_map}
use crossform.Crossplane.Clean.{clean}
use crossform.Crossplane.Cleaned.{IsCleanMetadata, clean-IsCleanMetadata}
use crossform.Crossplane.Response.{RunFunctionResponse}
use crossform.Common.{subst, sym}
use crossform.Crossplane.Taken.{take_composite-AreOthers}
use crossform.Crossplane.Desired.{clean_desired, is_critical, after_execute, desired_of}
use crossform.Crossplane.Status.{strip_xr, set_repository, status_of, has_errors}
use crossform.Crossplane.Function.{Services, respond, critical_warning, finish}

-- Every resource of a map was cleaned.
pub record IsCleaned (d : Dict DesiredComposed) : Type 0 where
  pub at :
      (k : String) (v : DesiredComposed)
      → lookup k d ≡ some v
      → (o : Fields) × (v.resource ≡ clean o)

map_values-IsCleaned : (d : Dict DesiredComposed) → IsCleaned (map_values clean_desired d)
map_values-IsCleaned d = record {
  at = λ k v h. elim (Option-cases (lookup k d)) [
    | inl absent ↦ absurd (ground (arith, lookup-map_values clean_desired k d))
    | inr (w, p) ↦ (w.resource, ground (arith, lookup-map_values clean_desired k d))
  ];
}

remove-IsCleaned : (j : String) (d : Dict DesiredComposed) → IsCleaned d → IsCleaned (remove j d)
remove-IsCleaned j d h = record { at = λ k v p. h.at k v (ground (arith, lookup-remove j k d)) }

desired_of-IsCleaned :
    (observed : Dict ObservedComposed) (is_fatal : Bool) (r : ExecResult) (xr : Fields)
    → Ensures
        (λ (t : Dict DesiredComposed × Fields). IsCleaned t.0)
        (desired_of observed is_fatal r xr)
unfolding desired_of
desired_of-IsCleaned observed true r xr = Ensures-ok _ (map_values-IsCleaned _)
desired_of-IsCleaned observed false r xr = record {
  at = λ t made.
      let (left, others) = take_composite-AreOthers _ xr t made in
      subst (λ (t : Dict DesiredComposed × Fields). IsCleaned t.0) (sym left)
        (map_values-IsCleaned _);
}

-- The answer has the desired resources, or none if a setter refused.
respond-composed_either :
    (services : Services) (is_fatal : Bool) (result : ExecResult) (report : Report)
    (d : Dict DesiredComposed) (xr : Fields)
    → IsCleaned d
    → IsCleaned
        (respond services is_fatal result report d xr
          (critical_warning services is_fatal)).desired_composed
respond-composed_either services is_fatal result report d xr h = record {
  at = λ k v p. h.at k v (ground (arith, lookup-nil {V = DesiredComposed} k));
}

abbrev repository_value : Status → Fields → Value
repository_value s rr = obj (
    set "ok" (bool (s.is_initialized && s.is_update_success))
      (set "commitSha" (str s.commit_sha) (set "message" (str s.message) rr)))

pub set_repository-get :
    (s : Option Status) (status : Fields) (k : String)
    → ("repository" == k) ≡ false
    → Ensures (λ out. get k out ≡ get k status) (set_repository s status)
unfolding set_repository
set_repository-get none status k e = Ensures-ok _ refl
set_repository-get (some s) status k e =
    Ensures-then _ _
      λ rr. Ensures-ok _ (ground (arith, get-set "repository" k (repository_value s rr) status))

-- The flag in the status of the composite, whatever else is written to it.
status_of-has_errors :
    (is_fatal : Bool) (result : ExecResult) (report : Report) (s : Option Status) (status : Fields)
    → Ensures
        (λ st. get "hasErrors" st ≡ some (bool (has_errors is_fatal result)))
        (status_of is_fatal result report s status)
unfolding status_of
status_of-has_errors is_fatal result report s status =
    let flag = bool (has_errors is_fatal result) in
    let flagged = set "hasErrors" flag status in
    let reported = set "report" (obj (report_map report)) flagged in
    Ensures-bind (λ out. get "hasErrors" out ≡ get "hasErrors" reported) _ _
      (set_repository-get s reported "hasErrors" refl)
      λ out p. Ensures-ok _ (
        ground (
          arith,
          get-set "outputs" "hasErrors" (obj (of_entries result.outputs)) out,
          get-set "report" "hasErrors" (obj (report_map report)) flagged,
          get-set "hasErrors" "hasErrors" flag status,
        ))

status_of-flag :
    (is_fatal flag : Bool) (result : ExecResult) (report : Report) (s : Option Status)
    (status : Fields)
    → has_errors is_fatal result ≡ flag
    → Ensures
        (λ st. get "hasErrors" st ≡ some (bool flag))
        (status_of is_fatal result report s status)
status_of-flag is_fatal flag result report s status same = record {
  at = λ st h. rw (← same) ((status_of-has_errors is_fatal result report s status).at st h);
}

-- Did anything go wrong, or was anything put off, in an execution?
abbrev pub had_errors : Outcome ExecResult → Bool
had_errors (ok r) =
    not (is_empty r.desired_errors)
    || (not (is_empty r.outputs_errors) || (is_critical r || not (is_empty r.deferred)))
had_errors _ = true

-- What an answer says of the composite.
pub record IsStripped (flag : Bool) (c : Fields) : Type 0 where
  pub metadata : get "metadata" c ≡ none
  pub spec : get "spec" c ≡ none
  pub flagged :
      (st : Fields) × (get "status" c ≡ some (obj st)) × (get "hasErrors" st ≡ some (bool flag))

after_execute-has_errors :
    (observed : Dict ObservedComposed) (executed : Outcome ExecResult)
    → Ensures
        (λ (t : Bool × String × ExecResult). has_errors t.0 t.2 ≡ had_errors executed)
        (after_execute observed executed)
unfolding after_execute
after_execute-has_errors observed (ok r) = Ensures-ok _ (ground arith)
after_execute-has_errors observed (fail e) = Ensures-ok _ refl
after_execute-has_errors observed panic = record { at = λ t h. cc }

strip_xr-IsStripped :
    (xr st : Fields) (flag : Bool)
    → get "hasErrors" st ≡ some (bool flag)
    → IsStripped flag (set "status" (obj st) (strip_xr xr))
strip_xr-IsStripped xr st flag h =
    let bare = delete "metadata" xr in
    record {
      metadata = ground (
        arith,
        get-set "status" "metadata" (obj st) (strip_xr xr),
        get-delete "spec" "metadata" bare,
        get-delete "metadata" "metadata" xr,
      );
      spec =
          ground
            (arith, get-set "status" "spec" (obj st) (strip_xr xr), get-delete "spec" "spec" bare);
      flagged = (st, ground (arith, get-set "status" "status" (obj st) (strip_xr xr)), h);
    }

abbrev pub Answers : Bool → RunFunctionResponse → Type 0
Answers flag rsp =
    IsCleaned rsp.desired_composed
    × ((c : Fields) → rsp.desired_composite ≡ some c → IsStripped flag c)

respond-Answers :
    (services : Services) (is_fatal flag : Bool) (result : ExecResult) (report : Report)
    (d : Dict DesiredComposed) (xr : Fields)
    → IsCleaned d
    → IsStripped flag xr
    → Answers flag
        (respond services is_fatal result report d xr (critical_warning services is_fatal))
respond-Answers services is_fatal flag result report d xr clean stripped = (
  respond-composed_either services is_fatal result report d xr clean,
  λ c p. subst (IsStripped flag) {x = xr} {y = c} (ground arith) stripped,
)

module _ (services : Services) (repository revision : String) (observed : Dict ObservedComposed)
    (xr : Fields) where
  finish-Answers :
      (executed : Outcome ExecResult)
      → Ensures
          (Answers (had_errors executed))
          (finish services repository revision observed xr executed)
  unfolding finish
  finish-Answers executed =
      Ensures-bind (λ (t : Bool × String × ExecResult). has_errors t.0 t.2 ≡ had_errors executed) _
        _ (after_execute-has_errors observed executed)
        λ (is_fatal, critical_error, r) same.
          Ensures-bind (λ (t : Dict DesiredComposed × Fields). IsCleaned t.0) _ _
            (desired_of-IsCleaned observed is_fatal r xr)
            λ (d, xr') cleaned.
              Ensures-bind (λ st. get "hasErrors" st ≡ some (bool (had_errors executed))) _ _
                (status_of-flag is_fatal _ _ _ _ _ same)
                λ st flag. Ensures-ok _ (
                  respond-Answers services is_fatal _ (record r { desired = d }) _ d _ cleaned
                    (strip_xr-IsStripped xr' st _ flag))

  -- If `RunFunction` answers after an execution, then no desired resource whose metadata is a map has
  -- a status, and its metadata has no field of the API server and no label or annotation that
  -- Crossplane reserves. So the connection details, which the executor puts into the status of an
  -- observed resource, are asked for in no such resource.
  pub finish-cleans :
      (executed : Outcome ExecResult) (rsp : RunFunctionResponse) (k : String) (v : DesiredComposed)
      (md : Fields)
      → finish services repository revision observed xr executed ≡ ok rsp
      → lookup k rsp.desired_composed ≡ some v
      → get "metadata" v.resource ≡ some (obj md)
      → (get "status" v.resource ≡ none) × IsCleanMetadata md
  finish-cleans executed rsp k v md h found is_map =
      let (o, p) = ((finish-Answers executed).at rsp h).0.at k v found in
      rw p (clean-IsCleanMetadata o md (rw p at is_map))

  -- If `RunFunction` answers after an execution and sets the composite, then the composite has neither
  -- metadata nor a specification, and its status says `hasErrors` exactly when the execution failed,
  -- a resource, an output, an input or a request was in error, the inputs were not valid, or a
  -- resource was deferred.
  pub finish-flags :
      (executed : Outcome ExecResult) (rsp : RunFunctionResponse) (c : Fields)
      → finish services repository revision observed xr executed ≡ ok rsp
      → rsp.desired_composite ≡ some c
      → IsStripped (had_errors executed) c
  finish-flags executed rsp c h = ((finish-Answers executed).at rsp h).1 c
