-- ===== src/Executor/Details.antt =====
-- What `NewExecutor` does to the observed resources, and what a whole run keeps of them.
use crossform.Common.{
  String, subst, ◌≡◌, refl, Bool, true, false, Option, some, [], ◌∷◌, arith, ◌==◌, is_empty,
  if◌then◌else◌, Bool-cases, inl, inr,
}
use crossform.Common.Dict.{Dict, lookup, has}
use crossform.Common.Json.{obj, Fields, get, set, get-set}
use crossform.Common.Outcome.{Outcome, ok, ◌>>=◌, bind-eq-ok, Outcome-cases}
use crossform.Executor.Types.{ObservedComposed, ExecCommand, ExecResult}
use crossform.Executor.Interface.{GenericExecutor}
use crossform.Executor.Exec.{keep_observed}
use crossform.Executor.Kept.{exec-keeps}
use crossform.Executor.New.{
  Inputs, add_details, add_all_details, details_value, with_details, status_or_new, new_executor,
  execute_at,
}

-- An observed resource before and after: the details are in its status, if there are any, beside
-- what was there, and nothing outside of its status differs.
abbrev pub Detailed : Bool → ObservedComposed → ObservedComposed → Type 0
Detailed true o o' = o' ≡ o
Detailed false o o' =
    (o'.connection_details ≡ o.connection_details)
    × ((st : Fields) × (status_or_new (get "status" o.resource) ≡ ok st)
        × ((k : String)
            → get k o'.resource ≡ (
                if "status" == k
                then some (obj (set "connectionDetails" (details_value o) st))
                else get k o.resource)))

add_details-Detailed :
    (o o' : ObservedComposed)
    → add_details o ≡ ok o'
    → Detailed (is_empty o.connection_details) o o'
unfolding add_details ◌>>=◌
add_details-Detailed o o' h = elim (Bool-cases (is_empty o.connection_details)) [
  | inl bare ↦ rw bare (ground arith)
  | inr details ↦ elim (Outcome-cases (status_or_new (get "status" o.resource))) [
    | inl (st, p) ↦
        let now = obj (set "connectionDetails" (details_value o) st) in
        let same : o' ≡ with_details st o = ground arith in
        rw details (rw same (refl, (st, p, λ k. get-set "status" k now o.resource)))
    | inr stopped ↦ absurd (ground arith)
  ]
]

lookup-add_all_details :
    (observed observed' : Dict ObservedComposed) (k : String) (o : ObservedComposed)
    → add_all_details observed ≡ ok observed'
    → lookup k observed ≡ some o
    → (o' : ObservedComposed) × (lookup k observed' ≡ some o')
      × Detailed (is_empty o.connection_details) o o'
unfolding add_all_details lookup ◌>>=◌
lookup-add_all_details [] observed' k o h p = absurd (ground arith)
lookup-add_all_details ((j, v) ∷ observed) observed' k o h p =
    let (v', first, rest) = bind-eq-ok (add_details v) _ h in
    let (tail, q, e) = bind-eq-ok (add_all_details observed) _ rest in
    elim (Bool-cases (j == k)) [
      | inl same ↦
          let here : v ≡ o = ground arith in
          (
            v',
            ground arith,
            subst (λ x. Detailed (is_empty x.connection_details) x v') here
                (add_details-Detailed v v' first),
          )
      | inr other ↦
          let (o', found, d) = lookup-add_all_details observed tail k o q (ground arith) in
          (o', ground arith, d)
    ]

module _ (missing : String → Option String) (marshal_map : Fields → Outcome String)
    (new_jsonnet new_cue : String → Inputs → Outcome (Option GenericExecutor)) where
  new_executor-observed :
      (cmd cmd' : ExecCommand) (path : String) (e : GenericExecutor)
      → new_executor missing marshal_map new_jsonnet new_cue cmd path ≡ ok (cmd', e)
      → add_all_details cmd.observed ≡ ok cmd'.observed
  unfolding new_executor ◌>>=◌
  new_executor-observed cmd cmd' path e h = ground arith

  -- If a run of the executor at a path succeeds, then a resource that failed, and which was observed,
  -- is still desired: as it was observed, but for its connection details, which are written into its
  -- status if there are any. No evaluator and no error of `json.Marshal` changes that.
  pub execute_at-keeps :
      (marshal_json : Fields → Outcome String) (path : String) (cmd : ExecCommand) (r : ExecResult)
      (k : String) (o : ObservedComposed)
      → execute_at missing marshal_map new_jsonnet new_cue marshal_json path cmd ≡ ok r
      → has k r.desired_errors ≡ true
      → lookup k cmd.observed ≡ some o
      → (o' : ObservedComposed) × (lookup k r.desired ≡ some (keep_observed o'))
        × Detailed (is_empty o.connection_details) o o'
  unfolding execute_at
  execute_at-keeps marshal_json path cmd r k o h failed seen =
      let ((cmd', e), made, run) =
        bind-eq-ok (new_executor missing marshal_map new_jsonnet new_cue cmd path) _ h in
      let (o', found, d) =
        lookup-add_all_details cmd.observed cmd'.observed k o
          (new_executor-observed cmd cmd' path e made) seen in
      (o', exec-keeps marshal_json cmd' e r k o' run failed found, d)
