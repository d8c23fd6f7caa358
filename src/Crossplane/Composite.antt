-- ===== src/Crossplane/Composite.antt =====
-- pkg/crossplane/function.go: the loop of `RunFunction` that takes the composite resource out of the
-- desired resources.
use crossform.Common.{String, Bool, true, false, Option, none, some, ◌==◌, not, if◌then◌else◌}
use crossform.Common.Dict.{Dict}
use crossform.Common.Json.{Value, null, bool, num, str, arr, obj, Fields, end, get, opt_obj}
use crossform.Common.Outcome.{Outcome, ok, panic, ◌>>=◌}
use crossform.Executor.Types.{DesiredComposed}
use crossform.Executor.Exec.{each}

-- `a != b` on two values of `interface{}`, negated: it panics on two maps and on two lists.
unfoldable pub same_value : Value → Option Value → Outcome Bool
same_value null none = ok true
same_value null (some null) = ok true
same_value (bool true) (some (bool b)) = ok b
same_value (bool false) (some (bool b)) = ok (not b)
same_value (num a) (some (num b)) = ok (a == b)
same_value (str a) (some (str b)) = ok (a == b)
same_value (arr a) (some (arr b)) = panic
same_value (obj a) (some (obj b)) = panic
same_value _ _ = ok false

abbrev pub opt_fields : Option Fields → Fields
opt_fields none = end
opt_fields (some fs) = fs

-- Does a desired resource describe the composite itself: the same version, kind and name?
unfoldable pub is_composite : Fields → Fields → Outcome Bool
unfolding same_value ◌>>=◌
is_composite object xr = elim (get "apiVersion" object) [
  | none ↦ ok false
  | some api_version ↦ elim (get "kind" object) [
    | none ↦ ok false
    | some kind ↦ elim (opt_obj (get "metadata" object)) [
      | none ↦ ok false
      | some metadata ↦ elim (get "name" metadata) [
        | none ↦ ok false
        | some name ↦ do
          same_version ← same_value api_version (get "apiVersion" xr)
          if same_version
              then (do
                same_kind ← same_value kind (get "kind" xr)
                if same_kind
                    then same_value name (get "name" (opt_fields (opt_obj (get "metadata" xr))))
                    else ok false)
              else ok false
      ]
    ]
  ]
]

-- `x := resource.Composite{}; x.Resource.Object = …`: the new composite's `Resource` is a nil
-- pointer, so that the round for the composite panics where it writes through it.
abbrev pub take_if : Bool → Dict DesiredComposed × Fields → Outcome (Dict DesiredComposed × Fields)
take_if true s = panic
take_if false s = ok s

-- One round of the loop that takes the composite out of the desired resources.
abbrev pub take_round :
    String
    → DesiredComposed
    → Dict DesiredComposed × Fields
    → Outcome (Dict DesiredComposed × Fields)
take_round k v (desired, xr) = do same ← is_composite v.resource xr; take_if same (desired, xr)

unfoldable pub take_composite :
    Dict DesiredComposed → Fields → Outcome (Dict DesiredComposed × Fields)
take_composite desired xr = each take_round desired (desired, xr)
