-- ===== src/Crossplane/Report.antt =====
-- pkg/crossplane/report.go: the report on a run. A `fmt.Sprintf` is the text that it makes.
use Prim.Native.String.{◌++◌ as ◌+++◌}
use crossform.Common.{
  String, Bool, true, false, Option, none, some, List, [], ◌∷◌, ◌++◌, ◌==◌, if◌then◌else◌, is_empty,
}
use crossform.Common.Dict.{Dict, put, map_values}
use crossform.Common.Json.{Value, str, obj, Fields, of_entries}
use crossform.Executor.Types.{ExecResult}
use crossform.Executor.Exec.{fold}

pub record ReportItem : Type 0 where
  pub typ : String
  pub id : String
  pub deferred : Bool
  pub error : Option String

unfoldable pub status : ReportItem → String
status i = elim i.error [
  | some e ↦ "ERROR:\n" +++ e
  | none ↦ if i.deferred then "DEFERRED" else "OK"
]

unfoldable pub item_string : ReportItem → String
unfolding status
item_string i = i.typ +++ " " +++ i.id +++ " " +++ status i

pub record Report : Type 0 where
  pub resources : Dict String
  pub requests : Dict String
  pub outputs : Dict String
  pub inputs : Dict String
  pub inputs_validation : String
  pub critical_error : String
  pub items : List ReportItem

abbrev pub item : String → String → Option String → Bool → ReportItem
item typ id error deferred = record { typ = typ; id = id; deferred = deferred; error = error }

-- The bodies of the loops, one for each map of the report.
abbrev pub report_request : String → Option String → Report → Report
report_request k error r =
    let i = item "Request" k error false in
    record r { items = r.items ++ i ∷ []; requests = put k (status i) r.requests }

abbrev pub report_resource : String → Option String → Bool → Report → Report
report_resource k error deferred r =
    let i = item "Resource" k error deferred in
    record r { items = r.items ++ i ∷ []; resources = put k (status i) r.resources }

abbrev pub report_output : String → Option String → Report → Report
report_output k error r =
    let i = item "Output" k error false in
    record r { items = r.items ++ i ∷ []; outputs = put k (status i) r.outputs }

abbrev pub report_input : String → Option String → Report → Report
report_input k error r =
    let i = item "Input" k error false in
    record r { items = r.items ++ i ∷ []; inputs = put k (status i) r.inputs }

unfoldable pub report_deferred : List String → Report → Report
report_deferred [] r = r
report_deferred (k ∷ ks) r = report_deferred ks (report_resource k none true r)

abbrev pub or_ok : Option String → String
or_ok none = "OK"
or_ok (some e) = e

abbrev pub empty_report : Option String → Report
empty_report invalid = record {
  resources = [];
  requests = [];
  outputs = [];
  inputs = [];
  inputs_validation = or_ok invalid;
  critical_error = "";
  items = [];
}

-- The loops of `newReport`, by what they report on.
unfoldable pub report_requests : ExecResult → Report → Report
report_requests result r =
    let listed = fold (λ k v r. report_request k none r) result.request r in
    fold (λ k e r. report_request k (some e) r) result.request_errors listed

unfoldable pub report_resources : ExecResult → Report → Report
report_resources result r =
    let deferred = report_deferred result.deferred r in
    let listed = fold (λ k v r. report_resource k none false r) result.desired deferred in
    fold (λ k e r. report_resource k (some e) false r) result.desired_errors listed

unfoldable pub report_outputs : ExecResult → Report → Report
report_outputs result r =
    let listed = fold (λ k v r. report_output k none r) result.outputs r in
    fold (λ k e r. report_output k (some e) r) result.outputs_errors listed

unfoldable pub report_inputs : ExecResult → Report → Report
report_inputs result r =
    let listed = fold (λ k v r. report_input k none r) result.inputs r in
    fold (λ k e r. report_input k (some e) r) result.inputs_errors listed

unfoldable pub new_report : ExecResult → String → Report
new_report result critical_error =
    let empty = empty_report result.inputs_validation_error in
    let all =
      report_inputs result
        (report_outputs result (report_resources result (report_requests result empty))) in
    record all { critical_error = critical_error }

-- strings.Join
unfoldable pub join : String → List String → String
join sep [] = ""
join sep (s ∷ []) = s
join sep (s ∷ t ∷ rest) = s +++ sep +++ join sep (t ∷ rest)

unfoldable pub item_strings : List ReportItem → List String
unfolding item_string
item_strings [] = []
item_strings (i ∷ is) = item_string i ∷ item_strings is

-- `report.String`
unfoldable pub report_string : Report → String
unfolding join item_strings
report_string r =
    "Inputs validation: " +++ r.inputs_validation +++ "\n" +++ join "\n" (item_strings r.items)

-- `report.Map`: the fields by their JSON names, without those that are empty. Neither of the two
-- conversions can fail on such a value.
abbrev pub map_entry : String → Dict String → Dict Value
map_entry k m = if is_empty m then [] else (k, obj (of_entries (map_values str m))) ∷ []

abbrev pub text_entry : String → String → Dict Value
text_entry k s = if s == "" then [] else (k, str s) ∷ []

unfoldable pub report_map : Report → Fields
unfolding of_entries map_values
report_map r = of_entries (
    map_entry "resources" r.resources
    ++ (map_entry "requests" r.requests
        ++ (map_entry "outputs" r.outputs
            ++ (map_entry "inputs" r.inputs
                ++ (text_entry "inputsValidation" r.inputs_validation
                    ++ text_entry "criticalError" r.critical_error)))))
