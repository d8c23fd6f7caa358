-- ===== src/Crossplane/Printed.antt =====
-- The report in the status of the composite says the same as the report.
use crossform.Common.{
  String, ◌≡◌, refl, ap, ◌∙◌, false, Option, none, some, [], ◌∷◌, ◌++◌, arith, ◌==◌, ◌&&◌, not,
  is_empty, if◌then◌else◌,
}
use crossform.Common.Dict.{Dict, lookup, map_values, map_option, lookup-map_values}
use crossform.Common.Json.{Value, str, obj, Fields, get, of_entries, opt_obj, get-of_entries}
use crossform.Crossplane.Report.{Report, report_map, map_entry, text_entry}

-- What a section of the status says of an identifier.
abbrev pub entry_in : Option Fields → String → Option Value
entry_in none k = none
entry_in (some fs) k = get k fs

abbrev pub reported : String → String → Fields → Option Value
reported section k fs = entry_in (opt_obj (get section fs)) k

abbrev entry_at : Option Value → String → Option Value
entry_at v k = entry_in (opt_obj v) k

lookup-map_entry :
    (j section : String) (m : Dict String) (rest : Dict Value)
    → lookup j (map_entry section m ++ rest) ≡ (
        if is_empty m
        then lookup j rest
        else if section == j
        then some (obj (of_entries (map_values str m)))
        else lookup j rest)
unfolding lookup
lookup-map_entry j section [] rest = refl
lookup-map_entry j section (e ∷ m) rest = refl

lookup-text_entry :
    (j section text : String) (rest : Dict Value)
    → (section == j) ≡ false
    → lookup j (text_entry section text ++ rest) ≡ lookup j rest
unfolding lookup
lookup-text_entry j section text rest other = ground arith

-- The section, if it has entries.
abbrev section_of : Dict String → Option Value
section_of m = if is_empty m then none else some (obj (of_entries (map_values str m)))

reported-section_of :
    (m : Dict String) (k : String) → entry_at (section_of m) k ≡ map_option str (lookup k m)
unfolding lookup
reported-section_of [] k = refl
reported-section_of (e ∷ m) k =
    get-of_entries k (map_values str (e ∷ m)) ∙ lookup-map_values str k (e ∷ m)

-- The texts at the end are in no section.
lookup-texts :
    (j : String) (r : Report)
    → ("inputsValidation" == j) ≡ false
    → ("criticalError" == j) ≡ false
    → lookup j (
        text_entry "inputsValidation" r.inputs_validation
        ++ text_entry "criticalError" r.critical_error)
      ≡ none
unfolding lookup
lookup-texts j r p q = ground arith

get-report_map :
    (j : String) (r : Report)
    → ("inputsValidation" == j) ≡ false
    → ("criticalError" == j) ≡ false
    → get j (report_map r) ≡ (
        if "resources" == j && not (is_empty r.resources)
        then section_of r.resources
        else if "requests" == j && not (is_empty r.requests)
        then section_of r.requests
        else if "outputs" == j && not (is_empty r.outputs)
        then section_of r.outputs
        else if "inputs" == j && not (is_empty r.inputs)
        then section_of r.inputs
        else none)
unfolding report_map
get-report_map j r p q =
    let texts =
      text_entry "inputsValidation" r.inputs_validation
      ++ text_entry "criticalError" r.critical_error in
    let inputs = map_entry "inputs" r.inputs ++ texts in
    let outputs = map_entry "outputs" r.outputs ++ inputs in
    let requests = map_entry "requests" r.requests ++ outputs in
    get-of_entries j (map_entry "resources" r.resources ++ requests)
    ∙ ground (
      arith,
      lookup-map_entry j "resources" r.resources requests,
      lookup-map_entry j "requests" r.requests outputs,
      lookup-map_entry j "outputs" r.outputs inputs,
      lookup-map_entry j "inputs" r.inputs texts,
      lookup-texts j r p q,
    )

reported_by :
    (section : String) (m : Dict String) (k : String) (fs : Fields)
    → get section fs ≡ (if not (is_empty m) then section_of m else none)
    → reported section k fs ≡ map_option str (lookup k m)
unfolding lookup
reported_by section [] k fs h = ap (λ v. entry_at v k) h
reported_by section (e ∷ m) k fs h = ap (λ v. entry_at v k) h ∙ reported-section_of (e ∷ m) k

-- What the report has on a resource, a request, an output or an input is what the map that goes into
-- the status has on it, as a text; an empty section is left out there.
pub report_map-reported :
    (r : Report) (k : String)
    → (reported "resources" k (report_map r) ≡ map_option str (lookup k r.resources))
      × (reported "requests" k (report_map r) ≡ map_option str (lookup k r.requests))
      × (reported "outputs" k (report_map r) ≡ map_option str (lookup k r.outputs))
      × (reported "inputs" k (report_map r) ≡ map_option str (lookup k r.inputs))
report_map-reported r k = (
  reported_by "resources" r.resources k (report_map r) (get-report_map "resources" r refl refl),
  reported_by "requests" r.requests k (report_map r) (get-report_map "requests" r refl refl),
  reported_by "outputs" r.outputs k (report_map r) (get-report_map "outputs" r refl refl),
  reported_by "inputs" r.inputs k (report_map r) (get-report_map "inputs" r refl refl),
)
