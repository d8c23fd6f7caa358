-- ===== src/Executor/Accounts.antt =====
-- What `execFile` makes of the fields of a file: which identifiers stand in its results.
use crossform.Common.{
  String, ◌≡◌, ap, Bool, true, false, ◌||◌, ◌&&◌, Option, none, some, List, [], ◌∷◌, arith, eq_iff,
  ◌==◌, elem, elem-append, inl, inr, Bool-cases, Option-cases,
}
use crossform.Common.Dict.{Dict, lookup, put, has, lookup-put}
use crossform.Common.Outcome.{ok, ◌>>=◌, Outcome-cases}
use crossform.Executor.Types.{Metadata}
use crossform.Executor.Interface.{GenericExecutor}
use crossform.Executor.File.{FileResult, no_results, dispatch, exec_field, exec_fields, exec_file}

-- Does the metadata give the type and the identifier?
abbrev pub gives : String → String → Option Metadata → Bool
gives type k none = false
gives type k (some m) = m.type == type && m.id == k

-- Is the identifier somewhere in the results on resources, requests, outputs or inputs?
abbrev pub in_resources : String → FileResult → Bool
in_resources k r = has k r.resources || (has k r.resources_errs || elem k r.resources_deferred)

abbrev pub in_requests : String → FileResult → Bool
in_requests k r = has k r.requests || has k r.requests_errs

abbrev pub in_outputs : String → FileResult → Bool
in_outputs k r = has k r.outputs || has k r.outputs_errs

abbrev pub in_inputs : String → FileResult → Bool
in_inputs k r = has k r.inputs || has k r.inputs_errs

has-put : {V : Type 0} (k j : String) (v : V) (m : Dict V) → has j (put k v m) ≡ (k == j || has j m)
has-put k j v m = ground (arith, lookup-put k j v m)

-- What a type is not, if it is known.
is_not :
    (type known : String)
    → (type == known) ≡ true
    → ((type == "resource") ≡ (known == "resource"))
      × ((type == "request") ≡ (known == "request"))
      × ((type == "output") ≡ (known == "output"))
is_not type known h =
    let same = (eq_iff type known).0 h in
    (
      ap (λ (t : String). t == "resource") same,
      ap (λ (t : String). t == "request") same,
      ap (λ (t : String). t == "output") same,
    )

module _ (e : GenericExecutor) (file : String) where
  -- Does a field of the list have the type and the identifier?
  abbrev pub asks : String → String → List String → Bool
  asks type k [] = false
  asks type k (name ∷ names) = gives type k (e.get_metadata_object file name) || asks type k names

  module _ (k : String) where
    dispatch-in_resources :
        (name : String) (m : Metadata) (a b : FileResult)
        → dispatch e true file name m a ≡ ok b
        → in_resources k b ≡ (in_resources k a || gives "resource" k (some m))
    unfolding dispatch
    dispatch-in_resources name m a b h = elim (Bool-cases (m.type == "resource")) [
      | inl resource ↦ elim (Outcome-cases (e.get_resource file name)) [
        | inl ((res, deferred, ready), p) ↦ ground (
          arith,
          has-put m.id k (record { resource = res; ready = ready }) a.resources,
          elem-append k m.id a.resources_deferred,
        )
        | inr (inl (err, p)) ↦ ground (arith, has-put m.id k err a.resources_errs)
        | inr (inr p) ↦ ground arith
      ]
      | inr other ↦ ground arith
    ]

    dispatch-in_requests :
        (name : String) (m : Metadata) (a b : FileResult)
        → dispatch e true file name m a ≡ ok b
        → in_requests k b ≡ (in_requests k a || gives "request" k (some m))
    unfolding dispatch
    dispatch-in_requests name m a b h = elim (Bool-cases (m.type == "request")) [
      | inl is_request ↦ elim (Outcome-cases (e.get_crossform_object file name)) [
        | inl (c, p) ↦
            ground (arith, has-put m.id k c a.requests, is_not m.type "request" is_request)
        | inr (inl (err, p)) ↦
            ground (arith, has-put m.id k err a.requests_errs, is_not m.type "request" is_request)
        | inr (inr p) ↦ ground (arith, is_not m.type "request" is_request)
      ]
      | inr other ↦ ground arith
    ]

    dispatch-in_outputs :
        (name : String) (m : Metadata) (a b : FileResult)
        → dispatch e true file name m a ≡ ok b
        → in_outputs k b ≡ (in_outputs k a || gives "output" k (some m))
    unfolding dispatch
    dispatch-in_outputs name m a b h = elim (Bool-cases (m.type == "output")) [
      | inl is_output ↦ elim (Outcome-cases (e.get_crossform_object file name)) [
        | inl (c, p) ↦
            ground (arith, has-put m.id k c.output a.outputs, is_not m.type "output" is_output)
        | inr (inl (err, p)) ↦
            ground (arith, has-put m.id k err a.outputs_errs, is_not m.type "output" is_output)
        | inr (inr p) ↦ ground (arith, is_not m.type "output" is_output)
      ]
      | inr other ↦ ground arith
    ]

    dispatch-in_inputs :
        (name : String) (m : Metadata) (a b : FileResult)
        → dispatch e true file name m a ≡ ok b
        → in_inputs k b ≡ (in_inputs k a || gives "input" k (some m))
    unfolding dispatch
    dispatch-in_inputs name m a b h = elim (Bool-cases (m.type == "input")) [
      | inl is_input ↦ elim (Outcome-cases (e.get_crossform_object file name)) [
        | inl (c, p) ↦ ground (arith, has-put m.id k c a.inputs, is_not m.type "input" is_input)
        | inr (inl (err, p)) ↦
            ground (arith, has-put m.id k err a.inputs_errs, is_not m.type "input" is_input)
        | inr (inr p) ↦ ground (arith, is_not m.type "input" is_input)
      ]
      | inr other ↦ ground arith
    ]

    -- What holds of one field holds of all.
    exec_fields-seen :
        (type : String) (seen : FileResult → Bool)
        → ((name : String) (m : Metadata) (a b : FileResult)
            → dispatch e true file name m a ≡ ok b
            → seen b ≡ (seen a || gives type k (some m)))
        → (names : List String) (a b : FileResult) → exec_fields e true file names a ≡ ok b
        → seen b ≡ (seen a || asks type k names)
    unfolding exec_fields exec_field ◌>>=◌
    exec_fields-seen type seen step [] a b h = ground arith
    exec_fields-seen type seen step (name ∷ names) a b h =
        elim (Option-cases (e.get_metadata_object file name)) [
          | inl nil ↦ absurd (ground arith)
          | inr (m, p) ↦ elim (Outcome-cases (dispatch e true file name m a)) [
            | inl (a', q) ↦
                ground (arith, step name m a a' q, exec_fields-seen type seen step names a' b)
            | inr stopped ↦ absurd (ground arith)
          ]
        ]

    -- If a pass over a file with evaluation returns, then an identifier stands among its results on
    -- resources (the evaluated, the failed and the deferred), requests, outputs or inputs exactly if
    -- some field of the file has that identifier and that type: no field is lost, and nothing is made
    -- up.
    pub exec_file-accounts :
        (r : FileResult)
        → exec_file e true file ≡ ok r
        → (in_resources k r ≡ asks "resource" k (e.get_fields file))
          × (in_requests k r ≡ asks "request" k (e.get_fields file))
          × (in_outputs k r ≡ asks "output" k (e.get_fields file))
          × (in_inputs k r ≡ asks "input" k (e.get_fields file))
    unfolding exec_file lookup
    exec_file-accounts r h =
        let all = e.get_fields file in
        (
          exec_fields-seen "resource" (in_resources k) dispatch-in_resources all no_results r h,
          exec_fields-seen "request" (in_requests k) dispatch-in_requests all no_results r h,
          exec_fields-seen "output" (in_outputs k) dispatch-in_outputs all no_results r h,
          exec_fields-seen "input" (in_inputs k) dispatch-in_inputs all no_results r h,
        )
