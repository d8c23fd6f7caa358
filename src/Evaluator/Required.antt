-- ===== src/Evaluator/Required.antt =====
-- The schema that `ValidateInputs` checks the inputs of the composite against.
use crossform.Common.{
  String, ◌≡◌, ap, Bool, false, Option, none, some, [], ◌∷◌, ◌||◌, not, arith, eq_iff, ◌==◌,
  is_some, elem, elem-append, String-cases, inl, inr, if◌then◌else◌,
}
use crossform.Common.Dict.{Dict, lookup, IsMap, lookup-put}
use crossform.Common.Json.{Value, obj, Fields, get}
use crossform.Executor.Types.{Crossform}
use crossform.Evaluator.Schema.{Schema, schema_of, add_schema, no_schema}

-- Must an input be given?
abbrev pub is_required : Option Fields → Bool
is_required none = false
is_required (some s) = not (is_some (get "default" s))

abbrev pub schema_at : Option Crossform → Option Fields
schema_at none = none
schema_at (some c) = c.schema

abbrev pub property_at : Option Fields → Option Value → Option Value
property_at none old = old
property_at (some s) old = some (obj s)

elem-add_schema :
    (k j : String) (o : Option Fields) (acc : Schema)
    → elem k (add_schema j o acc).required
      ≡ (elem k acc.required || (if j == k then is_required o else false))
elem-add_schema k j none acc = ground arith
elem-add_schema k j (some s) acc = ground (arith, elem-append k j acc.required)

lookup-add_schema :
    (k j : String) (o : Option Fields) (acc : Schema)
    → lookup k (add_schema j o acc).properties
      ≡ (if j == k then property_at o (lookup k acc.properties) else lookup k acc.properties)
lookup-add_schema k j none acc = ground arith
lookup-add_schema k j (some s) acc = ground (arith, lookup-put j k (obj s) acc.properties)

elem-schema_of :
    (inputs : Dict Crossform) (acc : Schema) (k : String)
    → IsMap inputs
    → elem k (schema_of inputs acc).required
      ≡ (elem k acc.required || is_required (schema_at (lookup k inputs)))
unfolding schema_of lookup
elem-schema_of [] acc k h = ground arith
elem-schema_of ((j, v) ∷ inputs) acc k h = elim (String-cases j k) [
  | inl same ↦ ground (
    arith,
    elem-schema_of inputs (add_schema j v.schema acc) k h.1,
    elem-add_schema k j v.schema acc,
    ap (λ (i : String). lookup i inputs) same,
    eq_iff j k,
  )
  | inr other ↦ ground (
    arith,
    elem-schema_of inputs (add_schema j v.schema acc) k h.1,
    elem-add_schema k j v.schema acc,
    eq_iff j k,
  )
]

lookup-schema_of :
    (inputs : Dict Crossform) (acc : Schema) (k : String)
    → IsMap inputs
    → lookup k (schema_of inputs acc).properties
      ≡ property_at (schema_at (lookup k inputs)) (lookup k acc.properties)
unfolding schema_of lookup
lookup-schema_of [] acc k h = ground arith
lookup-schema_of ((j, v) ∷ inputs) acc k h = elim (String-cases j k) [
  | inl same ↦ ground (
    arith,
    lookup-schema_of inputs (add_schema j v.schema acc) k h.1,
    lookup-add_schema k j v.schema acc,
    ap (λ (i : String). lookup i inputs) same,
    eq_iff j k,
  )
  | inr other ↦ ground (
    arith,
    lookup-schema_of inputs (add_schema j v.schema acc) k h.1,
    lookup-add_schema k j v.schema acc,
    eq_iff j k,
  )
]

-- The schema has a property for exactly the declared inputs that have a schema, which is that
-- schema, and requires exactly those of them whose schema has no default. An input that no field
-- declares is neither described nor required.
pub schema_of-describes :
    (inputs : Dict Crossform) (k : String)
    → IsMap inputs
    → (lookup k (schema_of inputs no_schema).properties
        ≡ property_at (schema_at (lookup k inputs)) none)
      × (elem k (schema_of inputs no_schema).required ≡ is_required (schema_at (lookup k inputs)))
unfolding lookup
schema_of-describes inputs k h =
    (lookup-schema_of inputs no_schema k h, elem-schema_of inputs no_schema k h)
