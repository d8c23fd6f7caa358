-- ===== src/Crossplane/Compared.antt =====
-- What `is_composite` can come to.
use crossform.Common.{
  String, ◌≡◌, refl, Bool, false, Option, some, arith, if◌then◌else◌, ◌⊎◌, inl, inr, Option-cases,
}
use crossform.Common.Json.{Value, Fields, get, opt_obj}
use crossform.Common.Outcome.{Outcome, ok, fail, ◌>>=◌}
use crossform.Crossplane.Composite.{same_value, opt_fields, is_composite}

-- the name in the metadata of a composite
abbrev name_in : Fields → Option Value
name_in xr = get "name" (opt_fields (opt_obj (get "metadata" xr)))

-- The comparisons of `is_composite`, on the fields of the resource.
abbrev compared_if : Bool → Value → Value → Fields → Outcome Bool
compared_if same_version kind name xr =
    if same_version
    then (same_value kind (get "kind" xr) >>= λ same_kind.
        if same_kind then same_value name (name_in xr) else ok false)
    else ok false

abbrev compared : Value → Value → Value → Fields → Outcome Bool
compared version kind name xr = same_value version (get "apiVersion" xr) >>= λ same_version.
    compared_if same_version kind name xr

-- Either the resource lacks a field, and is never the composite, or its fields are compared.
abbrev Compared : Fields → Type 0
Compared o =
    ((xr : Fields) → is_composite o xr ≡ ok false)
    ⊎ ((v : Value) × (k : Value) × (n : Value) × (get "apiVersion" o ≡ some v)
        × (get "kind" o ≡ some k)
        × (name_in o ≡ some n)
        × ((xr : Fields) → is_composite o xr ≡ compared v k n xr))

is_composite-Compared : (o : Fields) → Compared o
unfolding is_composite
is_composite-Compared o = elim (Option-cases (get "apiVersion" o)) [
  | inl lacks ↦ inl (λ xr. ground arith)
  | inr (v, p) ↦ elim (Option-cases (get "kind" o)) [
    | inl lacks ↦ inl (λ xr. ground arith)
    | inr (k, q) ↦ elim (Option-cases (opt_obj (get "metadata" o))) [
      | inl lacks ↦ inl (λ xr. ground arith)
      | inr (m, r) ↦ elim (Option-cases (get "name" m)) [
        | inl lacks ↦ inl (λ xr. ground arith)
        | inr (n, s) ↦ inr (v, k, n, p, q, rw r s, λ xr. rw (is_composite, p, q, r, s) refl)
      ]
    ]
  ]
]

same_value-ne-fail : (a : Value) (x : Option Value) (e : String) → same_value a x ≡ fail e → ⊥
unfolding same_value
same_value-ne-fail a x e h = ground arith

-- The comparison returns, or panics on values that cannot be compared: it gives no error.
pub is_composite-ne-fail : (o xr : Fields) (e : String) → is_composite o xr ≡ fail e → ⊥
unfolding ◌>>=◌
is_composite-ne-fail o xr e h = elim (is_composite-Compared o) [
  | inl never ↦ ground (arith, never xr)
  | inr (v, k, n, p, q, r, same) ↦ ground (
    arith,
    same xr,
    same_value-ne-fail v (get "apiVersion" xr) e,
    same_value-ne-fail k (get "kind" xr) e,
    same_value-ne-fail n (name_in xr) e,
  )
]
