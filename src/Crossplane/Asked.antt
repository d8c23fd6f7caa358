-- ===== src/Crossplane/Asked.antt =====
-- Where the resources that `RunFunction` asks for come from.
use crossform.Common.{
  String, ◌≡◌, refl, ap, ◌∙◌, Bool, true, Option, some, List, [], ◌∷◌, arith, eq_iff, inl, inr,
  Option-cases,
}
use crossform.Common.Dict.{Dict, lookup, put, map_values, map_option, lookup-put, lookup-map_values}
use crossform.Executor.Types.{ExecResult, ObservedComposed, DesiredComposed}
use crossform.Executor.Exec.{keep_observed}
use crossform.Crossplane.Desired.{keep_deferred, clean_desired}
use crossform.Common.{elem}

-- A deferred resource that exists is taken as observed, any other as the module has it.
abbrev pub choice : Bool → Option ObservedComposed → Option DesiredComposed → Option DesiredComposed
choice true (some o) desired = some (keep_observed o)
choice _ _ desired = desired

lookup-keep_deferred :
    (observed : Dict ObservedComposed) (ks : List String) (d : Dict DesiredComposed) (k : String)
    → lookup k (keep_deferred observed ks d) ≡ choice (elem k ks) (lookup k observed) (lookup k d)
unfolding keep_deferred
lookup-keep_deferred observed [] d k = refl
lookup-keep_deferred observed (j ∷ ks) d k = elim (Option-cases (lookup j observed)) [
  | inl absent ↦ ground (arith, lookup-keep_deferred observed ks d k, eq_iff j k)
  | inr (o, p) ↦ ground (
    arith,
    lookup-keep_deferred observed ks (put j (keep_observed o) d) k,
    lookup-put j k (keep_observed o) d,
    eq_iff j k,
  )
]

pub lookup-cleaned :
    (observed : Dict ObservedComposed) (r : ExecResult) (k : String)
    → lookup k (map_values clean_desired (keep_deferred observed r.deferred r.desired))
      ≡ map_option clean_desired
          (choice (elem k r.deferred) (lookup k observed) (lookup k r.desired))
lookup-cleaned observed r k =
    lookup-map_values clean_desired k (keep_deferred observed r.deferred r.desired)
    ∙ ap (map_option clean_desired) (lookup-keep_deferred observed r.deferred r.desired k)
