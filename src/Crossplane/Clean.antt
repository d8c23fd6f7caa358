-- ===== src/Crossplane/Clean.antt =====
-- pkg/crossplane/function.go: the loop of `RunFunction` that takes from each desired resource what
-- the cluster had added to it.
use crossform.Common.{String, none, some, List, [], ◌∷◌, if◌then◌else◌}
use crossform.Common.Dict.{Dict}
use crossform.Common.Json.{Value, obj, Fields, get, set, delete, entries, of_entries, opt_obj}
use text.Mathlib.Text.{starts_with}

-- for k := range m { if strings.HasPrefix(k, prefix) { delete(m, k) } }
unfoldable pub drop_prefixed : String → Dict Value → Dict Value
drop_prefixed prefix [] = []
drop_prefixed prefix ((k, v) ∷ m) =
    let rest = drop_prefixed prefix m in if starts_with k prefix then rest else (k, v) ∷ rest

abbrev pub crossplane_prefix : String
crossplane_prefix = "crossplane.io/"

-- fs[k] is changed in place if it is a map
unfoldable pub update_obj : String → (Fields → Fields) → Fields → Fields
update_obj k f fs = elim (opt_obj (get k fs)) [ none ↦ fs | some inner ↦ set k (obj (f inner)) fs ]

abbrev pub without_crossplane : Fields → Fields
without_crossplane fs = of_entries (drop_prefixed crossplane_prefix (entries fs))

abbrev pub without_finalizer : Fields → Fields
without_finalizer = delete "finalizer.managedresource.crossplane.io"

unfoldable pub delete_all : List String → Fields → Fields
delete_all [] fs = fs
delete_all (k ∷ ks) fs = delete_all ks (delete k fs)

abbrev pub server_fields : List String
server_fields =
    "managedFields" ∷ "creationTimestamp" ∷ "generation" ∷ "ownerReferences" ∷ "resourceVersion"
    ∷ "uid" ∷ []

unfoldable pub clean_metadata : Fields → Fields
clean_metadata md = update_obj "annotations" without_crossplane (
    update_obj "labels" without_crossplane
      (update_obj "finalizers" without_finalizer (delete_all server_fields md)))

-- A resource whose metadata is not a map is left as it is, its status too.
unfoldable pub clean : Fields → Fields
clean object = elim (opt_obj (get "metadata" object)) [
  | none ↦ object
  | some md ↦ delete "status" (set "metadata" (obj (clean_metadata md)) object)
]
