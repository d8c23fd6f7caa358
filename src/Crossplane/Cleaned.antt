-- ===== src/Crossplane/Cleaned.antt =====
-- What `clean` leaves of a resource.
use crossform.Common.{
  String, ◌≡◌, refl, sym, subst, ◌∙◌, true, false, none, some, List, [], ◌∷◌, arith, eq_iff, ◌==◌,
  All, Option-cases, String-cases, inl, inr,
}
use crossform.Common.Dict.{Dict, lookup}
use crossform.Common.Json.{
  Value, obj, Fields, get, set, delete, entries, opt_obj, get-set, get-delete, get-of_entries,
}
use crossform.Crossplane.Clean.{
  drop_prefixed, crossplane_prefix, update_obj, without_crossplane, without_finalizer, delete_all,
  server_fields, clean_metadata, clean,
}
use text.Mathlib.Text.{starts_with}

lookup-drop_prefixed :
    (prefix k : String) (m : Dict Value)
    → starts_with k prefix ≡ true
    → lookup k (drop_prefixed prefix m) ≡ none
unfolding drop_prefixed lookup
lookup-drop_prefixed prefix k [] h = refl
lookup-drop_prefixed prefix k ((j, v) ∷ m) h = elim (String-cases j k) [
  | inl same ↦ rw same (rw h (lookup-drop_prefixed prefix k m h))
  | inr other ↦ ground (arith, lookup-drop_prefixed prefix k m h, eq_iff j k)
]

-- Keys that Crossplane reserves are gone from a map.
pub record HasNoReserved (fs : Fields) : Type 0 where
  pub absent : (j : String) → starts_with j crossplane_prefix ≡ true → get j fs ≡ none

without_crossplane-HasNoReserved : (fs : Fields) → HasNoReserved (without_crossplane fs)
without_crossplane-HasNoReserved fs = record {
  absent = λ j h. rw get-of_entries (lookup-drop_prefixed crossplane_prefix j (entries fs) h);
}

-- What `delete_all` deletes, and what a later change of another key leaves deleted.
get-delete_all_keeps :
    (k : String) (ks : List String) (fs : Fields)
    → get k fs ≡ none
    → get k (delete_all ks fs) ≡ none
unfolding delete_all
get-delete_all_keeps k [] fs h = h
get-delete_all_keeps k (j ∷ ks) fs h =
    get-delete_all_keeps k ks (delete j fs) (ground (arith, get-delete j k fs))

All-delete_all : (ks : List String) (fs : Fields) → All (λ k. get k (delete_all ks fs) ≡ none) ks
unfolding delete_all
All-delete_all [] fs = tt
All-delete_all (k ∷ ks) fs = (
  get-delete_all_keeps k ks (delete k fs) (ground (arith, get-delete k k fs, eq_iff k k)),
  All-delete_all ks (delete k fs),
)

get-update_obj_ne :
    (k j : String) (f : Fields → Fields) (fs : Fields)
    → (k == j) ≡ false
    → get j (update_obj k f fs) ≡ get j fs
unfolding update_obj
get-update_obj_ne k j f fs h = elim (Option-cases (opt_obj (get k fs))) [
  | inl absent ↦ ground arith
  | inr (inner, p) ↦ ground (arith, get-set k j (obj (f inner)) fs)
]

-- A map under the updated key was made by the update.
get-update_obj_inv :
    (k : String) (f : Fields → Fields) (fs inner : Fields)
    → get k (update_obj k f fs) ≡ some (obj inner)
    → (old : Fields) × (inner ≡ f old)
unfolding update_obj
get-update_obj_inv k f fs inner h = elim (Option-cases (opt_obj (get k fs))) [
  | inl absent ↦ absurd (ground arith)
  | inr (old, p) ↦ (old, ground (arith, get-set k k (obj (f old)) fs, eq_iff k k))
]

-- No field that the API server or Crossplane manages is left in the metadata.
pub record IsCleanMetadata (md : Fields) : Type 0 where
  pub server : All (λ k. get k md ≡ none) server_fields
  pub labels : (ls : Fields) → get "labels" md ≡ some (obj ls) → HasNoReserved ls
  pub annotations : (ls : Fields) → get "annotations" md ≡ some (obj ls) → HasNoReserved ls

get-clean_metadata :
    (k : String) (md : Fields)
    → ("finalizers" == k) ≡ false
    → ("labels" == k) ≡ false
    → ("annotations" == k) ≡ false
    → get k (clean_metadata md) ≡ get k (delete_all server_fields md)
unfolding clean_metadata
get-clean_metadata k md f l a =
    let bare = delete_all server_fields md in
    let md₁ = update_obj "finalizers" without_finalizer bare in
    let md₂ = update_obj "labels" without_crossplane md₁ in
    get-update_obj_ne "annotations" k without_crossplane md₂ a
    ∙ get-update_obj_ne "labels" k without_crossplane md₁ l
    ∙ get-update_obj_ne "finalizers" k without_finalizer bare f

reserved_gone : (fs ls : Fields) → (old : Fields) × (ls ≡ without_crossplane old) → HasNoReserved ls
reserved_gone fs ls (old, e) = subst HasNoReserved (sym e) (without_crossplane-HasNoReserved old)

server-clean_metadata : (md : Fields) → All (λ k. get k (clean_metadata md) ≡ none) server_fields
server-clean_metadata md =
    let gone = All-delete_all server_fields md in
    (
      get-clean_metadata "managedFields" md refl refl refl ∙ gone.0,
      (
        get-clean_metadata "creationTimestamp" md refl refl refl ∙ gone.1.0,
        (
          get-clean_metadata "generation" md refl refl refl ∙ gone.1.1.0,
          (
            get-clean_metadata "ownerReferences" md refl refl refl ∙ gone.1.1.1.0,
            (
              get-clean_metadata "resourceVersion" md refl refl refl ∙ gone.1.1.1.1.0,
              (get-clean_metadata "uid" md refl refl refl ∙ gone.1.1.1.1.1.0, tt),
            ),
          ),
        ),
      ),
    )

clean_metadata-IsCleanMetadata : (md : Fields) → IsCleanMetadata (clean_metadata md)
unfolding clean_metadata
clean_metadata-IsCleanMetadata md =
    let bare = delete_all server_fields md in
    let md₁ = update_obj "finalizers" without_finalizer bare in
    let md₂ = update_obj "labels" without_crossplane md₁ in
    record {
      server = server-clean_metadata md;
      labels = λ ls h. reserved_gone md ls (
          get-update_obj_inv "labels" without_crossplane md₁ ls
            (sym (get-update_obj_ne "annotations" "labels" without_crossplane md₂ refl) ∙ h));
      annotations = λ ls h.
          reserved_gone md ls (get-update_obj_inv "annotations" without_crossplane md₂ ls h);
    }

-- If a cleaned resource has metadata that is a map, then it has no status, and its metadata has no
-- field of the API server and no label or annotation that Crossplane reserves.
pub clean-IsCleanMetadata :
    (object md : Fields)
    → get "metadata" (clean object) ≡ some (obj md)
    → (get "status" (clean object) ≡ none) × IsCleanMetadata md
unfolding clean
clean-IsCleanMetadata object md h = elim (Option-cases (opt_obj (get "metadata" object))) [
  | inl absent ↦ absurd (ground arith)
  | inr (old, p) ↦
      let put = set "metadata" (obj (clean_metadata old)) object in
      let same : md ≡ clean_metadata old = ground (
        arith,
        get-delete "status" "metadata" put,
        get-set "metadata" "metadata" (obj (clean_metadata old)) object,
      ) in
      (
        ground (arith, get-delete "status" "status" put),
        subst IsCleanMetadata (sym same) (clean_metadata-IsCleanMetadata old),
      )
]

-- Outside of its status and its metadata, cleaning changes nothing in a resource.
pub get-clean_ne :
    (object : Fields) (k : String)
    → ("status" == k) ≡ false
    → ("metadata" == k) ≡ false
    → get k (clean object) ≡ get k object
unfolding clean
get-clean_ne object k s m = elim (Option-cases (opt_obj (get "metadata" object))) [
  | inl absent ↦ ground arith
  | inr (old, p) ↦
      let put = set "metadata" (obj (clean_metadata old)) object in
      ground
        (arith, get-delete "status" k put, get-set "metadata" k (obj (clean_metadata old)) object)
]
