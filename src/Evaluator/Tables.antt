-- ===== src/Evaluator/Tables.antt =====
-- The tables that both evaluators fill: the fields of each file, and the metadata of each field.
use Prim.Native.String.{◌++◌ as ◌+++◌}
use crossform.Common.{
  String, ◌≡◌, Bool, true, Option, none, some, List, [], ◌∷◌, ◌++◌, arith, eq_iff, ◌==◌, All, inl,
  inr, Bool-cases,
}
use crossform.Common.Dict.{Dict, lookup, put, has, lookup-put}
use crossform.Common.Outcome.{Outcome, ok, ◌>>=◌, bind-eq-ok}
use crossform.Executor.Types.{Metadata, Ready, ready_unspecified, ready_true, ready_false}

pub record Tables : Type 0 where
  pub fields : Dict (List String)
  pub metadata : Dict Metadata

-- e.fields[file], nil for a missing key
abbrev pub list_of : Option (List String) → List String
list_of none = []
list_of (some fs) = fs

-- maps.Keys
unfoldable pub keys : {V : Type 0} → Dict V → List String
keys [] = []
keys ((k, v) ∷ m) = k ∷ keys m

-- `getFieldPath`
abbrev pub field_path : String → String → String
field_path file field = file +++ ("/" +++ field)

-- e.fields[file] = append(e.fields[file], field)
abbrev pub append_field : String → String → Dict (List String) → Dict (List String)
append_field file field t = put file (list_of (lookup file t) ++ field ∷ []) t

unfoldable pub append_fields : String → List String → Dict (List String) → Dict (List String)
append_fields file [] t = t
append_fields file (field ∷ names) t = append_fields file names (append_field file field t)

-- the value of `crossform.Ready`
abbrev pub ready_of : Option Bool → Ready
ready_of none = ready_unspecified
ready_of (some b) = elim b [ true ↦ ready_true | _ ↦ ready_false ]

-- The last loop of both constructors.
module _ (get_metadata : String → String → Outcome Metadata) where
  unfoldable pub load_file : String → List String → Dict Metadata → Outcome (Dict Metadata)
  load_file file [] t = ok t
  load_file file (field ∷ names) t = do
    m ← get_metadata file field
    load_file file names (put (field_path file field) m t)

  unfoldable pub load_metadata : Dict (List String) → Dict Metadata → Outcome (Dict Metadata)
  load_metadata [] t = ok t
  load_metadata ((file, names) ∷ fields) t = do t' ← load_file file names t; load_metadata fields t'

  load_file-keeps :
      (file : String) (names : List String) (t t' : Dict Metadata) (p : String)
      → load_file file names t ≡ ok t'
      → has p t ≡ true
      → has p t' ≡ true
  unfolding load_file
  load_file-keeps file [] t t' p h there = ground arith
  load_file-keeps file (field ∷ names) t t' p h there =
      let (m, got, rest) = bind-eq-ok (get_metadata file field) _ h in
      load_file-keeps file names (put (field_path file field) m t) t' p rest
        (ground (arith, lookup-put (field_path file field) p m t))

  load_metadata-keeps :
      (fields : Dict (List String)) (t t' : Dict Metadata) (p : String)
      → load_metadata fields t ≡ ok t'
      → has p t ≡ true
      → has p t' ≡ true
  unfolding load_metadata
  load_metadata-keeps [] t t' p h there = ground arith
  load_metadata-keeps ((file, names) ∷ fields) t t' p h there =
      let (s, first, rest) = bind-eq-ok (load_file file names t) _ h in
      load_metadata-keeps fields s t' p rest (load_file-keeps file names t s p first there)

  -- Every field of a file that was loaded has metadata in the end.
  load_file-described :
      (file : String) (names : List String) (t s t' : Dict Metadata)
      → load_file file names t ≡ ok s
      → ((p : String) → has p s ≡ true → has p t' ≡ true)
      → All (λ field. has (field_path file field) t' ≡ true) names
  unfolding load_file
  load_file-described file [] t s t' h later = tt
  load_file-described file (field ∷ names) t s t' h later =
      let p = field_path file field in
      let (m, got, rest) = bind-eq-ok (get_metadata file field) _ h in
      (
        later p (
            load_file-keeps file names (put p m t) s p rest
              (ground (arith, lookup-put p p m t, eq_iff p p))),
        load_file-described file names (put p m t) s t' rest later,
      )

  -- If the metadata of all fields can be loaded, then every field of every file has some.
  pub load_metadata-described :
      (fields : Dict (List String)) (t t' : Dict Metadata) (file : String)
      → load_metadata fields t ≡ ok t'
      → All (λ field. has (field_path file field) t' ≡ true) (list_of (lookup file fields))
  unfolding load_metadata lookup
  load_metadata-described [] t t' file h = tt
  load_metadata-described ((k, names) ∷ fields) t t' file h =
      let (s, first, rest) = bind-eq-ok (load_file k names t) _ h in
      elim (Bool-cases (k == file)) [
        | inl same ↦ rw same (
            rw (← (eq_iff k file).0 same) (
              load_file-described k names t s t' first
                (λ p. load_metadata-keeps fields s t' p rest)))
        | inr other ↦ rw other (load_metadata-described fields s t' file rest)
      ]
