-- ===== src/Evaluator/Instances.antt =====
-- The instances of a CUE module: which files have one, and when there are too few builds.
use crossform.Common.{
  ◌≤◌, String, ◌≡◌, refl, true, List, [], ◌∷◌, ◌++◌, arith, eq_iff, ◌==◌, ◌||◌, elem, length, inl,
  inr, Option-cases,
}
use crossform.Common.Dict.{Dict, lookup, put, has, lookup-put}
use crossform.Common.Outcome.{
  ok, ◌>>=◌, bind-eq-ok, Ensures, Ensures-ok, Ensures-bind, Ensures-then,
}
use crossform.Executor.New.{Inputs}
use crossform.Evaluator.Tables.{keys, list_of, append_field, append_fields}
use crossform.Evaluator.Cue.{
  CueHost, CueExecutor, build_all, list_selectors, load_selectors, load_instances, with_message,
}

elem-keys : {V : Type 0} (k : String) (m : Dict V) → elem k (keys m) ≡ has k m
unfolding keys lookup
elem-keys k [] = refl
elem-keys k ((j, v) ∷ m) = ground (arith, elem-keys k m)

-- A file whose fields are added is the only new one.
has-append_fields :
    (file k : String) (names : List String) (t : Dict (List String))
    → has k (append_fields file names t) ≡ true
    → has k t || (file == k) ≡ true
unfolding append_fields
has-append_fields file k [] t h = ground arith
has-append_fields file k (name ∷ names) t h = ground (
  arith,
  has-append_fields file k names (append_field file name t),
  lookup-put file k (list_of (lookup file t) ++ name ∷ []) t,
)

module _ {V B : Type 0} (host : CueHost V B) where
  list_selectors-has :
      (instances : Dict V) (file : String) (names : List String)
      → list_selectors host instances file ≡ ok names
      → has file instances ≡ true
  unfolding list_selectors ◌>>=◌
  list_selectors-has instances file names h = elim (Option-cases (lookup file instances)) [
    | inl nil ↦ absurd (ground arith)
    | inr (v, p) ↦ ground arith
  ]

  load_selectors-has :
      (instances : Dict V) (files : List String) (t t' : Dict (List String)) (k : String)
      → load_selectors host instances files t ≡ ok t'
      → has k t' ≡ true
      → has k t || has k instances ≡ true
  unfolding load_selectors
  load_selectors-has instances [] t t' k h there = ground arith
  load_selectors-has instances (file ∷ files) t t' k h there =
      let (names, got, rest) = bind-eq-ok (list_selectors host instances file) _ h in
      let t₁ = put file (list_of (lookup file t)) t in
      ground (
        arith,
        load_selectors-has instances files (append_fields file names t₁) t' k rest there,
        has-append_fields file k names t₁,
        lookup-put file k (list_of (lookup file t)) t,
        list_selectors-has instances file names got,
        eq_iff file k,
      )

  -- A build for every file.
  build_all-length :
      (lib : V) (files : List String) (builds : List B) (t t' : Dict V)
      → build_all host lib files builds t ≡ ok t'
      → length files ≤ length builds
  unfolding build_all
  build_all-length lib [] builds t t' h = omega arith
  build_all-length lib (file ∷ files) [] t t' h = cc
  build_all-length lib (file ∷ files) (b ∷ builds) t t' h =
      let (v, got, rest) = bind-eq-ok (with_message host.details (host.build lib b)) _ h in
      omega (arith, build_all-length lib files builds (put file v t) t' rest)

  record IsBuilt (files : List String) (builds : List B) (e : CueExecutor V) : Type 0 where
    enough : length files ≤ length builds
    listed : (k : String) → has k e.tables.fields ≡ true → has k e.instances ≡ true

  load_instances-IsBuilt :
      (path : String) (i : Inputs) (files : List String) (builds : List B)
      → Ensures (IsBuilt files builds) (load_instances host path i files builds)
  unfolding load_instances lookup
  load_instances-IsBuilt path i files [] = record { at = λ e h. cc }
  load_instances-IsBuilt path i files (b ∷ builds) = Ensures-then _ _ λ fine.
      Ensures-then _ _ λ lib. Ensures-then _ _ λ lib_value.
        Ensures-bind (λ t. length files ≤ length (b ∷ builds)) _ _
          (record { at = λ t h. build_all-length lib_value files (b ∷ builds) [] t h })
          λ instances enough.
            Ensures-bind (λ t. (k : String) → has k t ≡ true → has k instances ≡ true) _ _
              (record { at = λ t h k there. only_instances instances files t k h there })
              λ fields listed.
                Ensures-then _ _
                  λ metadata. Ensures-ok _ (record { enough = enough; listed = listed })
    where
      only_instances :
          (instances : Dict V) (files : List String) (t : Dict (List String)) (k : String)
          → load_selectors host instances files [] ≡ ok t
          → has k t ≡ true
          → has k instances ≡ true
      only_instances instances files t k h there = load_selectors-has instances files [] t k h there

  -- If the CUE evaluator can be made, then the CUE library made a build for every file (so no
  -- evaluator is made where it takes several files for one package), and every file that the evaluator
  -- lists has an instance.
  pub load_instances-listed :
      (path : String) (i : Inputs) (files : List String) (builds : List B) (e : CueExecutor V)
      → load_instances host path i files builds ≡ ok e
      → (length files ≤ length builds)
        × ((k : String) → elem k (keys e.tables.fields) ≡ true → has k e.instances ≡ true)
  load_instances-listed path i files builds e h =
      let built = (load_instances-IsBuilt path i files builds).at e h in
      (built.enough, λ k there. built.listed k (ground (arith, elem-keys k e.tables.fields)))
