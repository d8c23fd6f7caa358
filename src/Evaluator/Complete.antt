-- ===== src/Evaluator/Complete.antt =====
-- Both evaluators describe every field that they list, so the executor never meets a nil metadata.
use Prim.Native.String.{◌++◌ as ◌+++◌}
use crossform.Common.{
  String, ◌≡◌, true, Option, none, some, List, [], ◌∷◌, arith, All, is_some, inl, inr,
}
use crossform.Common.Dict.{Dict, lookup}
use crossform.Common.Outcome.{
  Outcome, ok, fail, ◌>>=◌, Outcome-cases, Ensures, Ensures-ok, Ensures-bind, Ensures-then,
}
use crossform.Common.Json.{Fields}
use crossform.Executor.Types.{ExecCommand, ObservedComposed, Metadata}
use crossform.Executor.Interface.{GenericExecutor}
use crossform.Executor.New.{Inputs, choose, new_executor, add_all_details, marshal, unlooked}
use crossform.Evaluator.Tables.{Tables, list_of, field_path, load_metadata, load_metadata-described}
use crossform.Evaluator.Jsonnet.{JsonnetHost, JsonnetExecutor, new_jsonnet_executor}
use crossform.Evaluator.Jsonnet
use crossform.Evaluator.Schema.{SchemaHost, jsonnet_executor, new_jsonnet}
use crossform.Evaluator.Cue.{CueHost, CueExecutor, cue_executor, load_instances, new_cue}
use crossform.Evaluator.Cue

-- Every field that an evaluator lists has metadata.
pub record IsDescribed (e : GenericExecutor) : Type 0 where
  pub at :
      (file : String)
      → All (λ field. is_some (e.get_metadata_object file field) ≡ true) (e.get_fields file)

-- The tables fit: what the last loop of a constructor leaves.
pub record AreFilled (t : Tables) : Type 0 where
  pub at :
      (file : String)
      → All
          (λ field. is_some (lookup (field_path file field) t.metadata) ≡ true)
          (list_of (lookup file t.fields))

-- An evaluator that is given back, if one is.
pub data Made {E : Type 0} (P : E → Type 0) : Option E → Type 0 where
  nothing : Made P none
  made : (e : E) → P e → Made P (some e)

loaded-AreFilled :
    (get : String → String → Outcome Metadata) (fields : Dict (List String))
    → Ensures
        (λ t. AreFilled (record { fields = fields; metadata = t }))
        (load_metadata get fields [])
loaded-AreFilled get fields = record {
  at = λ t h. record { at = λ file. load_metadata-described get fields [] t file h };
}

-- From the record to the interface.
presented :
    {E : Type 0} (tables : E → Tables) (present : E → GenericExecutor)
    (P : GenericExecutor → Type 0)
    → ((e : E) → AreFilled (tables e) → P (present e))
    → (o : Option E) → Made (λ e. AreFilled (tables e)) o
    → Ensures (Made P) (elim o [ none ↦ ok none | some e ↦ ok (some (present e)) ])
presented tables present P fits none nothing = Ensures-ok _ nothing
presented tables present P fits (some e) (made e' h) = Ensures-ok _ (made _ (fits e h))

-- The evaluators' own records, without their operations, and then with them.
module _ {C S : Type 0} (schemas : SchemaHost C S) (jsonnet : JsonnetHost) where
  new_jsonnet_executor-AreFilled :
      (path : String) (i : Inputs) (files : List String)
      → Ensures
          (Made (λ (e : JsonnetExecutor). AreFilled e.tables))
          (Jsonnet.load_files jsonnet path i files)
  unfolding Jsonnet.load_files
  new_jsonnet_executor-AreFilled path i [] = Ensures-ok _ nothing
  new_jsonnet_executor-AreFilled path i (file ∷ files) = Ensures-then _ _ λ lib.
      Ensures-then _ _ λ fields.
        Ensures-bind (λ t. AreFilled (record { fields = fields; metadata = t })) _ _
          (loaded-AreFilled _ fields) λ t filled. Ensures-ok _ (made _ filled)

  -- What holds of every evaluator with filled tables holds of the one that is made.
  pub new_jsonnet-Made :
      (P : GenericExecutor → Type 0)
      → ((e : JsonnetExecutor) → AreFilled e.tables → P (jsonnet_executor schemas jsonnet e))
      → (path : String) (i : Inputs) → Ensures (Made P) (new_jsonnet schemas jsonnet path i)
  unfolding new_jsonnet new_jsonnet_executor
  new_jsonnet-Made P fits path i =
      Ensures-bind (Made (λ (e : JsonnetExecutor). AreFilled e.tables)) _ _
        (Ensures-then _ _ λ files. new_jsonnet_executor-AreFilled path i files)
        (presented (λ e. e.tables) (jsonnet_executor schemas jsonnet) P fits)

  new_jsonnet-IsDescribed :
      (path : String) (i : Inputs) → Ensures (Made IsDescribed) (new_jsonnet schemas jsonnet path i)
  new_jsonnet-IsDescribed = new_jsonnet-Made IsDescribed λ e h. record { at = h.at }

module _ {V B : Type 0} (cue : CueHost V B) where
  load_instances-AreFilled :
      (path : String) (i : Inputs) (files : List String) (builds : List B)
      → Ensures (λ (e : CueExecutor V). AreFilled e.tables) (load_instances cue path i files builds)
  unfolding load_instances
  load_instances-AreFilled path i files [] = record { at = λ e h. cc }
  load_instances-AreFilled path i files (b ∷ builds) = Ensures-then _ _ λ fine.
      Ensures-then _ _ λ lib. Ensures-then _ _ λ lib_value. Ensures-then _ _ λ instances.
        Ensures-then _ _ λ fields.
          Ensures-bind (λ t. AreFilled (record { fields = fields; metadata = t })) _ _
            (loaded-AreFilled _ fields) λ t filled. Ensures-ok _ filled

  cue-AreFilled :
      (path : String) (i : Inputs) (files : List String)
      → Ensures (Made (λ (e : CueExecutor V). AreFilled e.tables)) (Cue.load_files cue path i files)
  unfolding Cue.load_files
  cue-AreFilled path i [] = Ensures-ok _ nothing
  cue-AreFilled path i (file ∷ files) =
      Ensures-bind (λ (e : CueExecutor V). AreFilled e.tables) _ _
        (load_instances-AreFilled path i _ _) λ e filled. Ensures-ok _ (made e filled)

  new_cue-IsDescribed :
      (path : String) (i : Inputs) → Ensures (Made IsDescribed) (new_cue cue path i)
  unfolding new_cue
  new_cue-IsDescribed path i = Ensures-then _ _ λ files.
      Ensures-bind (Made (λ (e : CueExecutor V). AreFilled e.tables)) _ _
        (cue-AreFilled path i files)
        (presented (λ e. e.tables) (cue_executor cue) IsDescribed λ e h. record { at = h.at })

chosen :
    (o : Option GenericExecutor) (next : Outcome GenericExecutor)
    → Made IsDescribed o
    → Ensures IsDescribed next
    → Ensures IsDescribed (elim o [ some e ↦ ok e | none ↦ next ])
chosen none next nothing rest = rest
chosen (some e) next (made e' h) rest = Ensures-ok _ h

found :
    (o : Option GenericExecutor) (text : String)
    → Made IsDescribed o
    → Ensures IsDescribed (elim o [ some e ↦ ok e | none ↦ fail text ])
found none text nothing = record { at = λ e h. cc }
found (some e) text (made e' h) = Ensures-ok _ h

module _ {C S V B : Type 0} (schemas : SchemaHost C S) (jsonnet : JsonnetHost)
    (cue : CueHost V B) where
  choose-IsDescribed :
      (missing : String → Option String) (marshal_map : Fields → Outcome String) (path : String)
      (i : Inputs)
      → Ensures IsDescribed
          (choose missing marshal_map (new_jsonnet schemas jsonnet) (new_cue cue) path i)
  unfolding choose
  choose-IsDescribed missing marshal_map path i =
      Ensures-bind (Made IsDescribed) _ _ (new_jsonnet-IsDescribed schemas jsonnet path i) λ o h.
        chosen o _ h (
          Ensures-bind (Made IsDescribed) _ _ (new_cue-IsDescribed cue path i)
            λ o' h'. found o' "project type is not supported" h')

  choose_eq :
      (missing : String → Option String) (marshal_map : Fields → Outcome String)
      (cmd cmd' : ExecCommand) (path : String) (e : GenericExecutor)
      → new_executor missing marshal_map (new_jsonnet schemas jsonnet) (new_cue cue) cmd path
        ≡ ok (cmd', e)
      → (observed : Dict ObservedComposed) (i : Inputs) → add_all_details cmd.observed ≡ ok observed
      → unlooked (marshal marshal_map (record cmd { observed = observed })) ≡ ok i
      → choose missing marshal_map
          (new_jsonnet schemas jsonnet)
          (new_cue cue)
          (path +++ ("/" +++ cmd.path))
          i
        ≡ ok e
  unfolding new_executor ◌>>=◌
  choose_eq missing marshal_map cmd cmd' path e h observed i p q = ground arith

  -- Whatever the files of a module hold and the two languages' libraries answer: if `NewExecutor`
  -- gives an executor, then its evaluator has metadata for every field that it lists.
  pub new_executor-IsDescribed :
      (missing : String → Option String) (marshal_map : Fields → Outcome String)
      (cmd cmd' : ExecCommand) (path : String) (e : GenericExecutor)
      → new_executor missing marshal_map (new_jsonnet schemas jsonnet) (new_cue cue) cmd path
        ≡ ok (cmd', e)
      → IsDescribed e
  unfolding new_executor ◌>>=◌
  new_executor-IsDescribed missing marshal_map cmd cmd' path e h =
      let dir = path +++ ("/" +++ cmd.path) in
      elim (Outcome-cases (add_all_details cmd.observed)) [
        | inl (observed, p) ↦
            elim (Outcome-cases
              (unlooked (marshal marshal_map (record cmd { observed = observed })))) [
                | inl (i, q) ↦
                    (choose-IsDescribed missing marshal_map dir i).at e
                      (choose_eq missing marshal_map cmd cmd' path e h observed i p q)
                | inr stopped ↦ absurd (ground arith)
              ]
        | inr stopped ↦ absurd (ground arith)
      ]
