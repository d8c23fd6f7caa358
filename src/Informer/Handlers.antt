-- ===== src/Informer/Handlers.antt =====
-- main.go: the three handlers of `makeModulesInformer`. An object is `some` of its content if it is
-- an `*unstructured.Unstructured`; on any other the type assertion panics. A send appends to the
-- channel (its room of 10000 only delays the sender).
use crossform.Common.{String, Option, List, [], ◌∷◌, ◌++◌, ◌==◌, if◌then◌else◌}
use crossform.Common.Json.{Fields}
use crossform.Common.Outcome.{Outcome, ok, fail, panic, must, ◌>>=◌}
use crossform.Repo.Config.{Config, new_config}

pub record Queues : Type 0 where
  pub config_updates : List Config
  pub config_deletes : List Config

abbrev pub no_queues : Queues
no_queues = record { config_updates = []; config_deletes = [] }

abbrev pub send_update : Config → Queues → Queues
send_update c q = record q { config_updates = q.config_updates ++ c ∷ [] }

abbrev pub send_delete : Config → Queues → Queues
send_delete c q = record q { config_deletes = q.config_deletes ++ c ∷ [] }

-- A handler logs an error of `NewConfig` and returns.
abbrev on_config : Outcome Config → Queues → (Config → Outcome Queues) → Outcome Queues
on_config (ok c) q next = next c
on_config (fail e) q next = ok q
on_config panic q next = panic

module _ (md5_hex : String → String) where
  unfoldable pub add_func : Option Fields → Queues → Outcome Queues
  unfolding ◌>>=◌
  add_func object q = do
    u ← must object
    on_config (new_config md5_hex u) q λ config. ok (send_update config q)

  unfoldable pub update_func : Option Fields → Option Fields → Queues → Outcome Queues
  unfolding ◌>>=◌
  update_func old_object new_object q = do
    new ← must new_object
    on_config (new_config md5_hex new) q λ config_new. do
      old ← must old_object
      on_config (new_config md5_hex old) q λ config_old.
          if config_old.hash == config_new.hash
          then ok q
          else ok (send_update config_new (send_delete config_old q))

  unfoldable pub delete_func : Option Fields → Queues → Outcome Queues
  unfolding ◌>>=◌
  delete_func object q = do
    u ← must object
    on_config (new_config md5_hex u) q λ config. ok (send_delete config q)
