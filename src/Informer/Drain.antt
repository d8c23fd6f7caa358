-- ===== src/Informer/Drain.antt =====
-- The manager, at its select, brings every configuration that waits to its repository.
use crossform.Common.{String, ◌≡◌, true, Option, List, [], All}
use crossform.Common.Dict.{has}
use crossform.Repo.Config.{Config}
use crossform.Repo.State.{Repo}
use crossform.Manager.State.{Manager}
use crossform.Informer.Goroutines.{at_select, Running, Turns}

module _ {R W : Type 0} (remove_all : String → W → Option String × W) where
  -- What the manager leaves after it has taken the updates.
  record Drained (us : List Config) (s t : Running R W) : Type 0 where
    turns : Turns remove_all s t
    at : t.at ≡ at_select
    updates : t.queues.config_updates ≡ []
    deletes : t.queues.config_deletes ≡ s.queues.config_deletes
    kept : (h : String) → has h s.manager.repos ≡ true → has h t.manager.repos ≡ true
    found : All (λ (c : Config). has c.hash t.manager.repos ≡ true) us
