-- ===== src/Informer/System.antt =====
-- main.go, pkg/RepoManager/repoManager.go and pkg/repo/repo.go together: the modules of the cluster,
-- the two channels, the manager and the workers of its repositories. The informer reports each change
-- of the cluster; the manager's `select` takes from either channel that has something, so a deletion
-- and an update may pass each other. A round of a repository's worker is one step: it holds the lock
-- of the repository from its start to its end. So is a deletion with its `Destroy`, which in the
-- program waits for the lock and may block for ever: what holds in every state that these steps reach
-- holds also where a step is never finished, but nothing here says that one is. Goroutines has the
-- `Destroy` that takes time. A panic ends the program, so no step follows one.
use crossform.Common.{String, ◌≡◌, Option, some, List, [], ◌∷◌, ◌++◌}
use crossform.Common.Json.{Fields}
use crossform.Common.Outcome.{ok}
use crossform.Common.Dict.{lookup, put}
use crossform.Repo.Config.{Config}
use crossform.Repo.State.{Repo}
use crossform.Repo.Host.{Host}
use crossform.Repo.Act.{Machine}
use crossform.Repo.Work.{work}
use crossform.Manager.State.{Manager, new_manager, on_update, on_delete}
use crossform.Informer.Handlers.{Queues, no_queues, add_func, update_func, delete_func}

pub record System (R W : Type 0) : Type 0 where
  pub live : List Fields
  pub queues : Queues
  pub manager : Manager R
  pub world : W

abbrev pub start : {R W : Type 0} → W → System R W
start w = record { live = []; queues = no_queues; manager = new_manager; world = w }

module _ {R W : Type 0} (md5_hex : String → String) (remove_all : String → W → Option String × W)
    (host : Host W R) where
  abbrev pub receive_update : Config → List Config → System R W → System R W
  receive_update c rest s = record s {
    queues = record s.queues { config_updates = rest };
    manager = on_update c s.manager;
  }

  abbrev pub receive_delete : Config → List Config → System R W → System R W
  receive_delete c rest s =
      let (m, w) = on_delete remove_all c s.manager s.world in
      record s { queues = record s.queues { config_deletes = rest }; manager = m; world = w }

  abbrev pub put_repo : String → Machine W R → System R W → System R W
  put_repo h m s = record s {
    manager = record s.manager { repos = put h m.repo s.manager.repos };
    world = m.world;
  }

  pub data Step : System R W → System R W → Type 0 where
    added :
        (s : System R W) (u : Fields) (q : Queues)
        → add_func md5_hex (some u) s.queues ≡ ok q
        → Step s (record s { live = u ∷ s.live; queues = q })
    updated :
        (s : System R W) (xs ys : List Fields) (old new : Fields) (q : Queues)
        → s.live ≡ xs ++ old ∷ ys
        → update_func md5_hex (some old) (some new) s.queues ≡ ok q
        → Step s (record s { live = xs ++ new ∷ ys; queues = q })
    deleted :
        (s : System R W) (xs ys : List Fields) (u : Fields) (q : Queues)
        → s.live ≡ xs ++ u ∷ ys
        → delete_func md5_hex (some u) s.queues ≡ ok q
        → Step s (record s { live = xs ++ ys; queues = q })
    update_received :
        (s : System R W) (c : Config) (rest : List Config)
        → s.queues.config_updates ≡ c ∷ rest
        → Step s (receive_update c rest s)
    delete_received :
        (s : System R W) (c : Config) (rest : List Config)
        → s.queues.config_deletes ≡ c ∷ rest
        → Step s (receive_delete c rest s)
    worked :
        (s : System R W) (h : String) (r : Repo R) (m : Machine W R)
        → lookup h s.manager.repos ≡ some r
        → work host (record { repo = r; world = s.world }) ≡ (ok tt, m)
        → Step s (put_repo h m s)

  pub data Reach (s : System R W) : System R W → Type 0 where
    here : Reach s s
    next : {t u : System R W} → Reach s t → Step t u → Reach s u
