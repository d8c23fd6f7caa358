-- ===== src/Informer/Goroutines.antt =====
-- pkg/RepoManager/repoManager.go and pkg/repo/repo.go: the goroutine of the manager and those of the
-- repositories at once. Here `Destroy`, which the manager's worker calls and waits for, takes time:
-- it begins, moves on with the lock and the channel of its repository, and returns. The state of a
-- repository may change whenever its worker has the lock, which allows more runs than the program.
use crossform.Common.{String, ◌≡◌, Bool, true, false, not, Option, some, [], List, ◌∷◌, ltb}
use crossform.Common.Dict.{Dict, lookup, put, remove}
use crossform.Common.Outcome.{ok}
use crossform.Repo.Config.{Config}
use crossform.Repo.State.{Repo}
use crossform.Repo.Lock.{Session, new_session, not_called, locking, returned, working, Move}
use crossform.Manager.State.{Manager, new_manager, get_repo_by_hash, uses_of, on_update, on_delete}
use crossform.Informer.Handlers.{Queues, no_queues, send_update, send_delete}

-- where the worker of the manager is
pub data ManagerAt : Type 0 where
  at_select : ManagerAt
  in_destroy : Config → ManagerAt

pub record Running (R W : Type 0) : Type 0 where
  pub queues : Queues
  pub manager : Manager R
  pub at : ManagerAt
  pub sessions : Dict Session
  pub world : W

abbrev pub running : {R W : Type 0} → W → Running R W
running w = record {
  queues = no_queues;
  manager = new_manager;
  at = at_select;
  sessions = [];
  world = w;
}

-- the tests of the case of deletions: the repository is there, and has one user at most
abbrev pub must_destroy : {R : Type 0} → Config → Manager R → Bool
must_destroy c m = elim (get_repo_by_hash c.hash m) [
  | ok r ↦ not (ltb 1 (uses_of c.hash m))
  | _ ↦ false
]

-- `NewRepo` starts a worker, unless the repository is there.
abbrev pub with_worker : {R : Type 0} → Config → Manager R → Dict Session → Dict Session
with_worker c m sessions = elim (get_repo_by_hash c.hash m) [
  | ok r ↦ sessions
  | _ ↦ put c.hash new_session sessions
]

module _ {R W : Type 0} (remove_all : String → W → Option String × W) where
  abbrev pub take_update : Config → List Config → Running R W → Running R W
  take_update c rest s = record s {
    queues = record s.queues { config_updates = rest };
    manager = on_update c s.manager;
    sessions = with_worker c s.manager s.sessions;
  }

  abbrev pub take_delete : Config → List Config → Running R W → Running R W
  take_delete c rest s = record s {
    queues = record s.queues { config_deletes = rest };
    manager = (on_delete remove_all c s.manager s.world).0;
  }

  abbrev pub begin_destroy : Config → List Config → Session → Running R W → Running R W
  begin_destroy c rest l s = record s {
    queues = record s.queues { config_deletes = rest };
    at = in_destroy c;
    sessions = put c.hash (record l { destroyer = locking }) s.sessions;
  }

  abbrev pub end_destroy : Config → Running R W → Running R W
  end_destroy c s =
      let (m, w) = on_delete remove_all c s.manager s.world in
      record s { manager = m; at = at_select; sessions = remove c.hash s.sessions; world = w }

  pub data Turn : Running R W → Running R W → Type 0 where
    sent_update :
        (s : Running R W) (c : Config) → Turn s (record s { queues = send_update c s.queues })
    sent_delete :
        (s : Running R W) (c : Config) → Turn s (record s { queues = send_delete c s.queues })
    update_taken :
        (s : Running R W) (c : Config) (rest : List Config)
        → s.at ≡ at_select
        → s.queues.config_updates ≡ c ∷ rest
        → Turn s (take_update c rest s)
    delete_taken :
        (s : Running R W) (c : Config) (rest : List Config)
        → s.at ≡ at_select
        → s.queues.config_deletes ≡ c ∷ rest
        → must_destroy c s.manager ≡ false
        → Turn s (take_delete c rest s)
    destroy_began :
        (s : Running R W) (c : Config) (rest : List Config) (l : Session)
        → s.at ≡ at_select
        → s.queues.config_deletes ≡ c ∷ rest
        → must_destroy c s.manager ≡ true
        → lookup c.hash s.sessions ≡ some l
        → l.destroyer ≡ not_called
        → Turn s (begin_destroy c rest l s)
    destroy_returned :
        (s : Running R W) (c : Config) (l : Session)
        → s.at ≡ in_destroy c
        → lookup c.hash s.sessions ≡ some l
        → l.destroyer ≡ returned
        → Turn s (end_destroy c s)
    -- a repository's worker, an execution of a module, or a `Destroy` that was called
    moved :
        (s : Running R W) (h : String) (l l' : Session)
        → lookup h s.sessions ≡ some l
        → Move l l'
        → ((l.destroyer ≡ not_called) → l'.destroyer ≡ not_called)
        → Turn s (record s { sessions = put h l' s.sessions })
    worked :
        (s : Running R W) (h : String) (l : Session) (r r' : Repo R) (w : W)
        → lookup h s.sessions ≡ some l
        → l.worker ≡ working
        → lookup h s.manager.repos ≡ some r
        → Turn s (record s {
          manager = record s.manager { repos = put h r' s.manager.repos };
          world = w;
        })

  pub data Turns (s : Running R W) : Running R W → Type 0 where
    none_yet : Turns s s
    then_next : {t u : Running R W} → Turns s t → Turn t u → Turns s u
