-- ===== src/Manager/Tests.antt =====
-- Small runs of the manager's worker.
use crossform.Common.{
  ℕ, suc, ◌+◌, String, ◌≡◌, refl, Option, none, List, [], ◌∷◌, ltb, is_some, arith,
}
use crossform.Common.Dict.{lookup, put, remove}
use crossform.Common.Outcome.{ok}
use crossform.Repo.Config.{Config, config_of}
use crossform.Repo.State.{new_repo}
use crossform.Repo.Destroy.{destroy}
use crossform.Manager.State.{
  Manager, new_manager, on_update, on_delete, get_repo, get_repo_by_hash, uses_of,
}
use crossform.Manager.Start.{Disk, new_repo_manager}
use crossform.Common.Outcome.{Outcome, panic}
use crossform.Common.{some, not}
use crossform.Manager.Counts.{new_manager-IsCounted}
use crossform.Manager.Replay.{
  Message, update, delete, worker, receive, worker_counts, updates_of, deletes_of,
}

abbrev md5 : String → String
md5 s = s

abbrev remove_all : String → ℕ → Option String × ℕ
remove_all path w = (none, suc w)

abbrev main : Config
main = config_of md5 "https://git" "main"

abbrev tag : Config
tag = config_of md5 "https://git" "v1"

abbrev messages : List Message
messages = update main ∷ update main ∷ update tag ∷ delete main ∷ delete tag ∷ []

abbrev empty : Manager (Unit {0})
empty = new_manager

program : Unit {0}
unfolding worker receive on_update on_delete get_repo get_repo_by_hash uses_of destroy new_repo
    lookup put remove new_manager
program = tt

-- Only the repository of the tag is destroyed.
worker-messages :
    (uses_of main.hash (worker remove_all messages (empty, 0)).0 ≡ 1)
    × (uses_of tag.hash (worker remove_all messages (empty, 0)).0 ≡ 0)
    × ((worker remove_all messages (empty, 0)).1 ≡ 1)
unfolding program
worker-messages = (refl, refl, refl)

worker_counts_example :
    (uses_of main.hash (worker remove_all messages (empty, 0)).0 + deletes_of main.hash messages
      ≡ uses_of main.hash empty + updates_of main.hash messages)
    × (is_some (lookup main.hash (worker remove_all messages (empty, 0)).0.repos)
        ≡ ltb 0 (uses_of main.hash (worker remove_all messages (empty, 0)).0))
unfolding program
worker_counts_example =
    worker_counts remove_all main.hash messages empty 0 new_manager-IsCounted
      (omega arith, (omega arith, tt))

-- A disk: the clones below the directory, if it is there.
abbrev Clones : Type 0
Clones = Option (List String)

abbrev make_empty : Clones → Option String × Clones
make_empty none = (none, some [])
make_empty (some clones) = (some "file exists", some clones)

abbrev disk : Disk Clones
disk = record {
  is_missing = λ path w. not (is_some w);
  remove_all = λ path w. (none, none);
  mkdir = λ path w. make_empty w;
}

abbrev stuck_disk : Disk Clones
stuck_disk = record disk { remove_all = λ path w. (some "device busy", w) }

abbrev old_clones : Clones
old_clones = some ("repos/1" ∷ [])

abbrev started : Outcome (Manager (Unit {0})) × Clones
started = new_repo_manager disk old_clones

new_repo_manager-old : started ≡ (ok new_manager, some [])
unfolding new_repo_manager new_manager
new_repo_manager-old = refl

new_repo_manager-busy : new_repo_manager {R = Unit {0}} stuck_disk old_clones ≡ (panic, old_clones)
unfolding new_repo_manager
new_repo_manager-busy = refl
