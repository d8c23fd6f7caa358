-- ===== src/Informer/Tests.antt =====
-- Small runs of the informer, the manager and a repository. The hash function keeps its text.
use crossform.Common.{String, ◌≡◌, refl, Option, none, some, [], ◌∷◌}
use crossform.Common.Dict.{lookup, put, remove}
use crossform.Common.Json.{str, obj, Fields, end, field, get, entries}
use crossform.Common.Outcome.{Outcome, ok, fail, ◌>>=◌}
use crossform.Repo.Config.{Config, config_of, new_config}
use crossform.Repo.State.{Repo, new_repo}
use crossform.Repo.Destroy.{destroy}
use crossform.Manager.State.{new_manager, on_update, on_delete, get_repo, get_repo_by_hash, uses_of}
use crossform.Informer.Handlers.{
  Queues, no_queues, send_update, send_delete, add_func, update_func, delete_func,
}
use crossform.Informer.System.{
  System, start, put_repo, receive_update, receive_delete, added, updated, update_received,
  delete_received, Reach, here, next,
}
use crossform.Executor.Types.{ExecCommand}
use crossform.Repo.Work
use crossform.Repo.Samples.{Remote, host, md5, config, ready}
use crossform.Manager.Execute.{execute}
use crossform.Informer.Users.{live-get_repo}
use crossform.Informer.Overtaking.{Spares, deletion_overtakes}
use crossform.Common.{◌≤◌}

abbrev remove_all : String → Remote → Option String × Remote
remove_all path w = (none, w)

abbrev module_of : String → String → Fields
module_of url revision =
    field "spec" (obj (field "repository" (str url) (field "revision" (str revision) end))) end

abbrev other_config : Config
other_config = config_of md5 "https://git" "v1"

abbrev on_main : Fields
on_main = module_of "https://git" "main"

abbrev on_tag : Fields
on_tag = module_of "https://git" "v1"

program : Unit {0}
unfolding new_config add_func update_func delete_func get entries lookup put remove ◌>>=◌
    new_manager on_update on_delete get_repo get_repo_by_hash uses_of destroy new_repo
program = tt

new_config-on_main : new_config md5 on_main ≡ ok config
unfolding program
new_config-on_main = refl

-- An informer that was told of a module of another revision sends both messages.
update_func-on_tag :
    update_func md5 (some on_main) (some on_tag) no_queues
    ≡ ok (send_update other_config (send_delete config no_queues))
unfolding program
update_func-on_tag = refl

-- A change that keeps the address and the revision sends nothing.
update_func-same : update_func md5 (some on_main) (some on_main) no_queues ≡ ok no_queues
unfolding program
update_func-same = refl

abbrev M : Type 0
M = System (Unit {0}) Remote

-- Two modules use a repository, one changes its revision, and the deletion is taken before the
-- update.
abbrev two_wait : Queues
two_wait = send_update config (send_update config no_queues)

abbrev told_two : M
told_two = record {
  live = on_main ∷ on_main ∷ [];
  queues = two_wait;
  manager = new_manager;
  world = some "c1";
}

told_two-Reach : Reach md5 remove_all host (start (some "c1")) told_two
unfolding program
told_two-Reach =
    next (next here (added (start (some "c1")) on_main (send_update config no_queues) refl))
      (added _ on_main two_wait refl)

abbrev took_one : M
took_one = receive_update md5 remove_all host config (config ∷ []) told_two

abbrev took_two : M
took_two = receive_update md5 remove_all host config [] took_one

took_two-Reach : Reach md5 remove_all host (start (some "c1")) took_two
took_two-Reach =
    next (next told_two-Reach (update_received told_two config (config ∷ []) refl))
      (update_received took_one config [] refl)

abbrev changed : M
changed = record took_two {
  live = on_tag ∷ on_main ∷ [];
  queues = send_update other_config (send_delete config no_queues);
}

changed-Reach : Reach md5 remove_all host (start (some "c1")) changed
unfolding program
changed-Reach = next took_two-Reach (
    updated took_two [] (on_main ∷ []) on_main on_tag
      (send_update other_config (send_delete config no_queues)) refl refl)

abbrev deletion_taken : M
deletion_taken = receive_delete md5 remove_all host config [] changed

abbrev settled : M
settled = receive_update md5 remove_all host other_config [] deletion_taken

settled-Reach : Reach md5 remove_all host (start (some "c1")) settled
settled-Reach =
    next (next changed-Reach (delete_received changed config [] refl))
      (update_received deletion_taken other_config [] refl)

live-get_repo_example :
    (r : Repo (Unit {0})) × (get_repo md5 "https://git" "main" settled.manager ≡ ok r)
live-get_repo_example =
    live-get_repo md5 remove_all host (some "c1") settled (on_tag ∷ []) [] on_main config
      settled-Reach refl new_config-on_main refl

deletion_overtakes_example :
    (s : M) × Reach md5 remove_all host (start (some "c1")) s
    × (s.live ≡ [])
    × (s.queues ≡ no_queues)
    × (uses_of config.hash s.manager ≡ 1)
    × ((t : M) (reach : Reach md5 remove_all host s t)
        → Spares md5 remove_all host config.hash reach
        → 1 ≤ uses_of config.hash t.manager)
deletion_overtakes_example =
    deletion_overtakes md5 remove_all host (some "c1") on_main config new_config-on_main

abbrev cmd : ExecCommand
cmd = record {
  repository_url = "https://git";
  repository_revision = "main";
  path = "module";
  observed = [];
  requested = [];
  module_name = "example";
  xr = end;
  context = "{}";
}

-- `executor.Execute` that answers with the directory.
abbrev run : String → ExecCommand → Outcome String
run path _ = ok path

execute-fresh : execute md5 run cmd settled.manager ≡ fail "repository not initialized"
unfolding program execute Work.execute
execute-fresh = refl

-- After a round of the repository's worker, the module is executed.
abbrev cloned : M
cloned = put_repo md5 remove_all host config.hash ready settled

new_config-on_tag : new_config md5 on_tag ≡ ok other_config
unfolding program
new_config-on_tag = refl

-- The module that changed its revision has no repository yet: its update waits.
get_repo-changed :
    get_repo md5 "https://git" "v1" changed.manager ≡ fail "Repository not found: https://gitv1"
unfolding program
get_repo-changed = refl
