-- ===== src/Informer/ProcessTests.antt =====
-- A start in a directory without clones, on a cluster whose modules never come.
use crossform.Common.{String, Bool, true, false, not, is_some, Option, none, some, List, [], ◌∷◌}
use crossform.Common.Outcome.{ok}
use crossform.Manager.State.{new_manager}
use crossform.Manager.Start.{Disk}
use crossform.Informer.Process.{
  Platform, Process, manager_worker, modules_informer, function_server,
}
use crossform.Manager.State.{Manager, on_update}
use crossform.Repo.Samples.{config}

-- The clones below the directory, if it is there.
abbrev Clones : Type 0
Clones = Option (List String)

abbrev make_empty : Clones → Option String × Clones
make_empty none = (none, some [])
make_empty (some clones) = (some "file exists", some clones)

abbrev disk : Disk Clones
disk = record {
  is_missing = λ path w. not (is_some w);
  remove_all = λ path w. (none, none);
  mkdir = λ path w. make_empty w;
}

abbrev has_clones : String → Clones → Bool
has_clones path none = false
has_clones path (some []) = false
has_clones path (some (c ∷ cs)) = true

abbrev platform : Platform
platform = record {
  modules_informer = ok tt;
  synced = true;
  new_probe = λ name. ok tt;
  new_probes = ok tt;
  listen_and_serve = some "address in use";
}

abbrev P : Type 0
P = Process Clones Clones

-- A module is known by the time that the function is served.
abbrev meanwhile : Manager Clones × Clones → Manager Clones × Clones
meanwhile (m, w) = (on_update config m, w)

abbrev up : P
up = record {
  manager = some (on_update config new_manager);
  goroutines = manager_worker ∷ modules_informer ∷ function_server ∷ [];
  world = some [];
}
