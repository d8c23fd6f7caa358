-- ===== src/Informer/Started.antt =====
-- What `main` has started when it begins to answer the probes.
use crossform.Common.{some, [], ◌∷◌}
use crossform.Manager.State.{Manager, new_manager}
use crossform.Informer.Process.{Process, manager_worker, modules_informer}

-- The process when `main` begins to wait.
abbrev pub waiting : {R W : Type 0} → W → Process R W
waiting w = record {
  manager = some new_manager;
  goroutines = manager_worker ∷ modules_informer ∷ [];
  world = w;
}
