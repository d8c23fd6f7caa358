-- ===== src/Informer/Process.antt =====
-- main.go: `main` and the informer that `makeModulesInformer` starts. A log line at the level of
-- panics panics, so what stands after it is not reached; a panic of any goroutine ends the program.
use crossform.Common.{String, Bool, Option, none, some, List, [], ◌∷◌, ◌++◌, if◌then◌else◌}
use crossform.Common.Outcome.{Outcome, ok, fail, panic}
use crossform.Manager.State.{Manager}
use crossform.Manager.Start.{Disk, new_repo_manager}
use crossform.Crossplane.Serve.{ServeOption, run}

-- What `main` calls of client-go and of the probes.
pub record Platform : Type 0 where
  -- GetConfigOrDie, the client and the informer made from it; the program may end here
  pub modules_informer : Outcome (Unit {0})
  -- WaitForCacheSync
  pub synced : Bool
  pub new_probe : String → Outcome (Unit {0})
  pub new_probes : Outcome (Unit {0})
  -- ListenAndServe: an error, or none
  pub listen_and_serve : Option String

pub data Goroutine : Type 0 where
  manager_worker modules_informer function_server : Goroutine

pub record Process (R W : Type 0) : Type 0 where
  pub manager : Option (Manager R)
  pub goroutines : List Goroutine
  pub world : W

abbrev pub go : {R W : Type 0} → Goroutine → Process R W → Process R W
go g p = record p { goroutines = p.goroutines ++ g ∷ [] }

-- `if err != nil { log.Panic()… }`, before the rest
abbrev pub or_panic : {A : Type 0} → Outcome A → Outcome (Unit {0}) → Outcome (Unit {0})
or_panic (ok a) rest = rest
or_panic _ rest = panic

-- the body of `functionStart`
unfoldable pub function_start : (List ServeOption → Option String) → Outcome (Unit {0})
function_start serve = elim (run serve) [ none ↦ ok tt | some e ↦ panic ]

-- what `makeModulesInformer` returns after the wait
abbrev pub wait_error : Platform → Outcome (Unit {0})
wait_error platform = if platform.synced then ok tt else fail "timed out waiting for caches to sync"

module _ {R W : Type 0} (platform : Platform) where
  -- The error of `makeModulesInformer` is dropped.
  abbrev pub after_wait : Outcome (Unit {0}) → Process R W → Outcome (Unit {0}) × Process R W
  after_wait panic p = (panic, p)
  after_wait _ p = (
    or_panic (platform.new_probe "live")
        (or_panic (platform.new_probe "ready") (or_panic platform.new_probes (ok tt))),
    go function_server p,
  )

module _ {R W : Type 0} where
  -- While `main` waits, the handlers, the worker of the manager and those of the repositories run:
  -- `meanwhile` is what they make of the manager and of the world.
  abbrev pub waited : (Manager R × W → Manager R × W) → Process R W → Process R W
  waited meanwhile p = elim p.manager [
    | none ↦ p
    | some m ↦ let (m', w') = meanwhile (m, p.world) in record p { manager = some m'; world = w' }
  ]

module _ {R W : Type 0} (disk : Disk W) (platform : Platform) where
  -- `makeModulesInformer`, up to the wait for the first list of modules
  unfoldable pub run_informer : Process R W → Outcome (Unit {0}) × Process R W
  run_informer p = elim platform.modules_informer [
    | ok u ↦ (ok tt, go modules_informer p)
    | _ ↦ (panic, p)
  ]

  abbrev pub managed : Outcome (Manager R) × W → Outcome (Unit {0}) × Process R W
  managed (ok m, w) =
      run_informer (record { manager = some m; goroutines = manager_worker ∷ []; world = w })
  managed (_, w) = (panic, record { manager = none; goroutines = []; world = w })

  -- `main`, up to that wait
  unfoldable pub launch : W → Outcome (Unit {0}) × Process R W
  launch w = managed (new_repo_manager disk w)

  abbrev pub launched :
      (Manager R × W → Manager R × W)
      → Outcome (Unit {0}) × Process R W
      → Outcome (Unit {0}) × Process R W
  launched meanwhile (ok u, p) = after_wait platform (wait_error platform) (waited meanwhile p)
  launched meanwhile other = other

  -- `main`, up to the call of `ListenAndServe`
  unfoldable pub until_serving :
      (Manager R × W → Manager R × W) → W → Outcome (Unit {0}) × Process R W
  until_serving meanwhile w = launched meanwhile (launch w)

  abbrev served : Outcome (Unit {0}) × Process R W → Outcome (Unit {0}) × Process R W
  served (ok u, p) = (elim platform.listen_and_serve [ none ↦ ok tt | some e ↦ panic ], p)
  served other = other

  unfoldable pub main : (Manager R × W → Manager R × W) → W → Outcome (Unit {0}) × Process R W
  main meanwhile w = served (until_serving meanwhile w)
