-- ===== src/Informer/Overtaking.antt =====
-- What happens when the manager takes a deletion before the update that it takes back: both wait in
-- channels of their own, and `select` may choose either.
use crossform.Informer.Users.{IsCovered, start-IsCovered, Reach-IsCovered}
use crossform.Manager.Counts.{IsCounted, uses_of-on_update, uses_of-on_delete}
use crossform.Common.{◌≤◌, ◌≢◌, arith, eq-false_of_ne, String, ◌≡◌, refl, Option, some, []}
use crossform.Common.Dict.{lookup, lookup-put_self}
use crossform.Common.Json.{Fields}
use crossform.Common.Outcome.{ok}
use crossform.Repo.Config.{Config, new_config}
use crossform.Repo.Host.{Host}
use crossform.Manager.State.{new_manager, uses_of, on_update, on_delete}
use crossform.Informer.Handlers.{no_queues, send_update, send_delete, add_func, delete_func}
use crossform.Informer.System.{
  updated, worked, Step, System, start, receive_update, receive_delete, added, deleted,
  update_received, delete_received, Reach, here, next,
}

module _ {R W : Type 0} (md5_hex : String → String) (remove_all : String → W → Option String × W)
    (host : Host W R) where
  module _ (w : W) (u : Fields) (c : Config) (conf : new_config md5_hex u ≡ ok c) where
    add_func-ok : add_func md5_hex (some u) no_queues ≡ ok (send_update c no_queues)
    unfolding add_func
    add_func-ok = rw conf

    delete_func-ok :
        delete_func md5_hex (some u) (send_update c no_queues)
        ≡ ok (send_delete c (send_update c no_queues))
    unfolding delete_func
    delete_func-ok = rw conf

    -- the module was added and deleted, and the manager has taken neither message
    abbrev both_wait : System R W
    both_wait = record {
      live = [];
      queues = send_delete c (send_update c no_queues);
      manager = new_manager;
      world = w;
    }

    both_wait-Reach : Reach md5_hex remove_all host (start w) both_wait
    both_wait-Reach =
        next (next here (added (start w) u (send_update c no_queues) add_func-ok))
          (deleted _ [] [] u (send_delete c (send_update c no_queues)) refl delete_func-ok)

    abbrev overtaken : System R W
    overtaken =
        receive_update md5_hex remove_all host c []
          (receive_delete md5_hex remove_all host c [] both_wait)

    overtaken-uses : uses_of c.hash overtaken.manager ≡ 1
    unfolding new_manager on_delete on_update uses_of lookup
    overtaken-uses = rw (lookup-put_self c.hash)

  -- No deletion of the hash is taken on the way.
  abbrev Other : {s t : System R W} → String → Step md5_hex remove_all host s t → Type 0
  Other h (delete_received s c rest e) = c.hash ≢ h
  Other h _ = Unit

  pub Spares : {s t : System R W} → String → Reach md5_hex remove_all host s t → Type 0
  Spares h here = Unit
  Spares h (next reach st) = Spares h reach × Other h st

  Step-uses :
      (h : String) {s t : System R W} (st : Step md5_hex remove_all host s t)
      → IsCounted s.manager
      → Other h st
      → 1 ≤ uses_of h s.manager
      → 1 ≤ uses_of h t.manager
  Step-uses h (added s u q e) inv other used = used
  Step-uses h (updated s xs ys old new q at e) inv other used = used
  Step-uses h (deleted s xs ys u q at e) inv other used = used
  Step-uses h (update_received s c rest e) inv other used =
      omega (arith, uses_of-on_update c s.manager h inv)
  Step-uses h (delete_received s c rest e) inv other used =
      ground (
        arith,
        uses_of-on_delete remove_all c s.manager s.world h inv,
        eq-false_of_ne c.hash h other,
      )
  Step-uses h (worked s j r m found e) inv other used = unfold uses_of in used

  Reach-uses :
      (h : String) {s t : System R W} (reach : Reach md5_hex remove_all host s t)
      → IsCovered md5_hex remove_all host s
      → Spares h reach
      → 1 ≤ uses_of h s.manager
      → 1 ≤ uses_of h t.manager
  unfolding Spares
  Reach-uses h here inv spares used = used
  Reach-uses h (next reach st) inv spares used =
      Step-uses h st (Reach-IsCovered md5_hex remove_all host inv reach).counted spares.1
        (Reach-uses h reach inv spares.0 used)

  -- For every module: when it is added and deleted again before the manager has taken a message, the
  -- manager may reach a state where the cluster has no module and no message waits, and yet the
  -- repository is counted as used once; and from there it stays counted as used, whatever happens,
  -- for as long as the manager takes no other deletion of the same address and revision.
  pub deletion_overtakes :
      (w : W) (u : Fields) (c : Config)
      → new_config md5_hex u ≡ ok c
      → (s : System R W) × Reach md5_hex remove_all host (start w) s
        × (s.live ≡ [])
        × (s.queues ≡ no_queues)
        × (uses_of c.hash s.manager ≡ 1)
        × ((t : System R W) (reach : Reach md5_hex remove_all host s t)
            → Spares c.hash reach
            → 1 ≤ uses_of c.hash t.manager)
  deletion_overtakes w u c conf =
      let before =
        next (next (both_wait-Reach w u c conf) (delete_received (both_wait w u c conf) c [] refl))
          (update_received (receive_delete md5_hex remove_all host c [] (both_wait w u c conf)) c []
            refl) in
      let once = overtaken-uses w u c conf in
      (
        overtaken w u c conf,
        before,
        refl,
        refl,
        once,
        λ t reach spares.
            Reach-uses c.hash reach
              (Reach-IsCovered md5_hex remove_all host (start-IsCovered md5_hex remove_all host w)
                before)
              spares (omega (arith, once)),
      )
