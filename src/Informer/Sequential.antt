-- ===== src/Informer/Sequential.antt =====
-- What the manager has done while a `Destroy` takes time, against its loop over the messages that it
-- took, one after the other.
use crossform.Common.{ℕ, ◌+◌, String, ◌≡◌, refl, ap, Option, List, [], ◌∷◌, ◌++◌, arith, eq_iff}
use crossform.Common.Dict.{lookup-put}
use crossform.Repo.Config.{Config}
use crossform.Manager.State.{new_manager}
use crossform.Manager.Counts.{one_if}
use crossform.Manager.Replay.{Message, update, delete, worker, updates_of, deletes_of}
use crossform.Informer.Users.{pending, pending-append, pending-send}
use crossform.Informer.Goroutines.{
  ManagerAt, at_select, in_destroy, Running, running, Turn, sent_update, sent_delete, update_taken,
  delete_taken, destroy_began, destroy_returned, moved, worked, Turns, none_yet, then_next,
}
use crossform.Manager.Same.{
  SameKeys, update-SameKeys, delete-SameKeys, updates_of-append, deletes_of-append,
}

-- One if the manager is destroying for a deletion of the hash.
abbrev pub being_deleted : String → ManagerAt → ℕ
being_deleted h at_select = 0
being_deleted h (in_destroy c) = one_if c.hash h

module _ {R W : Type 0} (remove_all : String → W → Option String × W) where
  -- What was sent in a run, on each channel.
  abbrev update_in : {s t : Running R W} → Turn remove_all s t → List Config
  update_in (sent_update s c) = c ∷ []
  update_in _ = []

  abbrev delete_in : {s t : Running R W} → Turn remove_all s t → List Config
  delete_in (sent_delete s c) = c ∷ []
  delete_in _ = []

  pub sent_updates : {s t : Running R W} → Turns remove_all s t → List Config
  sent_updates none_yet = []
  sent_updates (then_next ts t) = sent_updates ts ++ update_in t

  pub sent_deletes : {s t : Running R W} → Turns remove_all s t → List Config
  sent_deletes none_yet = []
  sent_deletes (then_next ts t) = sent_deletes ts ++ delete_in t

  -- The messages are those that were sent and wait no more, and the manager is as after them.
  pub record IsAfter (w : W) (s : Running R W) (us ds : List Config) (msgs : List Message)
      : Type 0 where
    pub same : SameKeys s.manager (worker remove_all msgs (new_manager, w)).0
    pub updates :
        (h : String) → updates_of h msgs + pending h s.queues.config_updates ≡ pending h us
    pub deletes :
        (h : String)
        → deletes_of h msgs + being_deleted h s.at + pending h s.queues.config_deletes
          ≡ pending h ds

  Turn-IsAfter :
      (w : W) {s t : Running R W} (us ds : List Config) (msgs : List Message)
      (turn : Turn remove_all s t)
      → IsAfter w s us ds msgs
      → (msgs' : List Message) × IsAfter w t (us ++ update_in turn) (ds ++ delete_in turn) msgs'
  unfolding pending
  Turn-IsAfter w us ds msgs (sent_update s c) inv = (
    msgs,
    record {
      same = inv.same;
      updates = λ h.
          omega
            (arith, inv.updates h, pending-send h c s.queues.config_updates, pending-send h c us);
      deletes = λ h. omega (arith, inv.deletes h, pending-append h ds []);
    },
  )
  Turn-IsAfter w us ds msgs (sent_delete s c) inv = (
    msgs,
    record {
      same = inv.same;
      updates = λ h. omega (arith, inv.updates h, pending-append h us []);
      deletes = λ h.
          omega
            (arith, inv.deletes h, pending-send h c s.queues.config_deletes, pending-send h c ds);
    },
  )
  Turn-IsAfter w us ds msgs (update_taken s c rest at e) inv = (
    msgs ++ update c ∷ [],
    record {
      same = update-SameKeys remove_all c s.manager msgs (new_manager, w) inv.same;
      updates = λ h. omega (
        arith,
        inv.updates h,
        ap (pending h) e,
        updates_of-append h msgs (update c ∷ []),
        pending-append h us [],
      );
      deletes = λ h.
          omega (
            arith,
            inv.deletes h,
            deletes_of-append h msgs (update c ∷ []),
            pending-append h ds [],
          );
    },
  )
  Turn-IsAfter w us ds msgs (delete_taken s c rest at e keeps_it) inv = (
    msgs ++ delete c ∷ [],
    record {
      same = delete-SameKeys remove_all c s.manager s.world msgs (new_manager, w) inv.same;
      updates = λ h.
          omega (
            arith,
            inv.updates h,
            updates_of-append h msgs (delete c ∷ []),
            pending-append h us [],
          );
      deletes = λ h. omega (
        arith,
        inv.deletes h,
        ap (pending h) e,
        deletes_of-append h msgs (delete c ∷ []),
        pending-append h ds [],
      );
    },
  )
  Turn-IsAfter w us ds msgs (destroy_began s c rest l at e last found new) inv = (
    msgs,
    record {
      same = inv.same;
      updates = λ h. omega (arith, inv.updates h, pending-append h us []);
      deletes = λ h.
          omega (
            arith,
            inv.deletes h,
            ap (pending h) e,
            ap (being_deleted h) at,
            pending-append h ds [],
          );
    },
  )
  Turn-IsAfter w us ds msgs (destroy_returned s c l at found done) inv = (
    msgs ++ delete c ∷ [],
    record {
      same = delete-SameKeys remove_all c s.manager s.world msgs (new_manager, w) inv.same;
      updates = λ h.
          omega (
            arith,
            inv.updates h,
            updates_of-append h msgs (delete c ∷ []),
            pending-append h us [],
          );
      deletes = λ h. omega (
        arith,
        inv.deletes h,
        ap (being_deleted h) at,
        deletes_of-append h msgs (delete c ∷ []),
        pending-append h ds [],
      );
    },
  )
  Turn-IsAfter w us ds msgs (moved s h l l' found m keeps) inv = (
    msgs,
    record {
      same = inv.same;
      updates = λ k. omega (arith, inv.updates k, pending-append k us []);
      deletes = λ k. omega (arith, inv.deletes k, pending-append k ds []);
    },
  )
  Turn-IsAfter w us ds msgs (worked s h l r r' w' found at there) inv = (
    msgs,
    record {
      same = record {
        uses = inv.same.uses;
        repos = λ k.
            ground (arith, inv.same.repos k, lookup-put h k r' s.manager.repos, eq_iff h k, there);
      };
      updates = λ k. omega (arith, inv.updates k, pending-append k us []);
      deletes = λ k. omega (arith, inv.deletes k, pending-append k ds []);
    },
  )

  -- However the goroutines take their steps, and however long each `Destroy` takes: there is a
  -- sequence of messages after which the loop of the manager, with nothing beside it, has the same
  -- counts, and repositories for the same hashes; and for each hash the messages in it, those that
  -- wait, and the deletion that the manager is at, are as many as were sent. So no message is lost,
  -- and none takes effect twice.
  pub Turns-worker :
      (w : W) (s : Running R W) (turns : Turns remove_all (running w) s)
      → (msgs : List Message) × IsAfter w s (sent_updates turns) (sent_deletes turns) msgs
  unfolding sent_updates sent_deletes pending worker
  Turns-worker w s none_yet = (
    [],
    record {
      same = record { uses = refl; repos = λ h. refl };
      updates = λ h. omega arith;
      deletes = λ h. omega arith;
    },
  )
  Turns-worker w s (then_next ts turn) =
      let (msgs, inv) = Turns-worker w _ ts in
      Turn-IsAfter w (sent_updates ts) (sent_deletes ts) msgs turn inv
