-- ===== src/Informer/Jam.antt =====
-- What becomes of the manager when the `Destroy` that it calls is stuck.
use crossform.Common.{
  String, ◌≡◌, refl, sym, subst, Option, some, List, [], ◌∷◌, ◌++◌, arith, eq_iff, inl, inr,
  String-cases,
}
use mathlib.Core.List.{append-nil, append_assoc}
use crossform.Common.Dict.{Dict, lookup, put, remove, has, lookup-put, lookup-remove, lookup-nil}
use crossform.Common.Outcome.{Outcome-cases}
use crossform.Repo.Config.{Config}
use crossform.Repo.Lock.{
  Session, new_session, wants_lock, sending, Move, Moves, still, then, destroy_called,
}
use crossform.Repo.Exclusion.{Move-stuck}
use crossform.Manager.State.{Manager, get_repo_by_hash}
use crossform.Informer.Goroutines.{
  in_destroy, Running, running, with_worker, Turn, sent_update, sent_delete, update_taken,
  delete_taken, destroy_began, destroy_returned, moved, worked, Turns, none_yet, then_next,
}

-- The lock of every repository was only moved the ways that it can be.
abbrev AreSessions : Dict Session → Type 0
AreSessions d = (h : String) (l : Session) → lookup h d ≡ some l → Moves new_session l

put-AreSessions :
    (k : String) (l : Session) (d : Dict Session)
    → Moves new_session l
    → AreSessions d
    → AreSessions (put k l d)
put-AreSessions k l d ms all h l' e = elim (String-cases k h) [
  | inl same ↦ subst (Moves new_session) (ground (arith, lookup-put k h l d, eq_iff k h)) ms
  | inr other ↦ all h l' (ground (arith, lookup-put k h l d, eq_iff k h))
]

remove-AreSessions : (k : String) (d : Dict Session) → AreSessions d → AreSessions (remove k d)
remove-AreSessions k d all h l e = all h l (ground (arith, lookup-remove k h d))

with_worker-AreSessions :
    {R : Type 0} (c : Config) (m : Manager R) (d : Dict Session)
    → AreSessions d
    → AreSessions (with_worker c m d)
with_worker-AreSessions c m d all = elim (Outcome-cases (get_repo_by_hash c.hash m)) [
  | inl (r, p) ↦ rw (with_worker, p) all
  | inr (inl (x, p)) ↦ rw (with_worker, p) (put-AreSessions c.hash new_session d still all)
  | inr (inr p) ↦ rw (with_worker, p) (put-AreSessions c.hash new_session d still all)
]

module _ {R W : Type 0} (remove_all : String → W → Option String × W) where
  Turn-AreSessions :
      {s t : Running R W} → Turn remove_all s t → AreSessions s.sessions → AreSessions t.sessions
  Turn-AreSessions (sent_update s c) all = all
  Turn-AreSessions (sent_delete s c) all = all
  Turn-AreSessions (update_taken s c rest at e) all =
      with_worker-AreSessions c s.manager s.sessions all
  Turn-AreSessions (delete_taken s c rest at e keeps_it) all = all
  Turn-AreSessions (destroy_began s c rest l at e last found new) all =
      put-AreSessions c.hash _ s.sessions (then (all c.hash l found) (destroy_called l new)) all
  Turn-AreSessions (destroy_returned s c l at found done) all =
      remove-AreSessions c.hash s.sessions all
  Turn-AreSessions (moved s h l l' found m keeps) all =
      put-AreSessions h l' s.sessions (then (all h l found) m) all
  Turn-AreSessions (worked s h l r r' w found at there) all = all

  Turns-AreSessions :
      (w : W) (s : Running R W) → Turns remove_all (running w) s → AreSessions s.sessions
  Turns-AreSessions w _ none_yet = λ h l e. absurd (ground (arith, lookup-nil {V = Session} h))
  Turns-AreSessions w _ (then_next ts t) = Turn-AreSessions t (Turns-AreSessions w _ ts)

  -- The manager waits for a destruction that offers its message to a worker that waits for the lock.
  pub record IsJammed (s : Running R W) (c : Config) (l : Session) : Type 0 where
    pub waits : s.at ≡ in_destroy c
    pub found : lookup c.hash s.sessions ≡ some l
    pub worker : l.worker ≡ wants_lock
    pub destroyer : l.destroyer ≡ sending

  -- What a jammed manager keeps.
  pub record Stays (s t : Running R W) (c : Config) (l : Session) : Type 0 where
    pub jammed : IsJammed t c l
    pub updates : (more : List Config) × (t.queues.config_updates ≡ s.queues.config_updates ++ more)
    pub deletes : (more : List Config) × (t.queues.config_deletes ≡ s.queues.config_deletes ++ more)
    pub repos : (h : String) → has h t.manager.repos ≡ has h s.manager.repos

  Turn-Stays :
      (s : Running R W) (c : Config) (l : Session) {t u : Running R W}
      → Moves new_session l
      → Turn remove_all t u
      → Stays s t c l
      → Stays s u c l
  Turn-Stays s c l ms (sent_update t d) stays = record {
    jammed = ground (arith, stays.jammed.waits);
    updates = (
      stays.updates.0 ++ d ∷ [],
      rw (stays.updates.1) (append_assoc s.queues.config_updates stays.updates.0 (d ∷ [])),
    );
    deletes = stays.deletes;
    repos = stays.repos;
  }
  Turn-Stays s c l ms (sent_delete t d) stays = record {
    jammed = ground (arith, stays.jammed.waits);
    updates = stays.updates;
    deletes = (
      stays.deletes.0 ++ d ∷ [],
      rw (stays.deletes.1) (append_assoc s.queues.config_deletes stays.deletes.0 (d ∷ [])),
    );
    repos = stays.repos;
  }
  Turn-Stays s c l ms (update_taken t d rest at e) stays =
      absurd (ground (arith, stays.jammed.waits))
  Turn-Stays s c l ms (delete_taken t d rest at e keeps_it) stays =
      absurd (ground (arith, stays.jammed.waits))
  Turn-Stays s c l ms (destroy_began t d rest k at e last found new) stays =
      absurd (ground (arith, stays.jammed.waits))
  Turn-Stays s c l ms (destroy_returned t d k at found done) stays =
      absurd (ground (arith, stays.jammed.waits, stays.jammed.found, stays.jammed.destroyer))
  Turn-Stays s c l ms (moved t h k k' found m keeps) stays = elim (String-cases h c.hash) [
    | inl same ↦
        let e : k ≡ l = ground (arith, same, found, stays.jammed.found) in
        absurd (
          Move-stuck l k' ms stays.jammed.worker stays.jammed.destroyer
            (subst (λ (j : Session). Move j k') e m))
    | inr other ↦ record {
      jammed = ground (
        arith,
        stays.jammed.waits,
        stays.jammed.found,
        stays.jammed.worker,
        stays.jammed.destroyer,
        lookup-put h c.hash k' t.sessions,
        eq_iff h c.hash,
      );
      updates = stays.updates;
      deletes = stays.deletes;
      repos = stays.repos;
    }
  ]
  Turn-Stays s c l ms (worked t h k r r' w found at there) stays = record {
    jammed = ground (arith, stays.jammed.waits);
    updates = stays.updates;
    deletes = stays.deletes;
    repos =
        λ j. ground (arith, lookup-put h j r' t.manager.repos, stays.repos j, eq_iff h j, there);
  }

  Turns-Stays :
      (s : Running R W) (c : Config) (l : Session) {t : Running R W}
      → Moves new_session l
      → IsJammed s c l
      → Turns remove_all s t
      → Stays s t c l
  Turns-Stays s c l ms jam none_yet = record {
    jammed = jam;
    updates = ([], sym (append-nil s.queues.config_updates));
    deletes = ([], sym (append-nil s.queues.config_deletes));
    repos = λ h. refl;
  }
  Turns-Stays s c l ms jam (then_next ts t) = Turn-Stays s c l ms t (Turns-Stays s c l ms jam ts)

  -- Once the manager waits for a destruction that offers its message while the worker of the
  -- repository waits for the lock, it is so for ever, whatever the goroutines do: every message that
  -- waits for the manager goes on waiting, before those that are sent later, and no repository is
  -- made or dropped any more, for no module.
  pub manager-Stays :
      (w : W) (s t : Running R W) (c : Config) (l : Session)
      → Turns remove_all (running w) s
      → IsJammed s c l
      → Turns remove_all s t
      → Stays s t c l
  manager-Stays w s t c l before jam after =
      Turns-Stays s c l (Turns-AreSessions w s before c.hash l jam.found) jam after
