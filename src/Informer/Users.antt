-- ===== src/Informer/Users.antt =====
-- Whatever the order in which the manager takes from its two channels, no module that is in the
-- cluster loses its repository.
use crossform.Common.{
  ℕ, ◌+◌, ◌≤◌, ◌<◌, String, ◌≡◌, ap, Option, some, List, [], ◌∷◌, ◌++◌, inl, inr, Option-cases,
  arith, eq_iff,
}
use crossform.Common.Dict.{lookup}
use crossform.Common.Json.{Fields}
use crossform.Common.Outcome.{Outcome, ok, Outcome-cases}
use crossform.Repo.Config.{Config, new_config, new_config-ne-fail, new_config-hash, hash_input}
use crossform.Repo.State.{Repo}
use crossform.Manager.State.{Manager, uses_of, get_repo}
use crossform.Repo.Host.{Host}
use crossform.Manager.Counts.{
  put-IsCounted, IsCounted, new_manager-IsCounted, one_if, on_update-IsCounted, uses_of-on_update,
  on_delete-IsCounted, uses_of-on_delete,
}
use crossform.Informer.Handlers.{Queues, add_func, update_func, delete_func}
use crossform.Informer.System.{
  worked, System, start, Step, added, updated, deleted, update_received, delete_received, Reach,
  here, next,
}

-- How many configurations in a channel have the hash.
unfoldable pub pending : String → List Config → ℕ
pending h [] = 0
pending h (c ∷ cs) = one_if c.hash h + pending h cs

abbrev pub weight : String → Outcome Config → ℕ
weight h (ok c) = one_if c.hash h
weight h _ = 0

pub pending-append :
    (h : String) (xs ys : List Config) → pending h (xs ++ ys) ≡ pending h xs + pending h ys
unfolding pending
pending-append h [] ys = omega arith
pending-append h (c ∷ cs) ys = omega (arith, pending-append h cs ys)

pub pending-send :
    (h : String) (c : Config) (cs : List Config)
    → pending h (cs ++ c ∷ []) ≡ pending h cs + one_if c.hash h
unfolding pending
pending-send h c cs = omega (arith, pending-append h cs (c ∷ []))

module _ (md5_hex : String → String) where
  -- How many modules of the cluster use the repository of the hash.
  pub users : String → List Fields → ℕ
  users h [] = 0
  users h (u ∷ us) = weight h (new_config md5_hex u) + users h us

  users-append : (h : String) (xs ys : List Fields) → users h (xs ++ ys) ≡ users h xs + users h ys
  unfolding users
  users-append h [] ys = omega arith
  users-append h (u ∷ us) ys = omega (arith, users-append h us ys)

  users-insert :
      (h : String) (xs ys : List Fields) (u : Fields)
      → users h (xs ++ u ∷ ys) ≡ users h xs + weight h (new_config md5_hex u) + users h ys
  unfolding users
  users-insert h xs ys u = omega (arith, users-append h xs (u ∷ ys))

  -- What is queued changes by as much as the cluster does.
  add_func-sends :
      (h : String) (u : Fields) (q q' : Queues)
      → add_func md5_hex (some u) q ≡ ok q'
      → (pending h q'.config_updates ≡ pending h q.config_updates + weight h (new_config md5_hex u))
        × (pending h q'.config_deletes ≡ pending h q.config_deletes)
  unfolding add_func
  add_func-sends h u q q' e = elim (Outcome-cases (new_config md5_hex u)) [
    | inl (c, p) ↦ ground (arith, pending-send h c q.config_updates)
    | inr other ↦ ground arith
  ]

  delete_func-sends :
      (h : String) (u : Fields) (q q' : Queues)
      → delete_func md5_hex (some u) q ≡ ok q'
      → (pending h q'.config_updates ≡ pending h q.config_updates)
        × (pending h q'.config_deletes
            ≡ pending h q.config_deletes + weight h (new_config md5_hex u))
  unfolding delete_func
  delete_func-sends h u q q' e = elim (Outcome-cases (new_config md5_hex u)) [
    | inl (c, p) ↦ ground (arith, pending-send h c q.config_deletes)
    | inr other ↦ ground arith
  ]

  update_func-sends :
      (h : String) (old new : Fields) (q q' : Queues)
      → update_func md5_hex (some old) (some new) q ≡ ok q'
      → pending h q'.config_updates + weight h (new_config md5_hex old) + pending h q.config_deletes
        ≡ pending h q.config_updates
          + weight h (new_config md5_hex new)
          + pending h q'.config_deletes
  unfolding update_func
  update_func-sends h old new q q' e = elim (Outcome-cases (new_config md5_hex new)) [
    | inl (c, p) ↦ elim (Outcome-cases (new_config md5_hex old)) [
      | inl (d, r) ↦ ground (
        arith,
        eq_iff d.hash c.hash,
        pending-send h c q.config_updates,
        pending-send h d q.config_deletes,
      )
      | inr (inl (x, r)) ↦ absurd (new_config-ne-fail md5_hex old x r)
      | inr (inr r) ↦ ground arith
    ]
    | inr (inl (x, p)) ↦ absurd (new_config-ne-fail md5_hex new x p)
    | inr (inr p) ↦ ground arith
  ]

  weight_self :
      (u : Fields) (c : Config)
      → new_config md5_hex u ≡ ok c
      → weight c.hash (new_config md5_hex u) ≡ 1
  weight_self u c e = ground (arith, eq_iff c.hash c.hash)

module _ {R W : Type 0} (md5_hex : String → String) (remove_all : String → W → Option String × W)
    (host : Host W R) where
  -- The modules and the waiting deletions are all accounted for by the counts and the waiting
  -- updates.
  pub record IsCovered (s : System R W) : Type 0 where
    pub counted : IsCounted s.manager
    pub covered :
        (h : String)
        → users md5_hex h s.live + pending h s.queues.config_deletes
          ≤ uses_of h s.manager + pending h s.queues.config_updates

  Step-IsCovered : {s t : System R W} → Step md5_hex remove_all host s t → IsCovered s → IsCovered t
  unfolding users pending
  Step-IsCovered (added s u q e) inv = record {
    counted = inv.counted;
    covered = λ h. omega (arith, inv.covered h, add_func-sends md5_hex h u s.queues q e);
  }
  Step-IsCovered (updated s xs ys old new q at e) inv = record {
    counted = inv.counted;
    covered = λ h. omega (
      arith,
      inv.covered h,
      update_func-sends md5_hex h old new s.queues q e,
      users-insert md5_hex h xs ys old,
      users-insert md5_hex h xs ys new,
      ap (users md5_hex h) at,
    );
  }
  Step-IsCovered (deleted s xs ys u q at e) inv = record {
    counted = inv.counted;
    covered = λ h. omega (
      arith,
      inv.covered h,
      delete_func-sends md5_hex h u s.queues q e,
      users-insert md5_hex h xs ys u,
      users-append md5_hex h xs ys,
      ap (users md5_hex h) at,
    );
  }
  Step-IsCovered (update_received s c rest e) inv = record {
    counted = on_update-IsCounted c s.manager inv.counted;
    covered = λ h.
        omega (arith, inv.covered h, uses_of-on_update c s.manager h inv.counted, ap (pending h) e);
  }
  Step-IsCovered (delete_received s c rest e) inv = record {
    counted = on_delete-IsCounted remove_all c s.manager s.world inv.counted;
    covered = λ h. omega (
      arith,
      inv.covered h,
      uses_of-on_delete remove_all c s.manager s.world h inv.counted,
      ap (pending h) e,
    );
  }
  Step-IsCovered (worked s j r m found e) inv = record {
    counted = put-IsCounted j r m.repo s.manager found inv.counted;
    covered = λ h. unfold uses_of in inv.covered h;
  }

  pub start-IsCovered : (w : W) → IsCovered (start w)
  unfolding users pending
  start-IsCovered w = record { counted = new_manager-IsCounted; covered = λ h. omega arith }

  pub Reach-IsCovered :
      {s t : System R W} → IsCovered s → Reach md5_hex remove_all host s t → IsCovered t
  Reach-IsCovered inv here = inv
  Reach-IsCovered inv (next r st) = Step-IsCovered st (Reach-IsCovered inv r)

  -- The count behind a lookup that must succeed.
  found_of_used :
      (m : Manager R) (url revision : String)
      → IsCounted m
      → 0 < uses_of (md5_hex (hash_input url revision)) m
      → (r : Repo R) × (get_repo md5_hex url revision m ≡ ok r)
  unfolding get_repo
  found_of_used m url revision inv used =
      let h = md5_hex (hash_input url revision) in
      elim (Option-cases (lookup h m.repos)) [
        | inl missing ↦ absurd (ground (arith, inv.at h))
        | inr (r, p) ↦ (r, ground arith)
      ]

  -- In every state that the informer, the manager and the workers of the repositories can reach, in
  -- whatever order they take their steps, a module of the cluster finds its repository as soon as no
  -- configuration waits in the channel of updates. Deletions may still be waiting.
  pub live-get_repo :
      (w : W) (s : System R W) (xs ys : List Fields) (u : Fields) (c : Config)
      → Reach md5_hex remove_all host (start w) s
      → s.live ≡ xs ++ u ∷ ys
      → new_config md5_hex u ≡ ok c
      → s.queues.config_updates ≡ []
      → (r : Repo R) × (get_repo md5_hex c.url c.revision s.manager ≡ ok r)
  unfolding pending
  live-get_repo w s xs ys u c reach at conf drained =
      let inv = Reach-IsCovered (start-IsCovered w) reach in
      found_of_used s.manager c.url c.revision inv.counted (
        rw (← new_config-hash md5_hex u c conf) (
          omega (
            arith,
            inv.covered c.hash,
            users-insert md5_hex c.hash xs ys u,
            ap (users md5_hex c.hash) at,
            ap (pending c.hash) drained,
            weight_self md5_hex u c conf,
          )))
