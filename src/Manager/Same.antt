-- ===== src/Manager/Same.antt =====
-- Managers that differ only in the state of their repositories, and what messages make of them.
use crossform.Common.{
  ◌+◌, String, ◌≡◌, refl, Option, List, [], ◌∷◌, ◌++◌, arith, inl, inr, Option-cases,
}
use crossform.Common.Dict.{lookup, has, lookup-put, lookup-remove}
use crossform.Repo.Config.{Config}
use crossform.Repo.State.{new_repo}
use crossform.Manager.State.{Manager, get_repo_by_hash, uses_of, on_update, on_delete}
use crossform.Manager.Replay.{Message, update, delete, receive, worker, updates_of, deletes_of}

-- The same counts, and repositories for the same hashes.
pub record SameKeys {R : Type 0} (m m' : Manager R) : Type 0 where
  pub uses : m.uses ≡ m'.uses
  pub repos : (h : String) → has h m.repos ≡ has h m'.repos

module _ {R : Type 0} where
  on_update-SameKeys :
      (c : Config) (m m' : Manager R) → SameKeys m m' → SameKeys (on_update c m) (on_update c m')
  unfolding on_update get_repo_by_hash uses_of
  on_update-SameKeys c m m' same = elim (Option-cases (lookup c.hash m.repos)) [
    | inl missing ↦ elim (Option-cases (lookup c.hash m'.repos)) [
      | inr (r, p) ↦ absurd (ground (arith, same.repos c.hash))
      | inl missing' ↦ record {
        uses = ground (arith, same.uses);
        repos = λ h. ground (
          arith,
          same.repos h,
          lookup-put c.hash h (new_repo c) m.repos,
          lookup-put c.hash h (new_repo c) m'.repos,
        );
      }
    ]
    | inr (r, p) ↦ elim (Option-cases (lookup c.hash m'.repos)) [
      | inl missing ↦ absurd (ground (arith, same.repos c.hash))
      | inr (r', p') ↦ record {
        uses = ground (arith, same.uses);
        repos = λ h. ground (arith, same.repos h);
      }
    ]
  ]

module _ {R W : Type 0} (remove_all : String → W → Option String × W) where
  on_delete-SameKeys :
      (c : Config) (m m' : Manager R) (w w' : W)
      → SameKeys m m'
      → SameKeys (on_delete remove_all c m w).0 (on_delete remove_all c m' w').0
  unfolding on_delete get_repo_by_hash uses_of
  on_delete-SameKeys c m m' w w' same = elim (Option-cases (lookup c.hash m.repos)) [
    | inl missing ↦ elim (Option-cases (lookup c.hash m'.repos)) [
      | inr (r, p) ↦ absurd (ground (arith, same.repos c.hash))
      | inl missing' ↦ record {
        uses = ground (arith, same.uses);
        repos = λ h. ground (arith, same.repos h);
      }
    ]
    | inr (r, p) ↦ elim (Option-cases (lookup c.hash m'.repos)) [
      | inl missing ↦ absurd (ground (arith, same.repos c.hash))
      | inr (r', p') ↦ record {
        uses = ground (arith, same.uses);
        repos = λ h. ground (
          arith,
          same.uses,
          same.repos h,
          lookup-remove c.hash h m.repos,
          lookup-remove c.hash h m'.repos,
        );
      }
    ]
  ]

  worker-append :
      (msgs : List Message) (msg : Message) (s : Manager R × W)
      → worker remove_all (msgs ++ msg ∷ []) s ≡ receive remove_all msg (worker remove_all msgs s)
  unfolding worker
  worker-append [] msg s = refl
  worker-append (first ∷ msgs) msg s = worker-append msgs msg (receive remove_all first s)

pub updates_of-append :
    (h : String) (msgs more : List Message)
    → updates_of h (msgs ++ more) ≡ updates_of h msgs + updates_of h more
updates_of-append h [] more = omega arith
updates_of-append h (update c ∷ msgs) more = omega (arith, updates_of-append h msgs more)
updates_of-append h (delete c ∷ msgs) more = updates_of-append h msgs more

pub deletes_of-append :
    (h : String) (msgs more : List Message)
    → deletes_of h (msgs ++ more) ≡ deletes_of h msgs + deletes_of h more
deletes_of-append h [] more = omega arith
deletes_of-append h (update c ∷ msgs) more = deletes_of-append h msgs more
deletes_of-append h (delete c ∷ msgs) more = omega (arith, deletes_of-append h msgs more)

module _ {R W : Type 0} (remove_all : String → W → Option String × W) where
  -- A message is taken.
  pub update-SameKeys :
      (c : Config) (m : Manager R) (msgs : List Message) (t : Manager R × W)
      → SameKeys m (worker remove_all msgs t).0
      → SameKeys (on_update c m) (worker remove_all (msgs ++ update c ∷ []) t).0
  unfolding receive
  update-SameKeys c m msgs t same =
      rw (worker-append remove_all msgs (update c) t)
        (on_update-SameKeys c m (worker remove_all msgs t).0 same)

  pub delete-SameKeys :
      (c : Config) (m : Manager R) (w : W) (msgs : List Message) (t : Manager R × W)
      → SameKeys m (worker remove_all msgs t).0
      → SameKeys (on_delete remove_all c m w).0 (worker remove_all (msgs ++ delete c ∷ []) t).0
  unfolding receive
  delete-SameKeys c m w msgs t same = rw (worker-append remove_all msgs (delete c) t) (
      on_delete-SameKeys remove_all c m (worker remove_all msgs t).0 w (worker remove_all msgs t).1
        same)
