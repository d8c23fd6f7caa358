-- ===== src/Manager/Replay.antt =====
-- The manager as a counter: what a sequence of messages leaves, against the number of updates and
-- deletions of a hash in it.
use crossform.Common.{
  ℕ, ◌+◌, ◌-◌, ◌≤◌, String, ◌≡◌, refl, Option, List, [], ◌∷◌, arith, ltb, is_some,
}
use crossform.Common.Dict.{lookup}
use crossform.Repo.Config.{Config}
use crossform.Manager.State.{Manager, uses_of, on_update, on_delete}
use crossform.Manager.Counts.{
  IsCounted, one_if, on_update-IsCounted, uses_of-on_update, on_delete-IsCounted, uses_of-on_delete,
}

pub data Message : Type 0 where
  update delete : Config → Message

module _ {R W : Type 0} (remove_all : String → W → Option String × W) where
  -- One round of the worker's `select`.
  unfoldable pub receive : Message → Manager R × W → Manager R × W
  receive (update c) (m, w) = (on_update c m, w)
  receive (delete c) (m, w) = on_delete remove_all c m w

  -- The worker's loop over the messages that it takes.
  unfoldable pub worker : List Message → Manager R × W → Manager R × W
  unfolding receive
  worker [] s = s
  worker (msg ∷ msgs) s = worker msgs (receive msg s)

  worker-IsCounted :
      (msgs : List Message) (s : Manager R × W) → IsCounted s.0 → IsCounted (worker msgs s).0
  unfolding worker
  worker-IsCounted [] s inv = inv
  worker-IsCounted (update c ∷ msgs) s inv =
      worker-IsCounted msgs (on_update c s.0, s.1) (on_update-IsCounted c s.0 inv)
  worker-IsCounted (delete c ∷ msgs) s inv =
      worker-IsCounted msgs (on_delete remove_all c s.0 s.1)
        (on_delete-IsCounted remove_all c s.0 s.1 inv)

-- The users of a hash that a sequence of messages leaves, from `n` users before it.
abbrev pub users_after : String → List Message → ℕ → ℕ
users_after h [] n = n
users_after h (update c ∷ msgs) n = users_after h msgs (n + one_if c.hash h)
users_after h (delete c ∷ msgs) n = users_after h msgs (n - one_if c.hash h)

-- No deletion of the hash comes before the update that it takes back.
abbrev pub Balanced : String → List Message → ℕ → Type 0
Balanced h [] n = Unit
Balanced h (update c ∷ msgs) n = Balanced h msgs (n + one_if c.hash h)
Balanced h (delete c ∷ msgs) n = (one_if c.hash h ≤ n) × Balanced h msgs (n - one_if c.hash h)

abbrev pub updates_of : String → List Message → ℕ
updates_of h [] = 0
updates_of h (update c ∷ msgs) = one_if c.hash h + updates_of h msgs
updates_of h (delete c ∷ msgs) = updates_of h msgs

abbrev pub deletes_of : String → List Message → ℕ
deletes_of h [] = 0
deletes_of h (update c ∷ msgs) = deletes_of h msgs
deletes_of h (delete c ∷ msgs) = one_if c.hash h + deletes_of h msgs

users_after_lem :
    (h : String) (msgs : List Message) (n : ℕ)
    → Balanced h msgs n
    → users_after h msgs n + deletes_of h msgs ≡ n + updates_of h msgs
users_after_lem h [] n b = omega arith
users_after_lem h (update c ∷ msgs) n b =
    omega (arith, users_after_lem h msgs (n + one_if c.hash h) b)
users_after_lem h (delete c ∷ msgs) n b =
    omega (arith, b.0, users_after_lem h msgs (n - one_if c.hash h) b.1)

module _ {R W : Type 0} (remove_all : String → W → Option String × W) where
  uses_of-worker :
      (h : String) (msgs : List Message) (s : Manager R × W)
      → IsCounted s.0
      → uses_of h (worker remove_all msgs s).0 ≡ users_after h msgs (uses_of h s.0)
  unfolding worker
  uses_of-worker h [] s inv = refl
  uses_of-worker h (update c ∷ msgs) s inv =
      let ih = uses_of-worker h msgs (on_update c s.0, s.1) (on_update-IsCounted c s.0 inv) in
      rw (← uses_of-on_update c s.0 h inv) ih
  uses_of-worker h (delete c ∷ msgs) s inv =
      let ih =
        uses_of-worker h msgs (on_delete remove_all c s.0 s.1)
          (on_delete-IsCounted remove_all c s.0 s.1 inv) in
      rw (← uses_of-on_delete remove_all c s.0 s.1 h inv) ih

  -- From any consistent manager, if no deletion of a hash is taken before the update that it takes
  -- back, then the worker's loop leaves a count that, with the deletions of the hash, adds up to the
  -- count before and the updates; and the repository of the hash is there exactly while its count is
  -- above 0.
  pub worker_counts :
      (h : String) (msgs : List Message) (m : Manager R) (w : W)
      → IsCounted m
      → Balanced h msgs (uses_of h m)
      → (uses_of h (worker remove_all msgs (m, w)).0 + deletes_of h msgs
          ≡ uses_of h m + updates_of h msgs)
        × (is_some (lookup h (worker remove_all msgs (m, w)).0.repos)
            ≡ ltb 0 (uses_of h (worker remove_all msgs (m, w)).0))
  worker_counts h msgs m w inv b = (
    rw (uses_of-worker h msgs (m, w) inv) (users_after_lem h msgs (uses_of h m) b),
    (worker-IsCounted remove_all msgs (m, w) inv).at h,
  )
