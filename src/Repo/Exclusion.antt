-- ===== src/Repo/Exclusion.antt =====
-- Who may hold a repository at the same time, and when its destruction is stuck.
use crossform.Common.{suc, ◌≡◌, refl, Bool, true, false, ◌&&◌, ◌||◌, not, arith}
use crossform.Repo.Lock.{
  WorkerAt, wants_lock, working, stopped, DestroyerAt, sending, removing, returned, Lock, read_by,
  written, Session, new_session, Move, took_default, took_stop, round_began, round_ended, woke,
  destroy_called, destroy_locked, destroy_ended, execution_began, execution_ended, Moves, still,
  then,
}

abbrev pub is_working : WorkerAt → Bool
is_working working = true
is_working _ = false

abbrev pub is_stopped : WorkerAt → Bool
is_stopped stopped = true
is_stopped _ = false

-- between the lock and the unlock of `Destroy`
abbrev pub is_destroying : DestroyerAt → Bool
is_destroying sending = true
is_destroying removing = true
is_destroying _ = false

-- after the stop message was taken
abbrev pub has_stopped : DestroyerAt → Bool
has_stopped removing = true
has_stopped returned = true
has_stopped _ = false

abbrev pub is_reading : Lock → Bool
is_reading (read_by (suc n)) = true
is_reading _ = false

abbrev pub is_written : Lock → Bool
is_written written = true
is_written _ = false

-- The lock is written exactly while the worker or the destroyer holds it, and never both.
pub record IsHeld (s : Session) : Type 0 where
  pub one : (is_working s.worker && is_destroying s.destroyer) ≡ false
  pub held : is_written s.lock ≡ (is_working s.worker || is_destroying s.destroyer)
  pub after : (has_stopped s.destroyer && not (is_stopped s.worker)) ≡ false
  pub was : (is_stopped s.worker && not (has_stopped s.destroyer)) ≡ false

Move-IsHeld : {s t : Session} → Move s t → IsHeld s → IsHeld t
Move-IsHeld (took_default s w d) inv = record {
  one = ground (arith, inv.one);
  held = ground (arith, inv.held);
  after = ground (arith, inv.after);
  was = ground (arith, inv.was);
}
Move-IsHeld (took_stop s w d) inv = record {
  one = ground (arith, inv.one);
  held = ground (arith, inv.held);
  after = ground (arith, inv.after);
  was = ground (arith, inv.was);
}
Move-IsHeld (round_began s w l) inv = record {
  one = ground (arith, inv.one, inv.held);
  held = ground (arith, inv.held);
  after = ground (arith, inv.after);
  was = ground (arith, inv.was);
}
Move-IsHeld (round_ended s w) inv = record {
  one = ground (arith, inv.one);
  held = ground (arith, inv.one, inv.held);
  after = ground (arith, inv.after);
  was = ground (arith, inv.was);
}
Move-IsHeld (woke s w) inv = record {
  one = ground (arith, inv.one);
  held = ground (arith, inv.held);
  after = ground (arith, inv.after);
  was = ground (arith, inv.was);
}
Move-IsHeld (destroy_called s d) inv = record {
  one = ground (arith, inv.one);
  held = ground (arith, inv.held);
  after = ground (arith, inv.after);
  was = ground (arith, inv.was);
}
Move-IsHeld (destroy_locked s d l) inv = record {
  one = ground (arith, inv.one, inv.held);
  held = ground (arith, inv.held);
  after = ground (arith, inv.after);
  was = ground (arith, inv.was);
}
Move-IsHeld (destroy_ended s d) inv = record {
  one = ground (arith, inv.one);
  held = ground (arith, inv.one, inv.held);
  after = ground (arith, inv.after);
  was = ground (arith, inv.was);
}
Move-IsHeld (execution_began s n l) inv = record {
  one = inv.one;
  held = ground (arith, inv.held);
  after = inv.after;
  was = inv.was;
}
Move-IsHeld (execution_ended s n l) inv = record {
  one = inv.one;
  held = ground (arith, inv.held);
  after = inv.after;
  was = inv.was;
}

pub Moves-IsHeld : {s : Session} → Moves new_session s → IsHeld s
Moves-IsHeld still = record { one = refl; held = refl; after = refl; was = refl }
Moves-IsHeld (then ms m) = Move-IsHeld m (Moves-IsHeld ms)

-- In whatever order the goroutines take their steps: a round of the worker and the destruction of the
-- repository never overlap, nor does either overlap with an execution of a module, and the directory
-- is removed only once the worker has stopped.
pub Moves-exclude :
    (s : Session)
    → Moves new_session s
    → ((is_working s.worker && is_destroying s.destroyer) ≡ false)
      × ((is_reading s.lock && (is_working s.worker || is_destroying s.destroyer)) ≡ false)
      × ((has_stopped s.destroyer && not (is_stopped s.worker)) ≡ false)
Moves-exclude s ms = let inv = Moves-IsHeld ms in (inv.one, ground (arith, inv.held), inv.after)

-- No step is possible where the worker waits for the lock that the sender holds.
stuck : {s t : Session} → IsHeld s → s.worker ≡ wants_lock → s.destroyer ≡ sending → Move s t → ⊥
stuck inv w d (took_default s p q) = ground (arith, inv.held)
stuck inv w d (took_stop s p q) = ground (arith, inv.held)
stuck inv w d (round_began s p q) = ground (arith, inv.held)
stuck inv w d (round_ended s p) = ground (arith, inv.held)
stuck inv w d (woke s p) = ground (arith, inv.held)
stuck inv w d (destroy_called s p) = ground (arith, inv.held)
stuck inv w d (destroy_locked s p q) = ground (arith, inv.held)
stuck inv w d (destroy_ended s p) = ground (arith, inv.held)
stuck inv w d (execution_began s n p) = ground (arith, inv.held)
stuck inv w d (execution_ended s n p) = ground (arith, inv.held)

-- If `Destroy` sends its message while the worker waits for the lock to begin a round, then no
-- goroutine can take a step any more: the destruction never ends, and no module of the repository can
-- be executed.
pub Move-stuck :
    (s t : Session)
    → Moves new_session s
    → s.worker ≡ wants_lock
    → s.destroyer ≡ sending
    → ¬ Move s t
Move-stuck s t ms w d m = stuck (Moves-IsHeld ms) w d m
