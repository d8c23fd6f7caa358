-- ===== src/Repo/Lock.antt =====
-- pkg/repo/repo.go: the lock of a repository and the channel that stops its worker. Three kinds of
-- goroutine meet here: the worker (`worker`, `work`), one that destroys the repository (`Destroy`), and
-- any number that execute a module (`Execute`). The channel has no room, so a message passes only
-- when the worker is at its select; the select takes its default only if no message is offered.
use crossform.Common.{ℕ, suc, ◌≡◌, Bool, true, false}

pub data WorkerAt : Type 0 where
  at_select wants_lock working sleeping stopped : WorkerAt

pub data DestroyerAt : Type 0 where
  not_called locking sending removing returned : DestroyerAt

-- sync.RWMutex; new readers are not kept back by a waiting writer, which allows more runs than Go
pub data Lock : Type 0 where
  read_by : ℕ → Lock
  written : Lock

pub record Session : Type 0 where
  pub worker : WorkerAt
  pub destroyer : DestroyerAt
  pub lock : Lock

abbrev pub new_session : Session
new_session = record { worker = at_select; destroyer = not_called; lock = read_by 0 }

abbrev pub is_sending : DestroyerAt → Bool
is_sending sending = true
is_sending _ = false

pub data Move : Session → Session → Type 0 where
  took_default :
      (s : Session)
      → s.worker ≡ at_select
      → is_sending s.destroyer ≡ false
      → Move s (record s { worker = wants_lock })
  took_stop :
      (s : Session)
      → s.worker ≡ at_select
      → s.destroyer ≡ sending
      → Move s (record s { worker = stopped; destroyer = removing })
  round_began :
      (s : Session)
      → s.worker ≡ wants_lock
      → s.lock ≡ read_by 0
      → Move s (record s { worker = working; lock = written })
  round_ended :
      (s : Session) → s.worker ≡ working → Move s (record s { worker = sleeping; lock = read_by 0 })
  woke : (s : Session) → s.worker ≡ sleeping → Move s (record s { worker = at_select })
  destroy_called :
      (s : Session) → s.destroyer ≡ not_called → Move s (record s { destroyer = locking })
  destroy_locked :
      (s : Session)
      → s.destroyer ≡ locking
      → s.lock ≡ read_by 0
      → Move s (record s { destroyer = sending; lock = written })
  destroy_ended :
      (s : Session)
      → s.destroyer ≡ removing
      → Move s (record s { destroyer = returned; lock = read_by 0 })
  execution_began :
      (s : Session) (n : ℕ) → s.lock ≡ read_by n → Move s (record s { lock = read_by (suc n) })
  execution_ended :
      (s : Session) (n : ℕ) → s.lock ≡ read_by (suc n) → Move s (record s { lock = read_by n })

pub data Moves (s : Session) : Session → Type 0 where
  still : Moves s s
  then : {t u : Session} → Moves s t → Move t u → Moves s u
