-- ===== src/Manager/Stop.antt =====
-- pkg/RepoManager/repoManager.go: `Destroy` of the manager, and the channel on which it stops the
-- worker. `NewRepoManager` never makes the channel; to send on a nil channel blocks for ever.
use crossform.Common.{String, Option, [], ◌∷◌}
use crossform.Common.Dict.{Dict}
use crossform.Repo.State.{Repo}
use crossform.Repo.Destroy.{destroy}
use crossform.Manager.State.{Manager}

-- what a call can come to that may block for ever
pub data Blocking (A : Type 0) : Type 0 where
  blocked : Blocking A
  returned : A → Blocking A

-- A channel of booleans that is nil, or made.
pub data Channel : Type 0 where
  nil_channel made_channel : Channel

-- the field `stop` that `NewRepoManager` leaves
abbrev pub new_stop : Channel
new_stop = nil_channel

module _ {R W : Type 0} (remove_all : String → W → Option String × W) where
  -- The loop over the repositories; an error is logged.
  unfoldable pub destroy_all : Dict (Repo R) → W → W
  destroy_all [] w = w
  destroy_all ((hash, r) ∷ repos) w = destroy_all repos (destroy remove_all r w).2

  -- A message that is sent is taken by the worker's select.
  unfoldable pub destroy_manager : Channel → Manager R → W → Blocking W
  destroy_manager nil_channel m w = blocked
  destroy_manager made_channel m w = returned (destroy_all m.repos w)
