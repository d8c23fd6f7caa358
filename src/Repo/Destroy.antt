-- ===== src/Repo/Destroy.antt =====
-- pkg/repo/repo.go: what `Destroy` does to the repository and to the disk, once it has the lock
-- and the worker has taken the stop message. `remove_all` is `os.RemoveAll` on the world `W`.
use crossform.Common.{String, Option}
use crossform.Repo.Status.{new_status}
use crossform.Repo.State.{Repo}

unfoldable pub destroy :
    {R W : Type 0} → (String → W → Option String × W) → Repo R → W → Option String × Repo R × W
destroy remove_all repo w =
    let (error, w') = remove_all repo.config.path w in
    (error, record repo { status = new_status }, w')
