-- ===== src/Manager/Execute.antt =====
-- pkg/RepoManager/repoManager.go: `Execute`. `run` is `executor.Execute`.
use crossform.Common.{String}
use crossform.Common.Outcome.{Outcome, ◌>>=◌}
use crossform.Executor.Types.{ExecCommand}
use crossform.Repo.Work
use crossform.Manager.State.{Manager, get_repo}

unfoldable pub execute :
    {R A : Type 0}
    → (String → String)
    → (String → ExecCommand → Outcome A)
    → ExecCommand
    → Manager R
    → Outcome A
execute md5_hex run cmd m = do
  prev ← get_repo md5_hex cmd.repository_url cmd.repository_revision m
  Work.execute run prev cmd
