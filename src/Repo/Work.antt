-- ===== src/Repo/Work.antt =====
-- pkg/repo/repo.go: `work`, one round of the repository's worker, and `Execute`.
use crossform.Common.{String, Bool, true, false, not, if◌then◌else◌}
use crossform.Common.Outcome.{Outcome, fail}
use crossform.Repo.Status.{Status}
use crossform.Repo.State.{Repo}
use crossform.Repo.Host.{Host}
use crossform.Repo.Act.{Act, modify, on_error, ◌>>=◌, ◌>>◌}
use crossform.Repo.Revision.{init, check_updates, update, get_commit_sha}

module _ {W R : Type 0} where
  abbrev pub set_status : (Status → Status) → Act W R (Unit {0})
  set_status f = modify (λ p. record p { status = f p.status })

  abbrev pub set_failed : String → Act W R (Unit {0})
  set_failed e = set_status (λ s. record s { is_update_success = false; message = e })

  abbrev pub set_sha : String → Act W R (Unit {0})
  set_sha sha = set_status (λ s. record s { commit_sha = sha })

module _ {W R : Type 0} (host : Host W R) where
  -- the block for a repository that is not initialized
  unfoldable pub first_work : Act W R (Unit {0})
  first_work =
      on_error (init host) (λ e. set_status (λ s. record s { message = e }))
        (λ _. do
          set_status (λ s. record s {
            is_initialized = true;
            message = "Repository initialization success";
            is_update_success = true;
          })
          sha ← get_commit_sha host
          set_sha sha
          modify (λ p. record p { status = record p.status { revision = p.config.revision } }))

  -- the part after `checkUpdates`, on its result
  unfoldable pub apply_updates : Bool → Act W R (Unit {0})
  apply_updates true = on_error (update host) set_failed (λ _. do
    set_status (λ s. record s { is_update_success = true; message = "Update success" })
    sha ← get_commit_sha host
    set_sha sha)
  apply_updates false = do
    set_status (λ s. record s { is_update_success = true; message = "No updates" })
    sha ← get_commit_sha host
    set_sha sha

  -- an error of `checkUpdates` is written to the status, and the result is then false
  unfoldable pub later_work : Act W R (Unit {0})
  later_work =
      on_error (check_updates host) (λ e. set_failed e >> apply_updates false) apply_updates

  unfoldable pub work : Act W R (Unit {0})
  work m = if m.repo.status.is_initialized then later_work m else first_work m

-- `Execute`: `run` is `executor.Execute` on the path of the clone and the task.
unfoldable pub execute : {R T A : Type 0} → (String → T → Outcome A) → Repo R → T → Outcome A
execute run repo task =
    if not repo.status.is_initialized
    then fail "repository not initialized"
    else run repo.config.path task
