-- ===== src/Repo/Rounds.antt =====
-- What a round of the repository's worker leaves in its status.
use crossform.Common.{String, ◌≡◌, true, some, arith}
use crossform.Common.Outcome.{ok, fail}
use crossform.Repo.Host.{Host}
use crossform.Repo.Act.{Machine, ◌>>=◌}
use crossform.Repo.Revision.{check_updates, get_commit_sha}
use crossform.Repo.Work.{work, later_work, apply_updates}

module _ {W R : Type 0} (host : Host W R) where
  -- When the check for updates of an initialized repository fails, and HEAD can be read, the round
  -- ends like one that found nothing new: the status says that the update was a success, and the
  -- error is not in it.
  pub work-check_failed :
      (m m' : Machine W R) (e : String) (r : R) (name sha : String)
      → m.repo.status.is_initialized ≡ true
      → check_updates host m ≡ (fail e, m')
      → m'.repo.handle ≡ some r
      → host.head r m'.world ≡ ok (name, sha)
      → work host m ≡ (
        ok tt,
        record m' {
          repo = record m'.repo {
            status = record m'.repo.status {
              is_update_success = true;
              message = "No updates";
              commit_sha = sha;
            };
          };
        },
      )
  unfolding work later_work apply_updates get_commit_sha ◌>>=◌
  work-check_failed m m' e r name sha ready failed open_repo head = ground arith
