-- ===== src/Repo/Outage.antt =====
-- pkg/repo/repo.go: the loop of `worker`, while the remote cannot be reached, or not without
-- credentials.
use crossform.Common.{
  ℕ, zero, suc, String, ◌≡◌, ◌≢◌, ◌⊎◌, inl, inr, true, Option, none, some, arith, eq-false_of_ne,
}
use crossform.Common.Outcome.{ok, fail}
use crossform.Repo.State.{branch, tag}
use crossform.Repo.Host.{Host, Auth}
use crossform.Repo.Auth.{get_auth}
use crossform.Repo.Act.{Machine, Act, pure, ◌>>=◌, ◌>>◌}
use crossform.Repo.Revision.{fetch_new, check_branch, check_tag, check_updates}
use crossform.Repo.Work.{work}
use crossform.Repo.Rounds.{work-check_failed}

-- That many rounds of the loop of `worker`, before it is stopped.
unfoldable pub rounds : {W R : Type 0} → Host W R → ℕ → Act W R (Unit {0})
rounds host zero = pure tt
rounds host (suc n) = work host >> rounds host n

-- The machine whose status says that there are no updates.
abbrev pub without_updates : {W R : Type 0} → String → Machine W R → Machine W R
without_updates sha m = record m {
  repo = record m.repo {
    status = record m.repo.status {
      is_update_success = true;
      message = "No updates";
      commit_sha = sha;
    };
  };
}

module _ {W R : Type 0} (host : Host W R) where
  check_updates-fail :
      (m : Machine W R) (r : R) (e : String)
      → m.repo.handle ≡ some r
      → (m.repo.revision_type ≡ tag)
        ⊎ ((m.repo.revision_type ≡ branch)
            × ((a : Option Auth) × (get_auth host m.repo.config m.world ≡ ok a)))
      → ((a : Option Auth) → host.fetch r a m.world ≡ (fail e, m.world))
      → e ≢ "already up-to-date"
      → check_updates host m ≡ (fail e, m)
  unfolding check_updates check_branch check_tag fetch_new ◌>>=◌
  check_updates-fail m r e opened (inl is) refused new =
      ground (arith, refused none, eq-false_of_ne e "already up-to-date" new)
  check_updates-fail m r e opened (inr (is, (a, granted))) refused new =
      ground (arith, refused a, eq-false_of_ne e "already up-to-date" new)

  -- Take a repository that is initialized, on a tag, or on a branch with credentials that can be
  -- found. As long as each fetch fails with an error, any number of rounds leaves the world as it is
  -- and ends in a status that says that the update was a success, that there are no updates, and
  -- that the commit is the one of HEAD.
  pub rounds-without_updates :
      (n : ℕ) (m : Machine W R) (r : R) (name sha e : String)
      → m.repo.status.is_initialized ≡ true
      → m.repo.handle ≡ some r
      → (m.repo.revision_type ≡ tag)
        ⊎ ((m.repo.revision_type ≡ branch)
            × ((a : Option Auth) × (get_auth host m.repo.config m.world ≡ ok a)))
      → ((a : Option Auth) → host.fetch r a m.world ≡ (fail e, m.world))
      → e ≢ "already up-to-date"
      → host.head r m.world ≡ ok (name, sha)
      → rounds host (suc n) m ≡ (ok tt, without_updates sha m)
  unfolding rounds ◌>>=◌
  rounds-without_updates zero m r name sha e ready opened is refused new at =
      let failed = check_updates-fail m r e opened is refused new in
      ground (arith, work-check_failed host m m e r name sha ready failed opened at)
  rounds-without_updates (suc n) m r name sha e ready opened is refused new at =
      let failed = check_updates-fail m r e opened is refused new in
      let m' = without_updates sha m in
      ground (
        arith,
        work-check_failed host m m e r name sha ready failed opened at,
        rounds-without_updates n m' r name sha e ready opened is refused new at,
      )
