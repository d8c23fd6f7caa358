-- ===== src/Repo/Follow.antt =====
-- What a round makes of the clone of a branch.
use crossform.Common.{
  ◌≢◌, ◌⊎◌, String-cases, eq-false_of_ne, String, ◌≡◌, true, Option, some, arith, eq_iff, ◌==◌, not,
  inl, inr, ◌∙◌,
}
use crossform.Common.Outcome.{ok}
use crossform.Repo.State.{branch}
use crossform.Repo.Host.{Host, Auth}
use crossform.Repo.Auth.{get_auth}
use crossform.Repo.Act.{Machine, ◌>>=◌}
use crossform.Repo.Revision.{
  new_or_old, fetch_new, check_branch, check_updates, update, get_commit_sha,
}
use crossform.Repo.Work.{work, later_work, apply_updates}

-- What go-git says of `origin`: `tip` is the commit that a branch of the remote points to, if the
-- remote has it, and `head_tip` the one that the remote's HEAD, its default branch, points to. A fetch
-- that succeeds brings the references to the remote's branches up to date and leaves HEAD, and a
-- reference is to a commit that is there. `PullOptions` has a `ReferenceName`, "if empty, uses HEAD":
-- a pull without one that succeeds moves the branch that HEAD is on to the commit of the remote's HEAD.
pub record IsOrigin {W R : Type 0} (host : Host W R) (tip : String → W → Option String)
    (head_tip : W → String) : Type 0 where
  pub fetched :
      (r : R) (a : Option Auth) (w : W) (name hash : String)
      → new_or_old (host.fetch r a w).0 ≡ ok tt
      → tip name (host.fetch r a w).1 ≡ some hash
      → host.remote_branch r name (host.fetch r a w).1 ≡ ok hash
  pub fetch_head :
      (r : R) (a : Option Auth) (w : W) → host.head r (host.fetch r a w).1 ≡ host.head r w
  pub known :
      (r : R) (w : W) (name hash : String)
      → host.remote_branch r name w ≡ ok hash
      → host.commit_object r hash w ≡ ok hash
  pub pulled :
      (r : R) (a : Option Auth) (w : W) (name sha : String)
      → host.head r w ≡ ok (name, sha)
      → (host.pull r a w).0 ≡ ok tt
      → host.head r (host.pull r a w).1 ≡ ok (name, head_tip (host.pull r a w).1)

module _ {W R : Type 0} (host : Host W R) (tip : String → W → Option String) (head_tip : W → String)
    (git : IsOrigin host tip head_tip) where
  -- The world after the fetch of a round.
  abbrev fetched_world : R → Option Auth → Machine W R → W
  fetched_world r a m = (host.fetch r a m.world).1

  check_updates-branch :
      (m : Machine W R) (r : R) (a : Option Auth) (sha target : String)
      → m.repo.handle ≡ some r
      → m.repo.revision_type ≡ branch
      → host.head r m.world ≡ ok (host.branch_short m.repo.config.revision, sha)
      → get_auth host m.repo.config m.world ≡ ok a
      → new_or_old (host.fetch r a m.world).0 ≡ ok tt
      → tip m.repo.config.revision (fetched_world r a m) ≡ some target
      → check_updates host m ≡ (ok (not (sha == target)), record m { world = fetched_world r a m })
  unfolding check_updates check_branch fetch_new ◌>>=◌
  check_updates-branch m r a sha target opened type at granted reached there =
      let name = m.repo.config.revision in
      let w = fetched_world r a m in
      let remote = git.fetched r a m.world name target reached there in
      ground (
        arith,
        git.fetch_head r a m.world,
        remote,
        git.known r w name target remote,
        eq_iff (host.branch_short name) (host.branch_short name),
      )

  -- Take a repository that is initialized on a branch, and whose HEAD is on it. If the credentials
  -- and the fetch succeed, the remote has the branch then, and, where HEAD is not the commit of the
  -- remote's branch, the pull succeeds as well, then the round returns, the status says that the
  -- update is a success, and the commit that it names is the one of the branch, if HEAD was there
  -- already, and else the one that the remote's HEAD, its default branch, points to.
  pub work-pulls :
      (m : Machine W R) (r : R) (a : Option Auth) (sha target : String)
      → m.repo.status.is_initialized ≡ true
      → m.repo.handle ≡ some r
      → m.repo.revision_type ≡ branch
      → host.head r m.world ≡ ok (host.branch_short m.repo.config.revision, sha)
      → get_auth host m.repo.config m.world ≡ ok a
      → new_or_old (host.fetch r a m.world).0 ≡ ok tt
      → tip m.repo.config.revision (host.fetch r a m.world).1 ≡ some target
      → (sha ≢ target
          → (b : Option Auth) × (get_auth host m.repo.config (host.fetch r a m.world).1 ≡ ok b)
            × ((host.pull r b (host.fetch r a m.world).1).0 ≡ ok tt))
      → (m' : Machine W R) × (work host m ≡ (ok tt, m'))
        × (m'.repo.status.is_update_success ≡ true)
        × (((sha ≡ target) × (m'.repo.status.commit_sha ≡ target))
            ⊎ ((sha ≢ target) × (m'.repo.status.commit_sha ≡ head_tip m'.world)))
  unfolding work later_work apply_updates update get_commit_sha ◌>>=◌
  work-pulls m r a sha target init opened type at granted reached there pulls =
      let name = m.repo.config.revision in
      let w = fetched_world r a m in
      let checked = check_updates-branch m r a sha target opened type at granted reached there in
      let head = git.fetch_head r a m.world in
      elim (String-cases sha target) [
        | inl same ↦
            let e = eq_iff sha target in
            (
              (work host m).1,
              ground (arith, checked, head, e),
              ground (arith, checked, head, e),
              inl (same, ground (arith, checked, head, e)),
            )
        | inr different ↦
            let e = eq-false_of_ne sha target different in
            let (b, granted', p) = pulls different in
            let moved = git.pulled r b w (host.branch_short name) sha (head ∙ at) p in
            (
              (work host m).1,
              ground (arith, checked, moved, e),
              ground (arith, checked, moved, e),
              inr (different, ground (arith, checked, moved, e)),
            )
      ]
