-- ===== src/Repo/Retry.antt =====
-- A repository that was cloned but could not be brought to its revision: what later rounds do.
use crossform.Common.{
  String, ◌≡◌, refl, Bool, true, false, Option, some, arith, is_some, inl, inr, Option-cases,
}
use crossform.Common.Outcome.{Outcome, ok, fail, Outcome-cases}
use crossform.Repo.State.{RevisionType, commit, branch, tag, other}
use crossform.Repo.Host.{Host, Auth}
use crossform.Repo.Auth.{get_auth}
use crossform.Repo.Act.{Machine, ◌>>=◌}
use crossform.Repo.Revision.{
  init, init_repo, detect_revision_type, checkout, checkout_as, get_commit_sha,
}
use crossform.Repo.Work.{work, first_work}
use crossform.Repo.Invariant.{
  with_handle, with_type, repo-init_repo, repo-checkout, detect_revision_type-same,
}

-- What go-git says of the directories that hold a clone: `PlainClone` makes one, and refuses to
-- where there is one already; a checkout leaves them.
pub record IsGit {W R : Type 0} (host : Host W R) (exists : String → W → Bool) : Type 0 where
  pub refuses :
      (path url : String) (a : Option Auth) (w : W)
      → exists path w ≡ true
      → host.plain_clone path url a w ≡ (fail "repository already exists", w)
  pub clones :
      (path url : String) (a : Option Auth) (w : W) (r : R)
      → (host.plain_clone path url a w).0 ≡ ok r
      → exists path (host.plain_clone path url a w).1 ≡ true
  pub checks_out_branch :
      (path : String) (r : R) (name : String) (w : W)
      → exists path (host.checkout_branch r name w).1 ≡ exists path w
  pub checks_out_hash :
      (path : String) (r : R) (hash : String) (w : W)
      → exists path (host.checkout_hash r hash w).1 ≡ exists path w

-- Rounds of the worker; between two of them the world changes, but a clone is left where it is.
pub data Rounds {W R : Type 0} (host : Host W R) (exists : String → W → Bool)
    : Machine W R → Machine W R → Type 0 where
  none_yet : (m : Machine W R) → Rounds host exists m m
  round :
      (m m' m'' : Machine W R) (w : W) (o : Outcome (Unit {0}))
      → Rounds host exists m m'
      → (exists m'.repo.config.path m'.world ≡ true → exists m'.repo.config.path w ≡ true)
      → work host (record m' { world = w }) ≡ (o, m'')
      → Rounds host exists m m''

module _ {W R : Type 0} (host : Host W R) (exists : String → W → Bool)
    (git : IsGit host exists) where
  -- A repository that is not initialized, in whose directory there is a clone.
  record IsStale (m : Machine W R) : Type 0 where
    new : m.repo.status.is_initialized ≡ false
    there : exists m.repo.config.path m.world ≡ true

  work-IsStale :
      (m m' : Machine W R) (o : Outcome (Unit {0})) → IsStale m → work host m ≡ (o, m') → IsStale m'
  unfolding work first_work init init_repo ◌>>=◌
  work-IsStale m m' o stale h = elim (Outcome-cases (get_auth host m.repo.config m.world)) [
    | inl (a, p) ↦
        let no = git.refuses m.repo.config.path m.repo.config.url a m.world stale.there in
        record {
          new = ground (arith, no, stale.new);
          there = ground (arith, no, stale.new, stale.there);
        }
    | inr stopped ↦ record {
      new = ground (arith, stale.new);
      there = ground (arith, stale.new, stale.there);
    }
  ]

  Rounds-IsStale : {m m' : Machine W R} → Rounds host exists m m' → IsStale m → IsStale m'
  Rounds-IsStale (none_yet m) stale = stale
  Rounds-IsStale (round m m' m'' w o before left done) stale =
      let last = Rounds-IsStale before stale in
      work-IsStale (record m' { world = w }) m'' o
        (record { new = last.new; there = left last.there }) done

  -- The first round.
  checkout_as-exists :
      (t : RevisionType) (path : String) (r : R) (s : String) (m : Machine W R)
      → exists path (checkout_as host t r s m).1.world ≡ exists path m.world
  unfolding ◌>>=◌
  checkout_as-exists branch path r s m = git.checks_out_branch path r s m.world
  checkout_as-exists (other n) path r s m = refl
  checkout_as-exists commit path r s m =
      ground (arith, git.checks_out_hash path r (host.new_hash s) m.world)
  checkout_as-exists tag path r s m = elim (Outcome-cases (host.tag r s m.world)) [
    | inl (hash, p) ↦ ground (arith, git.checks_out_hash path r hash m.world)
    | inr stopped ↦ ground arith
  ]

  checkout-exists :
      (path : String) (m : Machine W R)
      → exists path (checkout host m).1.world ≡ exists path m.world
  unfolding checkout ◌>>=◌
  checkout-exists path m = elim (Option-cases m.repo.handle) [
    | inl nil ↦ ground arith
    | inr (r, p) ↦
        ground (arith, checkout_as-exists m.repo.revision_type path r m.repo.config.revision m)
  ]

  init_repo-clones :
      (m : Machine W R) (r : R)
      → (init_repo host m).0 ≡ ok r
      → exists m.repo.config.path (init_repo host m).1.world ≡ true
  unfolding init_repo ◌>>=◌
  init_repo-clones m r h = elim (Outcome-cases (get_auth host m.repo.config m.world)) [
    | inl (a, p) ↦ ground (arith, git.clones m.repo.config.path m.repo.config.url a m.world r)
    | inr stopped ↦ absurd (ground arith)
  ]

  -- A round that clones, so that there is a handle, and does not initialize the repository.
  work-cloned :
      (m m' : Machine W R)
      → m.repo.status.is_initialized ≡ false
      → work host m ≡ (ok tt, m')
      → m'.repo.status.is_initialized ≡ false
      → is_some m'.repo.handle ≡ true
      → IsStale m'
  unfolding work first_work init get_commit_sha ◌>>=◌
  work-cloned m m' new h failed opened = elim (Outcome-cases (init_repo host m).0) [
    | inl (r, p) ↦
        let m₁ = with_handle host (some r) (init_repo host m).1 in
        let there = init_repo-clones m r p in
        elim (Outcome-cases (detect_revision_type host m₁).0) [
          | inl (t, q) ↦
              let m₂ = with_type host t m₁ in
              record {
                new = failed;
                there = ground (
                  arith,
                  there,
                  repo-init_repo host m,
                  detect_revision_type-same host m₁,
                  repo-checkout host m₂,
                  checkout-exists m.repo.config.path m₂,
                );
              }
          | inr stopped ↦ record {
            new = failed;
            there = ground (arith, there, repo-init_repo host m, detect_revision_type-same host m₁);
          }
        ]
    | inr stopped ↦ absurd (ground arith)
  ]

  -- If a round of a repository that is not initialized clones it, so that it has a handle, but fails
  -- after that, as when its revision is not there yet, then no later round initializes the
  -- repository, however the remote changes in between, as long as the clone is left on the disk.
  pub work-never_initializes :
      (m m' m'' : Machine W R)
      → m.repo.status.is_initialized ≡ false
      → work host m ≡ (ok tt, m')
      → m'.repo.status.is_initialized ≡ false
      → is_some m'.repo.handle ≡ true
      → Rounds host exists m' m''
      → m''.repo.status.is_initialized ≡ false
  work-never_initializes m m' m'' new first failed opened later =
      (Rounds-IsStale later (work-cloned m m' new first failed opened)).new
