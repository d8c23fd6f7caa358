-- ===== src/Repo/Checkout.antt =====
-- That an initialized repository has been checked out.
use crossform.Common.{◌≡◌, true, false, some, arith, inl, inr, Bool-cases}
use crossform.Common.Outcome.{ok, Outcome-cases}
use crossform.Repo.Config.{Config}
use crossform.Repo.State.{Repo, new_repo}
use crossform.Repo.Host.{Host}
use crossform.Repo.Act.{Machine, ◌>>=◌}
use crossform.Repo.Revision.{
  check_updates, get_commit_sha, init, init_repo, detect_revision_type, checkout,
}
use crossform.Repo.Work.{work, first_work, later_work, apply_updates}
use crossform.Repo.Invariant.{
  init-Initializes, with_handle, with_type, detect_revision_type-same, repo-checkout,
  repo-check_updates, repo-update,
}

-- With its configuration, its handle and the type of its revision, `checkout` has succeeded once.
pub record WasCheckedOut {W R : Type 0} (host : Host W R) (p : Repo R) : Type 0 where
  pub before : Machine W R
  pub config : before.repo.config ≡ p.config
  pub handle : before.repo.handle ≡ p.handle
  pub revision_type : before.repo.revision_type ≡ p.revision_type
  pub done : (checkout host before).0 ≡ ok tt

-- A repository that is initialized was checked out.
abbrev pub IsChecked : {W R : Type 0} → Host W R → Repo R → Type 0
IsChecked host p = p.status.is_initialized ≡ true → WasCheckedOut host p

module _ {W R : Type 0} (host : Host W R) where
  pub new_repo-IsChecked : (c : Config) → IsChecked host (new_repo {R = R} c)
  unfolding new_repo
  new_repo-IsChecked c h = absurd (ground arith)

  init-WasCheckedOut :
      (m : Machine W R) → (init host m).0 ≡ ok tt → WasCheckedOut host (init host m).1.repo
  unfolding init ◌>>=◌
  init-WasCheckedOut m h = elim (Outcome-cases (init_repo host m).0) [
    | inr stopped ↦ absurd (ground arith)
    | inl (r, p) ↦
        let m₁ = with_handle host (some r) (init_repo host m).1 in
        elim (Outcome-cases (detect_revision_type host m₁).0) [
          | inr stopped ↦ absurd (ground arith)
          | inl (t, q) ↦
              let m₂ = with_type host t m₁ in
              let same = detect_revision_type-same host m₁ in
              record {
                before = m₂;
                config = ground (arith, same, repo-checkout host m₂);
                handle = ground (arith, same, repo-checkout host m₂);
                revision_type = ground (arith, same, repo-checkout host m₂);
                done = ground (arith, same);
              }
        ]
  ]

  -- what differs only in the status
  WasCheckedOut-same :
      (p p' : Repo R)
      → p'.config ≡ p.config
      → p'.handle ≡ p.handle
      → p'.revision_type ≡ p.revision_type
      → WasCheckedOut host p
      → WasCheckedOut host p'
  WasCheckedOut-same p p' c h t was = record {
    before = was.before;
    config = ground (arith, was.config);
    handle = ground (arith, was.handle);
    revision_type = ground (arith, was.revision_type);
    done = was.done;
  }

  first_work-IsChecked :
      (m m' : Machine W R)
      → m.repo.status.is_initialized ≡ false
      → first_work host m ≡ (ok tt, m')
      → IsChecked host m'.repo
  unfolding first_work get_commit_sha ◌>>=◌
  first_work-IsChecked m m' new done now = elim (Outcome-cases (init host m).0) [
    | inl (u, p) ↦
        WasCheckedOut-same (init host m).1.repo m'.repo (ground arith) (ground arith) (ground arith)
          (init-WasCheckedOut m p)
    | inr stopped ↦ let made = init-Initializes host m in absurd (ground (arith, made.status))
  ]

  later_work-IsChecked :
      (m m' : Machine W R)
      → m.repo.status.is_initialized ≡ true
      → IsChecked host m.repo
      → later_work host m ≡ (ok tt, m')
      → IsChecked host m'.repo
  unfolding later_work apply_updates get_commit_sha ◌>>=◌
  later_work-IsChecked m m' old was done now =
      let (o, m₁) = check_updates host m in
      let same = repo-check_updates host m in
      let kept = repo-update host m₁ in
      WasCheckedOut-same m.repo m'.repo (ground (arith, same, kept)) (ground (arith, same, kept))
        (ground (arith, same, kept)) (was old)

  -- A round that returns keeps it that an initialized repository was checked out.
  pub work-IsChecked :
      (m m' : Machine W R)
      → IsChecked host m.repo
      → work host m ≡ (ok tt, m')
      → IsChecked host m'.repo
  unfolding work
  work-IsChecked m m' was done = elim (Bool-cases m.repo.status.is_initialized) [
    | inl old ↦ later_work-IsChecked m m' old was (ground arith)
    | inr new ↦ first_work-IsChecked m m' new (ground arith)
  ]
