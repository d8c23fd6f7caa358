-- ===== src/Repo/Current.antt =====
-- Which commit the status names after a round.
use crossform.Common.{
  String, ◌≡◌, Bool, true, false, some, arith, Bool-cases, inl, inr, Option-cases,
}
use crossform.Common.Outcome.{ok, Outcome-cases}
use crossform.Repo.Host.{Host}
use crossform.Repo.Act.{Machine, ◌>>=◌}
use crossform.Repo.Revision.{check_updates, get_commit_sha, update, init}
use crossform.Repo.Invariant.{init-Initializes}
use crossform.Repo.Work.{work, first_work, later_work, apply_updates}

-- The status names the commit of HEAD.
abbrev pub IsCurrent : {W R : Type 0} → Host W R → Machine W R → Type 0
IsCurrent {R} host m =
    (r : R) × (name : String) × (m.repo.handle ≡ some r)
    × (host.head r m.world ≡ ok (name, m.repo.status.commit_sha))

module _ {W R : Type 0} (host : Host W R) where
  first_work-IsCurrent :
      (m m' : Machine W R)
      → m.repo.status.is_initialized ≡ false
      → first_work host m ≡ (ok tt, m')
      → m'.repo.status.is_initialized ≡ true
      → IsCurrent host m'
  unfolding first_work get_commit_sha ◌>>=◌
  first_work-IsCurrent m m' new done now =
      let made = init-Initializes host m in
      let m₁ = (init host m).1 in
      elim (Option-cases m₁.repo.handle) [
        | inl nil ↦ absurd (ground (arith, made.status, made.opened))
        | inr (r, p) ↦ elim (Outcome-cases (host.head r m₁.world)) [
          | inl ((name, sha), q) ↦
              (r, name, ground (arith, made.status), ground (arith, made.status))
          | inr stopped ↦ absurd (ground (arith, made.status))
        ]
      ]

  -- the end of a round that has checked for updates
  apply_updates-IsCurrent :
      (b : Bool) (m m' : Machine W R)
      → apply_updates host b m ≡ (ok tt, m')
      → m'.repo.status.is_update_success ≡ true
      → IsCurrent host m'
  unfolding apply_updates get_commit_sha ◌>>=◌
  apply_updates-IsCurrent false m m' done good = elim (Option-cases m.repo.handle) [
    | inl nil ↦ absurd (ground arith)
    | inr (r, p) ↦ elim (Outcome-cases (host.head r m.world)) [
      | inl ((name, sha), q) ↦ (r, name, ground arith, ground arith)
      | inr stopped ↦ absurd (ground arith)
    ]
  ]
  apply_updates-IsCurrent true m m' done good =
      let m₁ = (update host m).1 in
      elim (Option-cases m₁.repo.handle) [
        | inl nil ↦ absurd (ground arith)
        | inr (r, p) ↦ elim (Outcome-cases (host.head r m₁.world)) [
          | inl ((name, sha), q) ↦ (r, name, ground arith, ground arith)
          | inr stopped ↦ absurd (ground arith)
        ]
      ]

  later_work-IsCurrent :
      (m m' : Machine W R)
      → later_work host m ≡ (ok tt, m')
      → m'.repo.status.is_update_success ≡ true
      → IsCurrent host m'
  unfolding later_work ◌>>=◌
  later_work-IsCurrent m m' done good =
      let (o, m₁) = check_updates host m in
      elim (Outcome-cases o) [
        | inl (b, p) ↦ apply_updates-IsCurrent b m₁ m' (ground arith) good
        | inr (inl (e, p)) ↦
            apply_updates-IsCurrent false
              (record m₁ {
                repo = record m₁.repo {
                  status = record m₁.repo.status { is_update_success = false; message = e };
                };
              })
              m' (ground arith) good
        | inr (inr p) ↦ absurd (ground arith)
      ]

  -- After a round that returns, if the status says that the repository is initialized and that the
  -- last update was a success, then the commit that it names is the one that HEAD of the clone points
  -- to.
  pub work-IsCurrent :
      (m m' : Machine W R)
      → work host m ≡ (ok tt, m')
      → m'.repo.status.is_initialized ≡ true
      → m'.repo.status.is_update_success ≡ true
      → IsCurrent host m'
  unfolding work
  work-IsCurrent m m' done now good = elim (Bool-cases m.repo.status.is_initialized) [
    | inl old ↦ later_work-IsCurrent m m' (ground arith) good
    | inr new ↦ first_work-IsCurrent m m' new (ground arith) now
  ]
