-- ===== src/Repo/Invariant.antt =====
-- What holds of a repository between two rounds of its worker.
use crossform.Common.{
  String, ◌≡◌, refl, true, false, Option, some, arith, is_some, inl, inr, Option-cases, Bool-cases,
}
use crossform.Common.Outcome.{Outcome, ok, Outcome-cases}
use crossform.Repo.State.{Repo, RevisionType, commit, branch, tag, other}
use crossform.Repo.Host.{Host, Auth}
use crossform.Repo.Act.{Machine, ◌>>=◌}
use crossform.Repo.Revision.{
  check_branch, check_tag, check_updates, fetch_new, get_commit_sha, update, init, init_repo,
  detect_revision_type, checkout, checkout_as, check_as, update_as,
}
use crossform.Repo.Work.{work, first_work, later_work, apply_updates}

-- An initialized repository has a handle, and its status names the revision of its configuration.
pub record IsReady {R : Type 0} (p : Repo R) : Type 0 where
  pub opened : p.status.is_initialized ≡ true → is_some p.handle ≡ true
  pub named : p.status.is_initialized ≡ true → p.status.revision ≡ p.config.revision

module _ {W R : Type 0} (host : Host W R) (m : Machine W R) where
  pub repo-init_repo : (init_repo host m).1.repo ≡ m.repo
  unfolding init_repo ◌>>=◌
  repo-init_repo = ground arith

  pub detect_revision_type-same : (detect_revision_type host m).1 ≡ m
  unfolding detect_revision_type ◌>>=◌
  detect_revision_type-same = ground arith

  get_commit_sha-same : (get_commit_sha host m).1 ≡ m
  unfolding get_commit_sha ◌>>=◌
  get_commit_sha-same = ground arith

  repo-checkout_as :
      (t : RevisionType) (r : R) (s : String) → (checkout_as host t r s m).1.repo ≡ m.repo
  unfolding ◌>>=◌
  repo-checkout_as commit r s = ground arith
  repo-checkout_as branch r s = ground arith
  repo-checkout_as tag r s = ground arith
  repo-checkout_as (other n) r s = refl

  pub repo-checkout : (checkout host m).1.repo ≡ m.repo
  unfolding checkout ◌>>=◌
  repo-checkout = elim (Option-cases m.repo.handle) [
    | inl nil ↦ ground arith
    | inr (r, p) ↦ ground (arith, repo-checkout_as m.repo.revision_type r m.repo.config.revision)
  ]

  repo-fetch_new : (r : R) (a : Option Auth) → (fetch_new host r a m).1.repo ≡ m.repo
  unfolding fetch_new
  repo-fetch_new r a = refl

module _ {W R : Type 0} (host : Host W R) (m : Machine W R) where
  repo-check_branch : (s : String) → (check_branch host s m).1.repo ≡ m.repo
  unfolding check_branch fetch_new ◌>>=◌
  repo-check_branch s = ground arith

  repo-check_tag : (s : String) → (check_tag host s m).1.repo ≡ m.repo
  unfolding check_tag fetch_new get_commit_sha ◌>>=◌
  repo-check_tag s = ground arith

  repo-check_as : (t : RevisionType) (s : String) → (check_as host t s m).1.repo ≡ m.repo
  repo-check_as commit s = refl
  repo-check_as branch s = repo-check_branch s
  repo-check_as tag s = repo-check_tag s
  repo-check_as (other n) s = refl

  pub repo-check_updates : (check_updates host m).1.repo ≡ m.repo
  unfolding check_updates
  repo-check_updates = repo-check_as m.repo.revision_type m.repo.config.revision

  repo-update_as : (t : RevisionType) → (update_as host t m).1.repo ≡ m.repo
  unfolding ◌>>=◌
  repo-update_as commit = repo-checkout host m
  repo-update_as tag = repo-checkout host m
  repo-update_as branch = ground arith
  repo-update_as (other n) = refl

  pub repo-update : (update host m).1.repo ≡ m.repo
  unfolding update
  repo-update = repo-update_as m.repo.revision_type

-- What `init` leaves: the status and the configuration as they were, and a handle if it succeeds.
pub record Initializes {R : Type 0} (p : Repo R) (o : Outcome (Unit {0})) (p' : Repo R)
    : Type 0 where
  pub status : p'.status ≡ p.status
  pub config : p'.config ≡ p.config
  pub opened : o ≡ ok tt → is_some p'.handle ≡ true

module _ {W R : Type 0} (host : Host W R) where
  abbrev pub with_handle : Option R → Machine W R → Machine W R
  with_handle h m = record m { repo = record m.repo { handle = h } }

  abbrev pub with_type : RevisionType → Machine W R → Machine W R
  with_type t m = record m { repo = record m.repo { revision_type = t } }

  pub init-Initializes : (m : Machine W R) → Initializes m.repo (init host m).0 (init host m).1.repo
  unfolding init ◌>>=◌
  init-Initializes m = elim (Outcome-cases (init_repo host m).0) [
    | inl (r, p) ↦
        let m₁ = with_handle (some r) (init_repo host m).1 in
        elim (Outcome-cases (detect_revision_type host m₁).0) [
          | inl (t, q) ↦
              let m₂ = with_type t m₁ in
              record {
                status = ground (
                  arith,
                  repo-init_repo host m,
                  detect_revision_type-same host m₁,
                  repo-checkout host m₂,
                );
                config = ground (
                  arith,
                  repo-init_repo host m,
                  detect_revision_type-same host m₁,
                  repo-checkout host m₂,
                );
                opened = λ h. ground (
                  arith,
                  repo-init_repo host m,
                  detect_revision_type-same host m₁,
                  repo-checkout host m₂,
                );
              }
          | inr stopped ↦ record {
            status = ground (arith, repo-init_repo host m, detect_revision_type-same host m₁);
            config = ground (arith, repo-init_repo host m, detect_revision_type-same host m₁);
            opened = λ h. absurd (ground arith);
          }
        ]
    | inr stopped ↦ record {
      status = ground (arith, repo-init_repo host m);
      config = ground (arith, repo-init_repo host m);
      opened = λ h. absurd (ground arith);
    }
  ]

-- What a round that returns leaves.
pub record IsRound {R : Type 0} (p p' : Repo R) : Type 0 where
  pub ready : IsReady p'
  pub config : p'.config ≡ p.config
  pub stays : p.status.is_initialized ≡ true → p'.status.is_initialized ≡ true

module _ {W R : Type 0} (host : Host W R) where
  first_work-IsRound :
      (m m' : Machine W R)
      → m.repo.status.is_initialized ≡ false
      → first_work host m ≡ (ok tt, m')
      → IsRound m.repo m'.repo
  unfolding first_work get_commit_sha ◌>>=◌
  first_work-IsRound m m' new done =
      let made = init-Initializes host m in
      record {
        ready = record {
          opened = λ i. ground (arith, made.status, made.config, made.opened);
          named = λ i. ground (arith, made.status, made.config, made.opened);
        };
        config = ground (arith, made.status, made.config);
        stays = λ i. absurd (ground arith);
      }

  later_work-IsRound :
      (m m' : Machine W R)
      → IsReady m.repo
      → m.repo.status.is_initialized ≡ true
      → later_work host m ≡ (ok tt, m')
      → IsRound m.repo m'.repo
  unfolding later_work apply_updates get_commit_sha ◌>>=◌
  later_work-IsRound m m' h old done =
      let (o, m₁) = check_updates host m in
      record {
        ready = record {
          opened = λ i.
              ground
                (arith, repo-check_updates host m, repo-update host m₁, h.opened old, h.named old);
          named = λ i.
              ground
                (arith, repo-check_updates host m, repo-update host m₁, h.opened old, h.named old);
        };
        config = ground (arith, repo-check_updates host m, repo-update host m₁);
        stays = λ i.
            ground
              (arith, repo-check_updates host m, repo-update host m₁, h.opened old, h.named old);
      }

  -- From a repository whose handle and status fit, a round that returns leaves one: an initialized
  -- repository has a handle and its status names the configured revision. The configuration is never
  -- changed, and an initialized repository stays initialized.
  pub work-IsRound :
      (m m' : Machine W R) → IsReady m.repo → work host m ≡ (ok tt, m') → IsRound m.repo m'.repo
  unfolding work
  work-IsRound m m' h done = elim (Bool-cases m.repo.status.is_initialized) [
    | inl old ↦ later_work-IsRound m m' h old (ground arith)
    | inr new ↦ first_work-IsRound m m' new (ground arith)
  ]
