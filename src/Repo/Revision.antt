-- ===== src/Repo/Revision.antt =====
-- pkg/repo/repo.go: `initRepo`, `detectRevisionType`, `getCommitSha`, `checkout`, `checkUpdates`,
-- `update` and `init`. A nil `*git.Repository` panics when it is used.
use crossform.Common.{
  String, Bool, false, Option, none, some, List, [], ◌∷◌, ◌==◌, ◌&&◌, not, if◌then◌else◌,
}
use crossform.Common.Outcome
use crossform.Common.Outcome.{Outcome, ok, fail, panic, must}
use crossform.Repo.State.{RevisionType, commit, branch, tag, other}
use crossform.Repo.Host.{Host, Auth, Reference}
use crossform.Repo.Auth.{get_auth}
use crossform.Repo.Act.{Act, pure, raise, reads, acts, modify, on_error, ◌>>=◌, ◌>>◌}

-- a read of a repository whose error the program does not check: the nil result panics
abbrev pub unchecked : {A : Type 0} → Outcome A → Outcome A
unchecked (ok a) = ok a
unchecked _ = panic

-- an error that says that there is nothing new is none
abbrev pub new_or_old : Outcome (Unit {0}) → Outcome (Unit {0})
new_or_old (ok u) = ok tt
new_or_old (fail e) = if e == "already up-to-date" then ok tt else fail e
new_or_old panic = panic

-- the last tag of the list that has the name
unfoldable pub last_tag : String → List Reference → Option Reference → Option Reference
last_tag name [] found = found
last_tag name (r ∷ rs) found =
    last_tag name rs (if r.is_tag && r.short == name then some r else found)

abbrev pub or_else : {A : Type 0} → String → Outcome A → Outcome A
or_else text (ok a) = ok a
or_else text (fail e) = fail text
or_else text panic = panic

abbrev pub or_missing : {A : Type 0} → String → Option A → Outcome A
or_missing text none = fail text
or_missing text (some a) = ok a

module _ {W R : Type 0} (host : Host W R) where
  abbrev pub handle : Act W R R
  handle = reads (λ m. must m.repo.handle)

  abbrev pub auth : Act W R (Option Auth)
  auth = reads (λ m. get_auth host m.repo.config m.world)

  unfoldable pub init_repo : Act W R R
  init_repo = do a ← auth; λ m. acts (host.plain_clone m.repo.config.path m.repo.config.url a) m

  -- the lookups of `detectRevisionType`, in order
  unfoldable pub revision_type_of : R → String → W → Outcome RevisionType
  revision_type_of r revision w =
      if host.is_hash revision
      then Outcome.◌>>=◌ (host.commit_object r (host.new_hash revision) w) (λ _. ok commit)
      else elim (host.tag r revision w) [
        | ok _ ↦ ok tag
        | panic ↦ panic
        | fail _ ↦ elim (host.branch r revision w) [
          | ok _ ↦ ok branch
          | panic ↦ panic
          | fail _ ↦ fail "undetected Revision type"
        ]
      ]

  unfoldable pub detect_revision_type : Act W R RevisionType
  detect_revision_type = do
    r ← handle
    reads (λ m. revision_type_of r m.repo.config.revision m.world)

  unfoldable pub get_commit_sha : Act W R String
  get_commit_sha = do r ← handle; head ← reads (λ m. unchecked (host.head r m.world)); pure head.1

  abbrev pub checkout_as : RevisionType → R → String → Act W R (Unit {0})
  checkout_as branch r revision = acts (host.checkout_branch r revision)
  checkout_as commit r revision = do
    reads (λ m. host.commit_object r (host.new_hash revision) m.world)
    acts (host.checkout_hash r (host.new_hash revision))
  checkout_as tag r revision = do
    hash ← reads (λ m. host.tag r revision m.world)
    acts (host.checkout_hash r hash)
  checkout_as (other n) r revision = pure tt

  unfoldable pub checkout : Act W R (Unit {0})
  checkout = do r ← handle; λ m. checkout_as m.repo.revision_type r m.repo.config.revision m

  -- `Fetch`, with the error that says that there is nothing new taken for success
  unfoldable pub fetch_new : R → Option Auth → Act W R (Unit {0})
  fetch_new r a m = let (o, w) = host.fetch r a m.world in (new_or_old o, record m { world = w })

  unfoldable pub check_branch : String → Act W R Bool
  check_branch revision = do
    a ← auth
    r ← handle
    fetch_new r a
    head ← reads (λ m. unchecked (host.head r m.world))
    if head.0 == host.branch_short revision
        then (do
          remote ← reads (λ m. host.remote_branch r revision m.world)
          hash ← reads (λ m. host.commit_object r remote m.world)
          pure (not (head.1 == hash)))
        else raise "wrong branch"

  unfoldable pub check_tag : String → Act W R Bool
  check_tag revision = do
    r ← handle
    fetch_new r none
    refs ← reads (λ m. or_else "unable to get remote tags" (host.list_remote r m.world))
    ref ← reads (λ m. or_missing "remote tag not found" (last_tag revision refs none))
    sha ← get_commit_sha
    pure (not (ref.hash == sha))

  abbrev pub check_as : RevisionType → String → Act W R Bool
  check_as commit revision = pure false
  check_as branch revision = check_branch revision
  check_as tag revision = check_tag revision
  check_as (other n) revision = raise "incorrect Revision type"

  unfoldable pub check_updates : Act W R Bool
  check_updates m = check_as m.repo.revision_type m.repo.config.revision m

  abbrev pub update_as : RevisionType → Act W R (Unit {0})
  update_as commit = checkout
  update_as tag = checkout
  update_as branch = do a ← auth; r ← handle; acts (host.pull r a)
  update_as (other n) = raise "undetected Revision type"

  unfoldable pub update : Act W R (Unit {0})
  update m = update_as m.repo.revision_type m

  -- The handle is set, also to nil, before the error is looked at; so is the revision's type, to the
  -- zero value `Commit`.
  unfoldable pub init : Act W R (Unit {0})
  init = do
    r ← on_error init_repo (λ e. modify (λ p. record p { handle = none }) >> raise e) pure
    modify (λ p. record p { handle = some r })
    t ←
        on_error detect_revision_type
          (λ e. modify (λ p. record p { revision_type = commit }) >> raise e) pure
    modify (λ p. record p { revision_type = t })
    checkout
