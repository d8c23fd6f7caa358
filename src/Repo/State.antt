-- ===== src/Repo/State.antt =====
-- pkg/repo/repo.go: the state of a repository. `R` is go-git's `*git.Repository`.
use crossform.Common.{ℕ, String, Option, none}
use crossform.Repo.Config.{Config}
use crossform.Repo.Status.{Status, new_status}

-- `RevisionType` is an int8: a value that no constant names is `other`.
pub data RevisionType : Type 0 where
  commit branch tag : RevisionType
  other : ℕ → RevisionType

-- `String`, for the log; `print` is the decimal form of an int.
unfoldable pub revision_type_text : (ℕ → String) → RevisionType → String
revision_type_text print commit = "Commit"
revision_type_text print branch = "Branch"
revision_type_text print tag = "Tag"
revision_type_text print (other n) = print n

pub record Repo (R : Type 0) : Type 0 where
  pub config : Config
  pub handle : Option R
  pub revision_type : RevisionType
  pub status : Status

-- `NewRepo`: no handle yet, and the zero value `Commit` for the revision's type.
unfoldable pub new_repo : {R : Type 0} → Config → Repo R
new_repo config = record {
  config = config;
  handle = none;
  revision_type = commit;
  status = new_status;
}
