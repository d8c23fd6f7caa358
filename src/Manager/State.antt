-- ===== src/Manager/State.antt =====
-- pkg/RepoManager/repoManager.go: the state and the two cases of `worker`. `remove_all` is
-- `os.RemoveAll` on the world `W`; the counts are Go's int, far from its bound.
use Prim.Native.String.{◌++◌ as ◌+++◌}
use crossform.Common.{ℕ, ◌+◌, ◌-◌, String, Option, none, some, [], ltb, if◌then◌else◌}
use crossform.Common.Dict.{Dict, lookup, put, remove}
use crossform.Common.Outcome.{Outcome, ok, fail}
use crossform.Repo.Config.{Config, hash_input}
use crossform.Repo.State.{Repo, new_repo}
use crossform.Repo.Destroy.{destroy}

pub record Manager (R : Type 0) : Type 0 where
  pub repos : Dict (Repo R)
  pub uses : Dict ℕ

unfoldable pub new_manager : {R : Type 0} → Manager R
new_manager = record { repos = []; uses = [] }

abbrev not_found : {A : Type 0} → String → Option A → Outcome A
not_found hash none = fail ("Repository not found: " +++ hash)
not_found hash (some r) = ok r

-- m.uses[hash], which is 0 for a missing key
abbrev pub count_of : Option ℕ → ℕ
count_of none = 0
count_of (some n) = n

module _ {R : Type 0} where
  unfoldable pub get_repo_by_hash : String → Manager R → Outcome (Repo R)
  get_repo_by_hash hash m = not_found hash (lookup hash m.repos)

  unfoldable pub get_repo : (String → String) → String → String → Manager R → Outcome (Repo R)
  get_repo md5_hex url revision m =
      let hash = md5_hex (hash_input url revision) in not_found hash (lookup hash m.repos)

  unfoldable pub uses_of : String → Manager R → ℕ
  uses_of hash m = count_of (lookup hash m.uses)

  -- case config := <-m.ConfigUpdates
  unfoldable pub on_update : Config → Manager R → Manager R
  unfolding get_repo_by_hash uses_of
  on_update config m = elim (get_repo_by_hash config.hash m) [
    | ok r ↦ record m { uses = put config.hash (uses_of config.hash m + 1) m.uses }
    | _ ↦ record {
      repos = put config.hash (new_repo config) m.repos;
      uses = put config.hash 1 m.uses;
    }
  ]

  -- case config := <-m.ConfigDeletes: a repository with more than one user loses a user, the
  -- last user's is destroyed, and an unknown one is only logged
  module _ {W : Type 0} (remove_all : String → W → Option String × W) where
    unfoldable pub on_delete : Config → Manager R → W → Manager R × W
    unfolding get_repo_by_hash uses_of destroy
    on_delete config m w = elim (get_repo_by_hash config.hash m) [
      | ok r ↦
          if ltb 1 (uses_of config.hash m)
          then (record m { uses = put config.hash (uses_of config.hash m - 1) m.uses }, w)
          else (
            record { repos = remove config.hash m.repos; uses = remove config.hash m.uses },
            (destroy remove_all r w).2,
          )
      | _ ↦ (m, w)
    ]
