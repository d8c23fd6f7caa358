-- ===== src/Manager/Start.antt =====
-- pkg/RepoManager/repoManager.go: `NewRepoManager`, which empties the directory of the clones before
-- the worker starts. The disk is a parameter over the world `W`.
use crossform.Common.{
  String, ◌≡◌, Bool, true, false, Option, none, some, arith, inl, inr, Option-cases, Bool-cases,
}
use crossform.Common.Outcome.{Outcome, ok, panic}
use crossform.Manager.State.{Manager, new_manager}

pub record Disk (W : Type 0) : Type 0 where
  -- os.IsNotExist of the error of os.Stat
  pub is_missing : String → W → Bool
  pub remove_all : String → W → Option String × W
  pub mkdir : String → W → Option String × W

abbrev pub repos_path : String
repos_path = "./repos"

-- log.Panic().Msg panics: the returns after it are never reached
abbrev or_panic : {A : Type 0} → A → Option String → Outcome A
or_panic a none = ok a
or_panic a (some e) = panic

module _ {R W : Type 0} (disk : Disk W) where
  abbrev pub make_repos : W → Outcome (Manager R) × W
  make_repos w = let (error, w') = disk.mkdir repos_path w in (or_panic new_manager error, w')

  abbrev pub after_remove : Option String × W → Outcome (Manager R) × W
  after_remove (none, w) = make_repos w
  after_remove (some e, w) = (panic, w)

  unfoldable pub new_repo_manager : W → Outcome (Manager R) × W
  new_repo_manager w = elim (disk.is_missing repos_path w) [
    | true ↦ make_repos w
    | false ↦ after_remove (disk.remove_all repos_path w)
  ]

-- What the disk does to the clones below the directory: they are gone with it, and a new directory
-- has none.
pub record IsDisk {W : Type 0} (disk : Disk W) (exists : String → W → Bool) : Type 0 where
  pub none_missing :
      (path : String) (w : W) → disk.is_missing repos_path w ≡ true → exists path w ≡ false
  pub removes :
      (path : String) (w : W)
      → (disk.remove_all repos_path w).0 ≡ none
      → exists path (disk.remove_all repos_path w).1 ≡ false
  pub makes : (path : String) (w : W) → exists path (disk.mkdir repos_path w).1 ≡ exists path w

module _ {R W : Type 0} (disk : Disk W) (exists : String → W → Bool)
    (law : IsDisk disk exists) where
  make_repos-empties :
      (w w' : W) (m : Manager R) (path : String)
      → make_repos disk w ≡ (ok m, w')
      → exists path w ≡ false
      → (m ≡ new_manager) × (exists path w' ≡ false)
  make_repos-empties w w' m path h gone = elim (Option-cases (disk.mkdir repos_path w).0) [
    | inl fine ↦ (ground arith, ground (arith, law.makes path w))
    | inr (e, p) ↦ absurd (ground arith)
  ]

  -- If the manager can be made, it knows no repository, and no clone of an earlier run is left.
  pub new_repo_manager-empties :
      (w w' : W) (m : Manager R) (path : String)
      → new_repo_manager disk w ≡ (ok m, w')
      → (m ≡ new_manager) × (exists path w' ≡ false)
  unfolding new_repo_manager
  new_repo_manager-empties w w' m path h = elim (Bool-cases (disk.is_missing repos_path w)) [
    | inl missing ↦ make_repos-empties w w' m path (ground arith) (law.none_missing path w missing)
    | inr there ↦ elim (Option-cases (disk.remove_all repos_path w).0) [
      | inl fine ↦
          make_repos-empties (disk.remove_all repos_path w).1 w' m path (ground arith)
            (law.removes path w fine)
      | inr (e, p) ↦ absurd (ground arith)
    ]
  ]
