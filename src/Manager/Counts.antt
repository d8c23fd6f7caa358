-- ===== src/Manager/Counts.antt =====
-- What the two cases of the manager's worker do to the counts, and the invariant that ties the
-- counts to the repositories.
use crossform.Common.{
  ℕ, ◌+◌, ◌-◌, String, ◌≡◌, refl, Option, some, arith, ltb, if◌then◌else◌, ◌==◌, eq_iff, is_some,
}
use crossform.Common.Dict.{lookup, put, lookup-put, lookup-remove}
use crossform.Repo.Config.{Config}
use crossform.Repo.State.{Repo, new_repo}
use crossform.Manager.State.{Manager, new_manager, uses_of, count_of, on_update, on_delete}

-- A repository is present exactly for the hashes that are counted as used.
pub record IsCounted {R : Type 0} (m : Manager R) : Type 0 where
  pub at : (h : String) → is_some (lookup h m.repos) ≡ ltb 0 (uses_of h m)

pub new_manager-IsCounted : {R : Type 0} → IsCounted (new_manager {R = R})
unfolding new_manager uses_of lookup
new_manager-IsCounted = record { at = λ h. refl }

abbrev pub one_if : String → String → ℕ
one_if k h = if k == h then 1 else 0

module _ {R : Type 0} where
  pub on_update-IsCounted : (c : Config) (m : Manager R) → IsCounted m → IsCounted (on_update c m)
  unfolding on_update uses_of
  on_update-IsCounted c m inv = record {
    at = λ h. ground (
      arith,
      inv.at c.hash,
      inv.at h,
      lookup-put c.hash h (count_of (lookup c.hash m.uses) + 1) m.uses,
      lookup-put c.hash h 1 m.uses,
      lookup-put c.hash h (new_repo {R = R} c) m.repos,
      eq_iff c.hash h,
    );
  }

  -- An update counts one more user of its hash.
  pub uses_of-on_update :
      (c : Config) (m : Manager R) (h : String)
      → IsCounted m
      → uses_of h (on_update c m) ≡ uses_of h m + one_if c.hash h
  unfolding on_update uses_of
  uses_of-on_update c m h inv = ground (
    arith,
    inv.at c.hash,
    lookup-put c.hash h (count_of (lookup c.hash m.uses) + 1) m.uses,
    lookup-put c.hash h 1 m.uses,
    eq_iff c.hash h,
  )

  -- A repository that changes is as present as before.
  pub put-IsCounted :
      (h : String) (r r' : Repo R) (m : Manager R)
      → lookup h m.repos ≡ some r
      → IsCounted m
      → IsCounted (record m { repos = put h r' m.repos })
  unfolding uses_of
  put-IsCounted h r r' m found inv = record {
    at = λ k. ground (arith, inv.at k, lookup-put h k r' m.repos, eq_iff h k);
  }

module _ {R W : Type 0} (remove_all : String → W → Option String × W) where
  pub on_delete-IsCounted :
      (c : Config) (m : Manager R) (w : W) → IsCounted m → IsCounted (on_delete remove_all c m w).0
  unfolding on_delete uses_of
  on_delete-IsCounted c m w inv = record {
    at = λ h. ground (
      arith,
      inv.at c.hash,
      inv.at h,
      lookup-put c.hash h (count_of (lookup c.hash m.uses) - 1) m.uses,
      lookup-remove c.hash h m.uses,
      lookup-remove c.hash h m.repos,
      eq_iff c.hash h,
    );
  }

  -- A deletion counts one user less of its hash, down to none.
  pub uses_of-on_delete :
      (c : Config) (m : Manager R) (w : W) (h : String)
      → IsCounted m
      → uses_of h (on_delete remove_all c m w).0 ≡ uses_of h m - one_if c.hash h
  unfolding on_delete uses_of
  uses_of-on_delete c m w h inv = ground (
    arith,
    inv.at c.hash,
    lookup-put c.hash h (count_of (lookup c.hash m.uses) - 1) m.uses,
    lookup-remove c.hash h m.uses,
    eq_iff c.hash h,
  )
