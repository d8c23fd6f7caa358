-- ===== src/Informer/Checked.antt =====
-- That the manager keeps an initialized repository only if it was checked out.
use crossform.Common.{String, ◌≡◌, Option, some, arith, Option-cases, inl, inr}
use crossform.Common.Dict.{lookup, lookup-remove, lookup-nil}
use crossform.Repo.Config.{Config}
use crossform.Repo.State.{Repo, new_repo}
use crossform.Repo.Host.{Host}
use crossform.Repo.Checkout.{IsChecked, new_repo-IsChecked, work-IsChecked}
use crossform.Manager.State.{Manager, new_manager, on_update, on_delete, get_repo_by_hash, uses_of}
use crossform.Informer.Paths.{lookup-put_inv}
use crossform.Informer.System.{
  worked, System, start, Step, added, updated, deleted, update_received, delete_received, Reach,
  here, next,
}

module _ {R W : Type 0} (md5_hex : String → String) (remove_all : String → W → Option String × W)
    (host : Host W R) where
  abbrev AreChecked : Manager R → Type 0
  AreChecked m = (h : String) (r : Repo R) → lookup h m.repos ≡ some r → IsChecked host r

  on_update-AreChecked : (c : Config) (m : Manager R) → AreChecked m → AreChecked (on_update c m)
  unfolding on_update get_repo_by_hash
  on_update-AreChecked c m all h r p = elim (Option-cases (lookup c.hash m.repos)) [
    | inl new ↦
        lookup-put_inv (IsChecked host) c.hash h (new_repo c) r m.repos (new_repo-IsChecked host c)
          (all h r) (ground arith)
    | inr (old, q) ↦ all h r (ground arith)
  ]

  on_delete-AreChecked :
      (c : Config) (m : Manager R) (w : W)
      → AreChecked m
      → AreChecked (on_delete remove_all c m w).0
  unfolding on_delete get_repo_by_hash uses_of
  on_delete-AreChecked c m w all h r p = all h r (ground (arith, lookup-remove c.hash h m.repos))

  Step-AreChecked :
      {s t : System R W}
      → Step md5_hex remove_all host s t
      → AreChecked s.manager
      → AreChecked t.manager
  Step-AreChecked (added s u q e) all = all
  Step-AreChecked (updated s xs ys old new q at e) all = all
  Step-AreChecked (deleted s xs ys u q at e) all = all
  Step-AreChecked (update_received s c rest e) all = on_update-AreChecked c s.manager all
  Step-AreChecked (delete_received s c rest e) all = on_delete-AreChecked c s.manager s.world all
  Step-AreChecked (worked s j r m found e) all = λ h q p.
      lookup-put_inv (IsChecked host) j h m.repo q s.manager.repos
        (work-IsChecked host (record { repo = r; world = s.world }) m (all j r found) e) (all h q) p

  pub Reach-AreChecked :
      {w : W} {s : System R W}
      → Reach md5_hex remove_all host (start w) s
      → (h : String) (r : Repo R) → lookup h s.manager.repos ≡ some r
      → IsChecked host r
  unfolding new_manager
  Reach-AreChecked here h r p = absurd (ground (arith, lookup-nil {V = Repo R} h))
  Reach-AreChecked (next reach st) h r p = Step-AreChecked st (Reach-AreChecked reach) h r p
