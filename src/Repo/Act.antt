-- ===== src/Repo/Act.antt =====
-- Methods of `*Repo`: they change the repository and the world, and may return an error or panic.
-- What was changed before an error stays changed.
use crossform.Common.{String}
use crossform.Common.Outcome.{Outcome, ok, fail, panic}
use crossform.Repo.State.{Repo}

pub record Machine (W R : Type 0) : Type 0 where
  pub repo : Repo R
  pub world : W

abbrev pub Act : Type 0 → Type 0 → Type 0 → Type 0
Act W R A = Machine W R → Outcome A × Machine W R

module _ {W R : Type 0} where
  abbrev pub pure : {A : Type 0} → A → Act W R A
  pure a m = (ok a, m)

  abbrev pub raise : {A : Type 0} → String → Act W R A
  raise e m = (fail e, m)

  -- a call that only reads
  abbrev pub reads : {A : Type 0} → (Machine W R → Outcome A) → Act W R A
  reads f m = (f m, m)

  -- a call that changes the world
  abbrev pub acts : {A : Type 0} → (W → Outcome A × W) → Act W R A
  acts f m = let (o, w) = f m.world in (o, record m { world = w })

  abbrev pub modify : (Repo R → Repo R) → Act W R (Unit {0})
  modify f m = (ok tt, record m { repo = f m.repo })

  abbrev pub continue :
      {A B : Type 0} → Outcome A → (A → Act W R B) → (String → Act W R B) → Act W R B
  continue (ok a) next caught m = next a m
  continue (fail e) next caught m = caught e m
  continue panic next caught m = (panic, m)

  -- `if err != nil { … }`, with both ways to go on
  abbrev pub on_error :
      {A B : Type 0} → Act W R A → (String → Act W R B) → (A → Act W R B) → Act W R B
  on_error act caught next m = let (o, m') = act m in continue o next caught m'

  infixl 5 ◌>>=◌ ◌>>◌
  unfoldable pub ◌>>=◌ : {A B : Type 0} → Act W R A → (A → Act W R B) → Act W R B
  ◌>>=◌ act next = on_error act raise next

  abbrev pub ◌>>◌ : {A B : Type 0} → Act W R A → Act W R B → Act W R B
  act >> rest = act >>= λ _. rest
