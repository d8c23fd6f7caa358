-- ===== src/Informer/Paths.antt =====
-- Which directory a module is executed in.
use Prim.Native.String.{◌++◌ as ◌+++◌}
use crossform.Common.{
  String, ◌≡◌, subst, Option, some, List, [], ◌∷◌, ◌++◌, arith, eq_iff, ◌==◌, All, Option-cases,
  Bool-cases, inl, inr,
}
use crossform.Common.Dict.{Dict, lookup, put, lookup-put, lookup-remove}
use crossform.Common.Json.{Fields}
use crossform.Common.Outcome.{ok, ◌>>=◌, Outcome-cases}
use crossform.Repo.Config.{Config, new_config}
use crossform.Repo.State.{Repo, new_repo}
use crossform.Repo.Host.{Host}
use crossform.Repo.Invariant.{IsReady, IsRound, work-IsRound}
use crossform.Manager.State.{Manager, new_manager, on_update, on_delete, get_repo_by_hash, uses_of}
use crossform.Informer.Handlers.{Queues, add_func, update_func, delete_func}
use crossform.Informer.System.{
  worked, System, start, Step, added, updated, deleted, update_received, delete_received, Reach,
  here, next,
}

-- The directory of a configuration is that of its hash.
abbrev pub IsNamed : Config → Type 0
IsNamed c = c.path ≡ "repos/" +++ c.hash

-- Every repository is kept under the hash of its configuration, and its handle and status fit.
pub record IsKeyed {R : Type 0} (m : Manager R) : Type 0 where
  pub hash : (h : String) (r : Repo R) → lookup h m.repos ≡ some r → r.config.hash ≡ h
  pub path : (h : String) (r : Repo R) → lookup h m.repos ≡ some r → IsNamed r.config
  pub ready : (h : String) (r : Repo R) → lookup h m.repos ≡ some r → IsReady r

All-append :
    (cs : List Config) (c : Config) → All IsNamed cs → IsNamed c → All IsNamed (cs ++ c ∷ [])
All-append [] c all p = (p, tt)
All-append (d ∷ cs) c all p = (all.0, All-append cs c all.1 p)

new_config-IsNamed :
    (md5_hex : String → String) (u : Fields) (c : Config) → new_config md5_hex u ≡ ok c → IsNamed c
unfolding new_config
new_config-IsNamed md5_hex u c h = ground arith

new_repo-IsReady : {R : Type 0} (c : Config) → IsReady (new_repo {R = R} c)
unfolding new_repo
new_repo-IsReady c = record { opened = λ h. cc; named = λ h. cc }

-- A repository of a map into which one was put.
pub lookup-put_inv :
    {V : Type 0} (P : V → Type 0) (k h : String) (v r : V) (m : Dict V)
    → P v
    → (lookup h m ≡ some r → P r)
    → lookup h (put k v m) ≡ some r
    → P r
lookup-put_inv P k h v r m new old p = elim (Bool-cases (k == h)) [
  | inl same ↦ let e : v ≡ r = ground (arith, lookup-put k h v m) in subst P e new
  | inr other ↦ old (ground (arith, lookup-put k h v m))
]

module _ {R : Type 0} where
  on_update-IsKeyed : (c : Config) (m : Manager R) → IsNamed c → IsKeyed m → IsKeyed (on_update c m)
  unfolding on_update get_repo_by_hash new_repo
  on_update-IsKeyed c m named inv = record {
    hash = λ h r p.
        ground
          (arith, inv.hash h r, lookup-put c.hash h (new_repo {R = R} c) m.repos, eq_iff c.hash h);
    path = λ h r p.
        ground
          (arith, inv.path h r, lookup-put c.hash h (new_repo {R = R} c) m.repos, eq_iff c.hash h);
    ready = λ h r p. elim (Option-cases (lookup c.hash m.repos)) [
      | inl new ↦
          lookup-put_inv IsReady c.hash h (new_repo c) r m.repos (new_repo-IsReady c)
            (inv.ready h r) (ground arith)
      | inr (old, q) ↦ inv.ready h r (ground arith)
    ];
  }

  put-IsKeyed :
      (k : String) (r r' : Repo R) (m : Manager R)
      → lookup k m.repos ≡ some r
      → IsRound r r'
      → IsKeyed m
      → IsKeyed (record m { repos = put k r' m.repos })
  put-IsKeyed k r r' m found round inv = record {
    hash = λ h q p.
        ground
          (arith, inv.hash h q, inv.hash k r, round.config, lookup-put k h r' m.repos, eq_iff k h);
    path = λ h q p.
        lookup-put_inv (λ (q : Repo R). IsNamed q.config) k h r' q m.repos
          (rw round.config (inv.path k r found)) (inv.path h q) p;
    ready = λ h q p. lookup-put_inv IsReady k h r' q m.repos round.ready (inv.ready h q) p;
  }

  on_delete-IsKeyed :
      {W : Type 0} (remove_all : String → W → Option String × W) (c : Config) (m : Manager R)
      (w : W)
      → IsKeyed m
      → IsKeyed (on_delete remove_all c m w).0
  unfolding on_delete get_repo_by_hash uses_of
  on_delete-IsKeyed remove_all c m w inv = record {
    hash = λ h r p. ground (arith, inv.hash h r, lookup-remove c.hash h m.repos);
    path = λ h r p. ground (arith, inv.path h r, lookup-remove c.hash h m.repos);
    ready = λ h r p. inv.ready h r (ground (arith, lookup-remove c.hash h m.repos));
  }

pub record IsPlaced {R W : Type 0} (s : System R W) : Type 0 where
  waiting : All IsNamed s.queues.config_updates
  pub kept : IsKeyed s.manager

module _ (md5_hex : String → String) where
  -- What the handlers put into the channel of updates.
  add_func-IsNamed :
      (u : Fields) (q q' : Queues)
      → add_func md5_hex (some u) q ≡ ok q'
      → All IsNamed q.config_updates
      → All IsNamed q'.config_updates
  unfolding add_func ◌>>=◌
  add_func-IsNamed u q q' e all = elim (Outcome-cases (new_config md5_hex u)) [
    | inl (c, p) ↦
        let same : q'.config_updates ≡ q.config_updates ++ c ∷ [] = ground arith in
        rw same (All-append q.config_updates c all (new_config-IsNamed md5_hex u c p))
    | inr stopped ↦ let same : q'.config_updates ≡ q.config_updates = ground arith in rw same all
  ]

  delete_func-IsNamed :
      (u : Fields) (q q' : Queues)
      → delete_func md5_hex (some u) q ≡ ok q'
      → All IsNamed q.config_updates
      → All IsNamed q'.config_updates
  unfolding delete_func ◌>>=◌
  delete_func-IsNamed u q q' e all =
      let same : q'.config_updates ≡ q.config_updates = ground arith in rw same all

  update_func-IsNamed :
      (old new : Fields) (q q' : Queues)
      → update_func md5_hex (some old) (some new) q ≡ ok q'
      → All IsNamed q.config_updates
      → All IsNamed q'.config_updates
  unfolding update_func ◌>>=◌
  update_func-IsNamed old new q q' e all = elim (Outcome-cases (new_config md5_hex new)) [
    | inl (c, p) ↦ elim (Outcome-cases (new_config md5_hex old)) [
      | inl (d, r) ↦ elim (Bool-cases (d.hash == c.hash)) [
        | inl unchanged ↦
            let same : q'.config_updates ≡ q.config_updates = ground arith in rw same all
        | inr changed ↦
            let same : q'.config_updates ≡ q.config_updates ++ c ∷ [] = ground arith in
            rw same (All-append q.config_updates c all (new_config-IsNamed md5_hex new c p))
      ]
      | inr stopped ↦ let same : q'.config_updates ≡ q.config_updates = ground arith in rw same all
    ]
    | inr stopped ↦ let same : q'.config_updates ≡ q.config_updates = ground arith in rw same all
  ]

module _ {R W : Type 0} (md5_hex : String → String) (remove_all : String → W → Option String × W)
    (host : Host W R) where
  Step-IsPlaced : {s t : System R W} → Step md5_hex remove_all host s t → IsPlaced s → IsPlaced t
  Step-IsPlaced (added s u q e) inv = record {
    waiting = add_func-IsNamed md5_hex u s.queues q e inv.waiting;
    kept = inv.kept;
  }
  Step-IsPlaced (updated s xs ys old new q at e) inv = record {
    waiting = update_func-IsNamed md5_hex old new s.queues q e inv.waiting;
    kept = inv.kept;
  }
  Step-IsPlaced (deleted s xs ys u q at e) inv = record {
    waiting = delete_func-IsNamed md5_hex u s.queues q e inv.waiting;
    kept = inv.kept;
  }
  Step-IsPlaced (update_received s c rest e) inv =
      let (named, others) = subst (All IsNamed) e inv.waiting in
      record { waiting = others; kept = on_update-IsKeyed c s.manager named inv.kept }
  Step-IsPlaced (delete_received s c rest e) inv = record {
    waiting = inv.waiting;
    kept = on_delete-IsKeyed remove_all c s.manager s.world inv.kept;
  }
  Step-IsPlaced (worked s h r m found done) inv = record {
    waiting = inv.waiting;
    kept =
        put-IsKeyed h r m.repo s.manager found
          (work-IsRound host (record { repo = r; world = s.world }) m (inv.kept.ready h r found)
            done)
          inv.kept;
  }

  start-IsPlaced : (w : W) → IsPlaced (start {R = R} w)
  unfolding new_manager lookup
  start-IsPlaced w = record {
    waiting = tt;
    kept = record { hash = λ h r p. cc; path = λ h r p. cc; ready = λ h r p. cc };
  }

  pub Reach-IsPlaced :
      {w : W} {s : System R W} → Reach md5_hex remove_all host (start w) s → IsPlaced s
  Reach-IsPlaced {w} here = start-IsPlaced w
  Reach-IsPlaced (next r st) = Step-IsPlaced st (Reach-IsPlaced r)
