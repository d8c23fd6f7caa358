-- ===== src/Repo/Tests.antt =====
-- Small runs of a repository on a host whose remote has one branch.
use crossform.Common.{
  inr, ◌&&◌, ◌||◌, not, false, true, String, ◌≡◌, ◌↔◌, ◌⊎◌, inl, refl, true, none, some,
}
use crossform.Common.Dict.{Dict, lookup}
use crossform.Common.Outcome
use crossform.Common.Outcome.{Outcome, ok, fail, panic}
use crossform.Repo.Config.{Config, config_of}
use crossform.Repo.State.{new_repo}
use crossform.Repo.Secret.{
  AuthData, secret_text, find_secret, check_secret, auth_data_of, get_secret_data,
}
use crossform.Repo.Auth.{get_auth, auth_by_scheme, ssh_auth, http_auth}
use crossform.Repo.Credentials.{IsKey, IsUser, get_secret_data-accepts, get_auth-mismatch}
use crossform.Repo.Act.{◌>>=◌}
use crossform.Repo.Revision.{
  init_repo, detect_revision_type, revision_type_of, get_commit_sha, checkout, fetch_new,
  check_branch, check_tag, check_updates, update, init, last_tag,
}
use crossform.Repo.Work.{work, first_work, later_work, apply_updates}
use crossform.Repo.Outage.{rounds, without_updates, rounds-without_updates}
use crossform.Repo.Host.{basic_auth}
use crossform.Repo.Invariant.{IsReady, IsRound, work-IsRound}
use crossform.Repo.Current.{IsCurrent, work-IsCurrent}
use crossform.Repo.Lock.{
  wants_lock, not_called, read_by, Session, new_session, took_default, execution_began, Moves,
  still, then,
}
use crossform.Repo.Exclusion.{
  is_working, is_stopped, is_destroying, has_stopped, is_reading, Moves-exclude,
}
use crossform.Repo.Retry.{IsGit, none_yet, round, work-never_initializes}
use crossform.Repo.Host.{Host}
use crossform.Repo.Act.{Machine}
use crossform.Common.{Bool, [], arith}
use crossform.Repo.Samples.{host, md5, secrets, config, M, fresh, ready, work-fresh}

abbrev ssh_config : Config
ssh_config = config_of md5 "git@git:x" "main"

program : Unit {0}
unfolding Outcome.◌>>=◌ ◌>>=◌ new_repo secret_text find_secret check_secret auth_data_of
    get_secret_data get_auth auth_by_scheme ssh_auth http_auth init_repo detect_revision_type
    revision_type_of get_commit_sha checkout fetch_new check_branch check_tag check_updates update
    init last_tag work first_work later_work apply_updates lookup
program = tt

-- A round that finds a new commit updates.
abbrev pushed : M
pushed = record ready { world = some "c2" }

work-pushed : work host pushed ≡ (
  ok tt,
  record pushed {
    repo = record pushed.repo { status = record pushed.repo.status { message = "Update success" } };
  },
)
unfolding program
work-pushed = refl

fresh-IsReady : IsReady fresh.repo
unfolding program
fresh-IsReady = record { opened = λ h. cc; named = λ h. cc }

work-IsRound_example : IsRound fresh.repo ready.repo
unfolding program
work-IsRound_example = work-IsRound host fresh ready fresh-IsReady work-fresh

-- The remote cannot be reached any more.
abbrev cut_off : M
cut_off = record ready { world = none }

rounds-without_updates_example : rounds host 3 cut_off ≡ (ok tt, without_updates "c1" cut_off)
unfolding program
rounds-without_updates_example =
    rounds-without_updates host 2 cut_off tt "main" "c1" "no route to host" refl refl
      (inr (refl, (some (basic_auth "reader" ""), refl))) (λ a. refl) (λ h. cc) refl

-- A user without a password is accepted.
abbrev reader : AuthData
reader = record { private_key = ""; username = "reader"; password = "" }

get_secret_data-accepts_example : (get_secret_data host config (some "c1") ≡ ok (some reader)) ↔ (
    (s : Dict String) × (find_secret "https://git" secrets ≡ some s)
    × (reader ≡ auth_data_of s)
    × (IsKey reader ⊎ IsUser reader))
get_secret_data-accepts_example =
    get_secret_data-accepts host config (some "c1") "crossform" secrets reader refl refl

get_secret_data-reader : get_secret_data host config (some "c1") ≡ ok (some reader)
unfolding program
get_secret_data-reader = refl

-- A user for an ssh address ends the program.
abbrev user : AuthData
user = record { private_key = ""; username = "reader"; password = "pass" }

user-IsUser : IsUser user
user-IsUser = (refl, λ h. cc)

get_auth-mismatch_example : get_auth host ssh_config (some "c1") ≡ panic
unfolding program
get_auth-mismatch_example =
    get_auth-mismatch host ssh_config (some "c1") "ssh" user refl refl (inl (refl, user-IsUser))

-- A module is executed, then a round begins.
abbrev executing : Session
executing = record new_session { worker = wants_lock; lock = read_by 1 }

executing-Moves : Moves new_session executing
executing-Moves =
    then (then still (took_default new_session refl refl))
      (execution_began (record new_session { worker = wants_lock }) 0 refl)

Moves-exclude_example :
    ((is_working wants_lock && is_destroying not_called) ≡ false)
    × ((is_reading (read_by 1) && (is_working wants_lock || is_destroying not_called)) ≡ false)
    × ((has_stopped not_called && not (is_stopped wants_lock)) ≡ false)
Moves-exclude_example = Moves-exclude executing executing-Moves

work-IsCurrent_example : IsCurrent host ready
unfolding program
work-IsCurrent_example = work-IsCurrent host fresh ready work-fresh refl refl

-- A remote whose branch is made late, and the clone of it: only the directory and the branch matter.
record Late : Type 0 where
  cloned : Bool
  has_branch : Bool

abbrev clone_late : Late → Outcome (Unit {0}) × Late
clone_late w = elim w.cloned [
  | true ↦ (fail "repository already exists", w)
  | false ↦ (ok tt, record w { cloned = true })
]

abbrev late : Host Late (Unit {0})
late = record {
  parse_scheme = λ url. ok "https";
  read_key = λ key. ok tt;
  watch_namespace = some "crossform";
  list_secrets = λ ns label value w. ok secrets;
  is_hash = λ s. false;
  new_hash = λ s. s;
  branch_short = λ s. s;
  plain_clone = λ path url auth w. clone_late w;
  commit_object = λ r hash w. ok hash;
  tag = λ r name w. fail "tag not found";
  branch = λ r name w. elim w.has_branch [ true ↦ ok tt | false ↦ fail "branch not found" ];
  head = λ r w. ok ("main", "c1");
  remote_branch = λ r name w. ok "c1";
  list_remote = λ r w. ok [];
  checkout_branch = λ r name w. (ok tt, w);
  checkout_hash = λ r hash w. (ok tt, w);
  fetch = λ r auth w. (ok tt, w);
  pull = λ r auth w. (ok tt, w);
}

abbrev is_cloned : String → Late → Bool
is_cloned path w = w.cloned

late-IsGit : IsGit late is_cloned
late-IsGit = record {
  refuses = λ path url a w there. ground arith;
  clones = λ path url a w r h. ground arith;
  checks_out_branch = λ path r name w. refl;
  checks_out_hash = λ path r hash w. refl;
}

abbrev L : Type 0
L = Machine Late (Unit {0})

abbrev unmade : L
unmade = record { repo = new_repo config; world = record { cloned = false; has_branch = false } }

abbrev stale : L
stale = record {
  repo = record unmade.repo {
    handle = some tt;
    status = record unmade.repo.status { message = "undetected Revision type" };
  };
  world = record { cloned = true; has_branch = false };
}

-- The branch is there now, but the directory is not empty.
abbrev still_stale : L
still_stale = record {
  repo = record stale.repo {
    handle = none;
    status = record stale.repo.status { message = "repository already exists" };
  };
  world = record { cloned = true; has_branch = true };
}

work-unmade : work late unmade ≡ (ok tt, stale)
unfolding program
work-unmade = refl

work-stale : work late (record stale { world = still_stale.world }) ≡ (ok tt, still_stale)
unfolding program
work-stale = refl

work-never_initializes_example : still_stale.repo.status.is_initialized ≡ false
unfolding new_repo
work-never_initializes_example =
    work-never_initializes late is_cloned late-IsGit unmade stale still_stale refl work-unmade refl
      refl
      (round stale stale still_stale still_stale.world (ok tt) (none_yet stale) (λ there. refl)
        work-stale)
