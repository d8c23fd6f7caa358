-- ===== src/Repo/FollowTests.antt =====
-- A clone of a remote whose branch has moved on.
use crossform.Common.{
  ◌≢◌, ◌⊎◌, Option, String, ◌≡◌, refl, true, false, none, some, [], ◌==◌, if◌then◌else◌, arith,
}
use crossform.Common.Dict.{lookup}
use crossform.Common.Outcome
use crossform.Common.Outcome.{Outcome, ok, fail}
use crossform.Repo.Secret.{secret_text, find_secret, check_secret, auth_data_of, get_secret_data}
use crossform.Repo.Auth.{get_auth, auth_by_scheme, ssh_auth, http_auth}
use crossform.Repo.Host.{Host}
use crossform.Repo.Act.{Machine}
use crossform.Repo.Work.{work}
use crossform.Repo.Follow.{IsOrigin, work-pulls}
use crossform.Repo.Samples.{ready}

-- HEAD, the reference to the remote's branch, the branch itself, and the remote's default branch
record Clone : Type 0 where
  local : String
  tracking : String
  remote : String
  default : String

abbrev origin : Host Clone (Unit {0})
origin = record {
  parse_scheme = λ url. ok "https";
  read_key = λ key. ok tt;
  watch_namespace = some "crossform";
  list_secrets = λ ns label value w. ok [];
  is_hash = λ s. false;
  new_hash = λ s. s;
  branch_short = λ s. s;
  plain_clone = λ path url auth w. (fail "repository already exists", w);
  commit_object = λ r hash w. ok hash;
  tag = λ r name w. fail "tag not found";
  branch = λ r name w. ok tt;
  head = λ r w. ok ("main", w.local);
  remote_branch = λ r name w. ok w.tracking;
  list_remote = λ r w. ok [];
  checkout_branch = λ r name w. (ok tt, w);
  checkout_hash = λ r hash w. (ok tt, w);
  fetch = λ r auth w. (
    if w.tracking == w.remote then fail "already up-to-date" else ok tt,
    record w { tracking = w.remote },
  );
  pull = λ r auth w. (ok tt, record w { local = w.default });
}

abbrev tip_of : String → Clone → Option String
tip_of name w = if name == "main" then some w.remote else none

abbrev default_of : Clone → String
default_of w = w.default

origin-IsOrigin : IsOrigin origin tip_of default_of
origin-IsOrigin = record {
  fetched = λ r a w name hash h p. ground arith;
  fetch_head = λ r a w. refl;
  known = λ r w name hash h. refl;
  pulled = λ r a w name sha h p. ground arith;
}

abbrev behind : Machine Clone (Unit {0})
behind = record {
  repo = ready.repo;
  world = record { local = "c1"; tracking = "c1"; remote = "c2"; default = "d1" };
}

program : Unit {0}
unfolding Outcome.◌>>=◌ secret_text find_secret check_secret auth_data_of get_secret_data get_auth
    auth_by_scheme ssh_auth http_auth lookup
program = tt

work-pulls_example :
    (m' : Machine Clone (Unit {0})) × (work origin behind ≡ (ok tt, m'))
    × (m'.repo.status.is_update_success ≡ true)
    × (((behind.world.local ≡ "c2") × (m'.repo.status.commit_sha ≡ "c2"))
        ⊎ ((behind.world.local ≢ "c2") × (m'.repo.status.commit_sha ≡ default_of m'.world)))
unfolding program
work-pulls_example =
    work-pulls origin tip_of default_of origin-IsOrigin behind tt none "c1" "c2" refl refl refl refl
      refl refl refl (λ different. (none, refl, refl))
