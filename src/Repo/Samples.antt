-- ===== src/Repo/Samples.antt =====
-- A host whose remote has one branch, and the first round of a repository on it.
use crossform.Common.{
  String, ◌≡◌, refl, true, false, Option, none, some, List, [], ◌∷◌, ◌==◌, if◌then◌else◌,
}
use crossform.Common.Dict.{Dict, lookup}
use crossform.Common.Outcome
use crossform.Common.Outcome.{Outcome, ok, fail, panic}
use crossform.Repo.Config.{Config, config_of}
use crossform.Repo.State.{new_repo, branch}
use crossform.Repo.Host.{Host}
use crossform.Repo.Secret.{secret_text, find_secret, check_secret, auth_data_of, get_secret_data}
use crossform.Repo.Auth.{get_auth, auth_by_scheme, ssh_auth, http_auth}
use crossform.Repo.Act.{Machine, ◌>>=◌}
use crossform.Repo.Revision.{
  init_repo, detect_revision_type, revision_type_of, get_commit_sha, checkout, fetch_new,
  check_branch, check_tag, check_updates, update, init, last_tag,
}
use crossform.Repo.Work.{work, first_work, later_work, apply_updates}

-- The host: the world is what the remote's branch points to, or nothing while it cannot be reached.
abbrev pub Remote : Type 0
Remote = Option String

abbrev pub reached : {A : Type 0} → Remote → A → Outcome A
reached none a = fail "no route to host"
reached (some hash) a = ok a

abbrev pub hash_of : Remote → Outcome String
hash_of none = fail "reference not found"
hash_of (some hash) = ok hash

abbrev pub secrets : List (Dict String)
secrets =
    (("repository", "https://git") ∷ ("username", "reader") ∷ [])
    ∷ (("repository", "git@git:x") ∷ ("username", "reader") ∷ ("password", "pass") ∷ [])
    ∷ []

abbrev pub host : Host Remote (Unit {0})
host = record {
  parse_scheme = λ url. if url == "https://git" then ok "https" else ok "ssh";
  read_key = λ key. ok tt;
  watch_namespace = some "crossform";
  list_secrets = λ ns label value w. ok secrets;
  is_hash = λ s. false;
  new_hash = λ s. s;
  branch_short = λ s. s;
  plain_clone = λ path url auth w. (reached w tt, w);
  commit_object = λ r hash w. ok hash;
  tag = λ r name w. fail "tag not found";
  branch = λ r name w. ok tt;
  head = λ r w. ok ("main", "c1");
  remote_branch = λ r name w. hash_of w;
  list_remote = λ r w. reached w [];
  checkout_branch = λ r name w. (ok tt, w);
  checkout_hash = λ r hash w. (ok tt, w);
  fetch = λ r auth w. (reached w tt, w);
  pull = λ r auth w. (reached w tt, w);
}

abbrev pub md5 : String → String
md5 s = s

abbrev pub config : Config
config = config_of md5 "https://git" "main"

pub program : Unit {0}
unfolding Outcome.◌>>=◌ ◌>>=◌ new_repo secret_text find_secret check_secret auth_data_of
    get_secret_data get_auth auth_by_scheme ssh_auth http_auth init_repo detect_revision_type
    revision_type_of get_commit_sha checkout fetch_new check_branch check_tag check_updates update
    init last_tag work first_work later_work apply_updates lookup
program = tt

abbrev pub M : Type 0
M = Machine Remote (Unit {0})

abbrev pub fresh : M
fresh = record { repo = new_repo config; world = some "c1" }

abbrev pub ready : M
ready = record {
  repo = record {
    config = config;
    handle = some tt;
    revision_type = branch;
    status = record {
      is_initialized = true;
      message = "Repository initialization success";
      is_update_success = true;
      commit_sha = "c1";
      revision = "main";
    };
  };
  world = some "c1";
}

-- The first round clones the repository.
pub work-fresh : work host fresh ≡ (ok tt, ready)
unfolding program
work-fresh = refl
