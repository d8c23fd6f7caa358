-- ===== src/Repo/Secret.antt =====
-- pkg/repo/config.go: `GetSecretData`, which finds and checks the credentials of a repository.
use Prim.Native.String.{◌++◌ as ◌+++◌}
use crossform.Common.{
  String, Option, none, some, List, [], ◌∷◌, ◌==◌, ◌&&◌, ◌||◌, not, if◌then◌else◌,
}
use crossform.Common.Dict.{Dict, lookup}
use crossform.Common.Outcome.{Outcome, ok, fail, must, wrap, ◌>>=◌}
use crossform.Repo.Config.{Config}
use crossform.Repo.Host.{Host}

pub record AuthData : Type 0 where
  pub private_key : String
  pub username : String
  pub password : String

-- string(s.Data[key]): a missing key reads as the empty text
abbrev text_of : Option String → String
text_of none = ""
text_of (some s) = s

unfoldable pub secret_text : String → Dict String → String
secret_text key secret = text_of (lookup key secret)

-- the first secret for the address
unfoldable pub find_secret : String → List (Dict String) → Option (Dict String)
unfolding secret_text
find_secret url [] = none
find_secret url (s ∷ ss) = if secret_text "repository" s == url then some s else find_secret url ss

abbrev pub incorrect : String → String → String
incorrect url text = "incorrect secret for repository " +++ url +++ ", " +++ text

-- The four tests. The third repeats the second, so an empty password passes.
unfoldable pub check_secret : String → AuthData → Outcome (Option AuthData)
check_secret url d =
    if not (d.private_key == "") && (not (d.username == "") || not (d.password == ""))
    then fail (incorrect url "ssh key and username/password specified together")
    else if d.private_key == "" && d.username == ""
    then fail (incorrect url "username is empty")
    else if d.private_key == "" && d.username == ""
    then fail (incorrect url "password is empty")
    else if d.private_key == "" && (d.username == "" && d.password == "")
    then fail (incorrect url "credentials are empty")
    else ok (some d)

unfoldable pub auth_data_of : Dict String → AuthData
unfolding secret_text
auth_data_of s = record {
  private_key = secret_text "sshPrivateKey" s;
  username = secret_text "username" s;
  password = secret_text "password" s;
}

-- Without WATCH_NAMESPACE the call panics. No secret for the address is no error.
unfoldable pub get_secret_data : {W R : Type 0} → Host W R → Config → W → Outcome (Option AuthData)
get_secret_data host c w = do
  ns ← must host.watch_namespace
  secrets ←
      wrap "unable to get secrets" (host.list_secrets ns "crossform.io/secret-type" "repository" w)
  elim (find_secret c.url secrets) [ none ↦ ok none | some s ↦ check_secret c.url (auth_data_of s) ]
