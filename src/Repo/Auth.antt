-- ===== src/Repo/Auth.antt =====
-- pkg/repo/repo.go: `getAuth`, by the scheme of the address. It ends in a log line that asks the
-- method for its name, which panics if there is none.
use Prim.Native.String.{◌++◌ as ◌+++◌}
use crossform.Common.{String, Option, none, some, ◌==◌, ◌||◌, if◌then◌else◌}
use crossform.Common.Outcome.{Outcome, ok, fail, panic, ◌>>=◌, ◌>>◌}
use crossform.Repo.Config.{Config}
use crossform.Repo.Host.{Host, Auth, public_keys, basic_auth}
use crossform.Repo.Secret.{AuthData, get_secret_data}

-- auth.Name()
abbrev pub named : Option Auth → Outcome (Option Auth)
named none = panic
named (some a) = ok (some a)

module _ {W R : Type 0} (host : Host W R) (c : Config) where
  unfoldable pub ssh_auth : Option AuthData → Outcome (Option Auth)
  unfolding ◌>>=◌
  ssh_auth none = fail ("unable to find secret for repository " +++ c.url)
  ssh_auth (some d) =
      if d.private_key == ""
      then named none
      else (do host.read_key d.private_key; named (some (public_keys "git" d.private_key)))

  unfoldable pub http_auth : Option AuthData → Outcome (Option Auth)
  http_auth none = ok none
  http_auth (some d) =
      if d.username == "" then named none else named (some (basic_auth d.username d.password))

  unfoldable pub auth_by_scheme : String → Option AuthData → Outcome (Option Auth)
  unfolding ssh_auth http_auth
  auth_by_scheme scheme d =
      if scheme == "ssh"
      then ssh_auth d
      else if scheme == "https" || scheme == "http"
      then http_auth d
      else named none

  unfoldable pub get_auth : W → Outcome (Option Auth)
  unfolding auth_by_scheme
  get_auth w = do
    scheme ← host.parse_scheme c.url
    d ← get_secret_data host c w
    auth_by_scheme scheme d
