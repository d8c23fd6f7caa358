-- ===== src/Repo/Host.antt =====
-- What pkg/repo calls and does not implement: go-git, git-urls, x/crypto, the Kubernetes client and
-- the file system, over a world `W` and handles `R` (`*git.Repository`). A read leaves the world as
-- it is; an `error` is its message.
use crossform.Common.{String, Bool, Option, List}
use crossform.Common.Dict.{Dict}
use crossform.Common.Outcome.{Outcome}

-- transport.AuthMethod, as far as the program makes one
pub data Auth : Type 0 where
  public_keys : String → String → Auth
  basic_auth : String → String → Auth

-- an entry of what `remote.List` gives
pub record Reference : Type 0 where
  pub is_tag : Bool
  pub short : String
  pub hash : String

pub record Host (W R : Type 0) : Type 0 where
  -- giturls.Parse, of which the scheme is used
  pub parse_scheme : String → Outcome String
  -- ssh.NewPublicKeys: whether the key can be read
  pub read_key : String → Outcome (Unit {0})
  pub watch_namespace : Option String
  -- the secrets of a namespace that have a label with a value: the `Data` of each
  pub list_secrets : String → String → String → W → Outcome (List (Dict String))
  pub is_hash : String → Bool
  pub new_hash : String → String
  -- the short form of the branch's reference name
  pub branch_short : String → String
  pub plain_clone : String → String → Option Auth → W → Outcome R × W
  pub commit_object : R → String → W → Outcome String
  pub tag : R → String → W → Outcome String
  pub branch : R → String → W → Outcome (Unit {0})
  -- the short name and the hash of HEAD
  pub head : R → W → Outcome (String × String)
  pub remote_branch : R → String → W → Outcome String
  pub list_remote : R → W → Outcome (List Reference)
  pub checkout_branch : R → String → W → Outcome (Unit {0}) × W
  pub checkout_hash : R → String → W → Outcome (Unit {0}) × W
  pub fetch : R → Option Auth → W → Outcome (Unit {0}) × W
  pub pull : R → Option Auth → W → Outcome (Unit {0}) × W
