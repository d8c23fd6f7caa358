-- ===== src/Repo/Config.antt =====
-- pkg/repo/config.go: `Config`, `hash` and `NewConfig`. MD5 in hexadecimal is a parameter.
use Prim.Native.String.{◌++◌ as ◌+++◌}
use crossform.Common.{ℕ, String, ◌≡◌, arith}
use crossform.Common.Json.{Fields, get, opt_obj, opt_str}
use crossform.Common.Outcome.{Outcome, ok, fail, must, ◌>>=◌}

pub record Config : Type 0 where
  pub url : String
  pub revision : String
  pub update_period : ℕ  -- nanoseconds
  pub hash : String
  pub path : String

abbrev pub default_period : ℕ
default_period = 30_000_000_000

-- What `md5.Sum` hashes: the address and the revision, with nothing between them.
abbrev pub hash_input : String → String → String
hash_input url revision = url +++ revision

module _ (md5_hex : String → String) where
  abbrev pub config_of : String → String → Config
  config_of url revision = record {
    url = url;
    revision = revision;
    update_period = default_period;
    hash = md5_hex (hash_input url revision);
    path = "repos/" +++ md5_hex (hash_input url revision);
  }

  -- The type assertions panic on a module without the fields.
  unfoldable pub new_config : Fields → Outcome Config
  unfolding ◌>>=◌
  new_config module_object = do
    spec ← must (opt_obj (get "spec" module_object))
    url ← must (opt_str (get "repository" spec))
    revision ← must (opt_str (get "revision" spec))
    ok (config_of url revision)

  -- `NewConfig` returns no error: it panics instead.
  pub new_config-ne-fail : (m : Fields) (e : String) → new_config m ≡ fail e → ⊥
  unfolding new_config
  new_config-ne-fail m e h = ground arith

  pub new_config-hash :
      (m : Fields) (c : Config)
      → new_config m ≡ ok c
      → c.hash ≡ md5_hex (hash_input c.url c.revision)
  unfolding new_config
  new_config-hash m c h = ground arith
