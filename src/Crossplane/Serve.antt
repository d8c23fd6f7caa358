-- ===== src/Crossplane/Serve.antt =====
-- pkg/crossplane/function.go and proxy-function.go: how the two functions are served. The SDK's
-- `Serve` is a parameter on its options; it gives an error, or none once the server has stopped.
use crossform.Common.{String, Bool, true, Option, none, some, [], ◌∷◌, List}

-- function.ServeOption
pub data ServeOption : Type 0 where
  listen : String → String → ServeOption
  insecure : Bool → ServeOption
  mtls_certificates : String → ServeOption

-- `Run` of the function
unfoldable pub run : (List ServeOption → Option String) → Option String
run serve = serve (listen "tcp" ":8083" ∷ insecure true ∷ [])

-- The command line of the proxy.
pub record Cli : Type 0 where
  pub debug : Bool
  pub network : String
  pub address : String
  pub tls_certs_dir : String
  pub insecure : Bool

-- `Run` of the command line, where `new_logger` is the SDK's.
unfoldable pub run_cli :
    (Bool → Option String) → (List ServeOption → Option String) → Cli → Option String
run_cli new_logger serve c = elim (new_logger c.debug) [
  | some e ↦ some e
  | none ↦
      serve
        (listen c.network c.address ∷ mtls_certificates c.tls_certs_dir ∷ insecure c.insecure ∷ [])
]
