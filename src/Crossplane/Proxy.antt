-- ===== src/Crossplane/Proxy.antt =====
-- pkg/crossplane/proxy-function.go: `ProxyFunction`, which forwards a request to the server that its
-- composite names. gRPC is a parameter: `G` is a connection, `Q` a request's message, `P` an answer.
use Prim.Native.String.{◌++◌ as ◌+++◌}
use crossform.Common.{String, Bool, Option, none, some, [], if◌then◌else◌}
use crossform.Common.Dict.{Dict, lookup, put}
use crossform.Common.Json.{Fields, get, opt_obj, opt_str}
use crossform.Common.Outcome.{Outcome, ok, fail, panic, must, ◌>>=◌}

pub record ProxyHost (G Q P W : Type 0) : Type 0 where
  pub dial : String → W → Outcome G × W
  -- conn.GetState() == connectivity.Ready
  pub is_ready : G → W → Bool
  pub connect : G → W → W
  pub call : G → Q → W → Outcome P × W

pub record ProxyRequest (Q : Type 0) : Type 0 where
  pub message : Q
  -- what the SDK reads as the observed composite
  pub xr : Outcome Fields

pub record Proxy (G : Type 0) : Type 0 where
  -- a nil map until the first request
  pub connections : Option (Dict G)

abbrev pub new_proxy : {G : Type 0} → Proxy G
new_proxy = record { connections = none }

-- An answer of its own, with a fatal result, or that of the server.
pub data ProxyAnswer (P : Type 0) : Type 0 where
  refused : String → ProxyAnswer P
  forwarded : P → ProxyAnswer P

abbrev pub opened : {G : Type 0} → Option (Dict G) → Dict G
opened none = []
opened (some m) = m

abbrev pub repo_server : Fields → Outcome String
unfolding ◌>>=◌
repo_server xr = do spec ← must (opt_obj (get "spec" xr)); must (opt_str (get "repoServer" spec))

abbrev pub forwarded_of : {P : Type 0} → Outcome P → Outcome (ProxyAnswer P)
forwarded_of (ok p) = ok (forwarded p)
forwarded_of (fail e) = fail e
forwarded_of panic = panic

module _ {G Q P W : Type 0} (host : ProxyHost G Q P W) where
  -- from the connection on
  unfoldable pub ask : G → Q → Proxy G → W → Outcome (ProxyAnswer P) × Proxy G × W
  ask conn message f w =
      let w₁ = if host.is_ready conn w then w else host.connect conn w in
      let (answer, w₂) = host.call conn message w₁ in (forwarded_of answer, f, w₂)

  abbrev dialed : String → Q → Dict G → Outcome G × W → Outcome (ProxyAnswer P) × Proxy G × W
  dialed server message m (ok conn, w) =
      ask conn message (record { connections = some (put server conn m) }) w
  dialed server message m (fail e, w) = (
    ok (refused ("unable to  create connection to " +++ (server +++ (": " +++ e)))),
    record { connections = some m },
    w,
  )
  dialed server message m (panic, w) = (panic, record { connections = some m }, w)

  unfoldable pub forward : String → Q → Proxy G → W → Outcome (ProxyAnswer P) × Proxy G × W
  forward server message f w =
      let m = opened f.connections in
      elim (lookup server m) [
        | some conn ↦ ask conn message (record { connections = some m }) w
        | none ↦ dialed server message m (host.dial server w)
      ]

  -- `RunFunction`
  unfoldable pub proxy_request :
      ProxyRequest Q → Proxy G → W → Outcome (ProxyAnswer P) × Proxy G × W
  proxy_request req f w = elim req.xr [
    | panic ↦ (panic, f, w)
    | fail e ↦ (
      ok (
          refused
            ("cannot get observed composite resource from *v1beta1.RunFunctionRequest: " +++ e)),
      f,
      w,
    )
    | ok xr ↦ elim (repo_server xr) [
      | ok server ↦ forward server req.message f w
      | fail e ↦ (fail e, f, w)
      | panic ↦ (panic, f, w)
    ]
  ]
