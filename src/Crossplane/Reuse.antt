-- ===== src/Crossplane/Reuse.antt =====
-- The proxy keeps one connection for each server.
use crossform.Common.{String, Option, none, some, List, [], ◌∷◌}
use crossform.Common.Dict.{lookup}
use crossform.Common.Outcome.{Outcome, ok, fail, panic}
use crossform.Crossplane.Proxy.{ProxyHost, ProxyRequest, Proxy, ProxyAnswer, opened, proxy_request}

-- The proxy's connection to a server.
abbrev pub connection : {G : Type 0} → String → Proxy G → Option G
connection server f = lookup server (opened f.connections)

abbrev unless_panic : {P S : Type 0} → Outcome (ProxyAnswer P) → Option S → Option S
unless_panic panic rest = none
unless_panic (ok a) rest = rest
unless_panic (fail e) rest = rest

module _ {G Q P W : Type 0} (host : ProxyHost G Q P W) where
  -- The proxy after a sequence of requests, served one after the other; a panic ends the program.
  unfoldable pub serve : List (ProxyRequest Q) → Proxy G → W → Option (Proxy G × W)
  serve [] f w = some (f, w)
  serve (req ∷ reqs) f w =
      let (answer, f', w') = proxy_request host req f w in unless_panic answer (serve reqs f' w')
