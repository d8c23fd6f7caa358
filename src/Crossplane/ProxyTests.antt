-- ===== src/Crossplane/ProxyTests.antt =====
-- Small runs of the proxy.
use crossform.Crossplane.Reuse.{serve}
use crossform.Crossplane.Proxy.{
  ProxyHost, ProxyRequest, Proxy, forwarded, new_proxy, ask, forward, proxy_request,
}
use crossform.Common.{String, ◌≡◌, refl, true, some, List, [], ◌∷◌}
use crossform.Common.Dict.{lookup, put}
use crossform.Common.Json.{str, obj, end, field, get, entries}
use crossform.Common.Outcome.{ok, ◌>>=◌}

-- A proxy on a network where a server answers with its name; the world is the list of the servers
-- that were dialed.
abbrev network : ProxyHost String String String (List String)
network = record {
  dial = λ server w. (ok server, server ∷ w);
  is_ready = λ conn w. true;
  connect = λ conn w. w;
  call = λ conn message w. (ok conn, w);
}

abbrev to_server : String → ProxyRequest String
to_server server = record {
  message = "run";
  xr = ok (field "spec" (obj (field "repoServer" (str server) end)) end);
}

abbrev connected : Proxy String
connected = record { connections = some (("a", "a") ∷ []) }

abbrev connected_twice : Proxy String
connected_twice = record { connections = some (("a", "a") ∷ ("b", "b") ∷ []) }

proxied : Unit {0}
unfolding serve forward ask proxy_request get entries lookup put ◌>>=◌
proxied = tt

proxy_request-first :
    proxy_request network (to_server "a") new_proxy [] ≡ (ok (forwarded "a"), connected, "a" ∷ [])
unfolding proxied
proxy_request-first = refl
