-- ===== src/Server/Routes.antt =====
-- New and Handler of internal/httpserver/server.go: the patterns of http.ServeMux and the filter of
-- the tracing. A path is taken clean and without escapes: the mux redirects all others. The handler
-- of /metrics is promhttp's and a parameter.
pub mod Dispatch
pub mod Items
pub mod Statistics
use Prim.Native.Char.{code}
use Prim.Native.String.{[], ◌∷◌}
use devops_demo.Base.{
  ℕ, String, Bool, true, false, not, ◌&&◌, ◌||◌, Option, none, some, nat_eq, text_eq, if◌then◌else◌,
}
use devops_demo.Base.Address.{has_char, is_empty}
use devops_demo.Server.{
  Request, healthz, readyz, stats_request, seed_marker_request, item_request, Response,
  text_response, Server, handle_request,
}

-- What a pattern is registered with; `any_method` is a pattern without GET.
pub data Route : Type 0 where
  metrics : Route
  any_method : Request → Route
  get_only : Request → Route

-- The rest of a text after a prefix.
unfoldable pub after_prefix : String → String → Option String
after_prefix [] s = some s
after_prefix (p ∷ prefix) [] = none
after_prefix (p ∷ prefix) (ch ∷ s) =
    let rest = after_prefix prefix s in if nat_eq (code p) (code ch) then rest else none

-- The wildcard {item_id} is one segment that is not empty.
unfoldable pub item_route : Option String → Option Route
item_route none = none
item_route (some segment) =
    if is_empty segment || has_char 47 segment then none else some (get_only (item_request segment))

unfoldable pub route_of : String → Option Route
unfolding item_route
route_of path =
    if text_eq path "/healthz"
    then some (any_method healthz)
    else if text_eq path "/readyz"
    then some (any_method readyz)
    else if text_eq path "/metrics"
    then some metrics
    else if text_eq path "/api/v1/stats"
    then some (get_only stats_request)
    else if text_eq path "/api/v1/seed-marker"
    then some (get_only seed_marker_request)
    else item_route (after_prefix "/api/v1/items/" path)

-- The filter of Handler.
unfoldable pub is_traced : String → Bool
is_traced path =
    not (text_eq path "/healthz" || (text_eq path "/readyz" || text_eq path "/metrics"))

-- A pattern with GET also takes HEAD.
unfoldable pub is_get : String → Bool
is_get method = text_eq method "GET" || text_eq method "HEAD"

module _ {F : Type 0} (serve_metrics : Server F → Response F × Server F) (now : ℕ) where
  -- http.NotFound and http.Error of the mux.
  unfoldable pub serve_route : String → Option Route → Server F → Response F × Server F
  unfolding is_get
  serve_route method none sv =
      (record { status = 404; body = text_response "404 page not found\n" }, sv)
  serve_route method (some metrics) sv = serve_metrics sv
  serve_route method (some (any_method req)) sv = handle_request now req sv
  serve_route method (some (get_only req)) sv =
      if is_get method
      then handle_request now req sv
      else (record { status = 405; body = text_response "Method Not Allowed\n" }, sv)

  unfoldable pub serve_http : String → String → Server F → Response F × Server F
  unfolding route_of serve_route
  serve_http method path sv = serve_route method (route_of path) sv
