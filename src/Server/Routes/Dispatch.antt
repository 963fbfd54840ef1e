-- ===== src/Server/Routes/Dispatch.antt =====
-- Which requests reach a handler, and what they change.
use devops_demo.Base.{
  ℕ, String, ◌≡◌, ◌≢◌, ◌⊎◌, ◌↔◌, inl, inr, refl, ap, Bool, Bool-cases, true, false, Option, none,
  some, text_eq_iff, arith,
}
use devops_demo.Server.{Request, readyz, Response, Server}
use devops_demo.Server.Replies.{handle_request-tables}
use devops_demo.Server.Routes.{
  Route, metrics, any_method, get_only, after_prefix, item_route, route_of, is_traced, is_get,
  serve_route, serve_http,
}

abbrev takes_all : Option Route → Bool
takes_all none = false
takes_all (some metrics) = true
takes_all (some (any_method req)) = true
takes_all (some (get_only req)) = false

item_route-takes_all : (o : Option String) → takes_all (item_route o) ≡ false
unfolding item_route
item_route-takes_all none = refl
item_route-takes_all (some s) = ground arith

-- The requests that are not traced are those to the patterns without a method.
pub is_traced-takes_all :
    (path : String) → (is_traced path ≡ false) ↔ (takes_all (route_of path) ≡ true)
unfolding is_traced route_of
is_traced-takes_all path = ground (arith, item_route-takes_all (after_prefix "/api/v1/items/" path))

-- The request that a handler gets.
abbrev request_of : Option Route → Option Request
request_of none = none
request_of (some metrics) = none
request_of (some (any_method req)) = some req
request_of (some (get_only req)) = some req

item_route-readyz : (o : Option String) → request_of (item_route o) ≢ some readyz
unfolding item_route
item_route-readyz none h = absurd (ground arith)
item_route-readyz (some s) h = absurd (ground arith)

-- Only the path /readyz leads to the readiness check.
route_of-readyz : (path : String) → request_of (route_of path) ≡ some readyz → path ≡ "/readyz"
unfolding route_of
route_of-readyz path h =
    ground
      (arith, item_route-readyz (after_prefix "/api/v1/items/" path), text_eq_iff path "/readyz")

module _ {F : Type 0} (serve_metrics : Server F → Response F × Server F) (now : ℕ) where
  serve_route-tables :
      (method path : String) (o : Option Route) (sv : Server F)
      → ((sv₁ : Server F) → (serve_metrics sv₁).1 ≡ sv₁)
      → (request_of o ≡ some readyz → path ≡ "/readyz")
      → let (r, sv') = serve_route serve_metrics now method o sv in
        (sv'.session.tables ≡ sv.session.tables)
        × (((path ≡ "/readyz")
              × (((r.status ≡ 200) × (sv'.db_up ≡ 1)) ⊎ ((r.status ≡ 503) × (sv'.db_up ≡ 0))))
            ⊎ (sv'.db_up ≡ sv.db_up))
  unfolding serve_route
  serve_route-tables method path none sv m h = (refl, inr refl)
  serve_route-tables method path (some metrics) sv m h =
      (ap (λ s. s.session.tables) (m sv), inr (ap (λ s. s.db_up) (m sv)))
  serve_route-tables method path (some (any_method req)) sv m h =
      ground (arith, handle_request-tables now req sv)
  serve_route-tables method path (some (get_only req)) sv m h = elim (Bool-cases (is_get method)) [
    | inl get ↦ rw get (ground (arith, handle_request-tables now req sv))
    | inr other ↦ rw other (refl, inr refl)
  ]

  -- No request, whatever its method and path, changes the tables, if the handler of /metrics leaves
  -- the server as it is. The gauge db_up is left alone by all but those for /readyz, which are
  -- answered 200 with the gauge set to 1, or 503 with the gauge set to 0.
  pub serve_http-tables :
      (method path : String) (sv : Server F)
      → ((sv₁ : Server F) → (serve_metrics sv₁).1 ≡ sv₁)
      → let (r, sv') = serve_http serve_metrics now method path sv in
        (sv'.session.tables ≡ sv.session.tables)
        × (((path ≡ "/readyz")
              × (((r.status ≡ 200) × (sv'.db_up ≡ 1)) ⊎ ((r.status ≡ 503) × (sv'.db_up ≡ 0))))
            ⊎ (sv'.db_up ≡ sv.db_up))
  unfolding serve_http
  serve_http-tables method path sv m =
      serve_route-tables method path (route_of path) sv m (route_of-readyz path)
