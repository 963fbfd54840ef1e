-- ===== src/Service/Health/Probes.antt =====
-- healthcheck against the service's own HTTP interface.
use Prim.Native.String.{◌++◌}
use devops_demo.Base.{
  sym, Bool-cases, text_eq, text_eq_iff, ℕ, ◌≡◌, ◌⊎◌, ◌∙◌, inl, inr, refl, ap, String, true, false,
  some, arith,
}
use devops_demo.Base.Environment.{Environment, env_string}
use devops_demo.Base.Address.{
  is_plain, split_host_port, split_host_port-plain, split_host_port-empty, split_host_port-default,
}
use devops_demo.Store.Session.{is_ok}
use devops_demo.Store.Reads.{ping}
use devops_demo.Server.{
  Response, Server, handle_request, handle_healthz, handle_readyz, readyz_reply,
}
use devops_demo.Server.Routes.{route_of, serve_route, serve_http}
use devops_demo.Service.Health.{
  Fetched, answered, after_get, check_paths, port_or_default, healthcheck_port, healthcheck,
}

module _ {F : Type 0} (serve_metrics : Server F → Response F × Server F) (now : ℕ) where
  -- A GET that reaches the service.
  abbrev pub get_from : String → String → Server F → Fetched × Server F
  get_from port path sv =
      let (r, sv') = serve_http serve_metrics now "GET" path sv in (answered r.status, sv')

  check-healthz :
      (next : Server F → ℕ × Server F) (sv : Server F)
      → after_get get_from next (get_from "8082" "/healthz" sv) ≡ next sv
  unfolding after_get serve_http route_of serve_route handle_request handle_healthz
  check-healthz next sv = refl

  -- The exit code of healthcheck, where its requests reach the service, is 0 exactly if the ping of
  -- the database succeeds, and else 1; the gauge db_up is then 1, and else 0.
  pub healthcheck-ping :
      (getenv : Environment) (sv : Server F)
      → let (code, sv') = healthcheck get_from getenv sv in
        ((is_ok (ping sv.session).0 ≡ true) × (code ≡ 0) × (sv'.db_up ≡ 1))
        ⊎ ((is_ok (ping sv.session).0 ≡ false) × (code ≡ 1) × (sv'.db_up ≡ 0))
  unfolding healthcheck check_paths after_get serve_http route_of serve_route handle_request
      handle_healthz handle_readyz readyz_reply
  healthcheck-ping getenv sv = ground arith

-- healthcheck asks the port that the service listens on: for an address of a host and a port without
-- colons and brackets, the part after the colon, and without an address, as in the default of serve,
-- 8082.
pub healthcheck_port-split :
    (getenv : Environment) (host port : String)
    → is_plain host ≡ true
    → is_plain port ≡ true
    → (getenv "ANALYTICS_HTTP_ADDR" ≡ host ++ (":" ++ port) → healthcheck_port getenv ≡ port)
      × (getenv "ANALYTICS_HTTP_ADDR" ≡ "" → healthcheck_port getenv ≡ "8082")
unfolding healthcheck_port env_string port_or_default
healthcheck_port-split getenv host port h k = (
  λ e.
      let found = split_host_port-plain host port h k in
      elim (Bool-cases (text_eq (getenv "ANALYTICS_HTTP_ADDR") "")) [
        | inl empty ↦
            absurd
              (not_empty (sym ((text_eq_iff (getenv "ANALYTICS_HTTP_ADDR") "").0 empty) ∙ e) found)
        | inr set ↦ rw (set, e, found) refl
      ],
  λ e. rw (e, split_host_port-default) refl,
)
  where
    not_empty : "" ≡ host ++ (":" ++ port) → ¬ (split_host_port (host ++ (":" ++ port)) ≡ some port)
    not_empty e found =
        absurd (ground (arith, sym found ∙ ap split_host_port (sym e), split_host_port-empty))
