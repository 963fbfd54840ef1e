-- ===== src/Server/Routes/Statistics.antt =====
-- The answer to GET /api/v1/stats against the raw events.
use devops_demo.Base.{ℕ, String, ◌≡◌, ◌≤◌, ◌⊎◌, inl, inr, refl, true, false, text_key, arith}
use devops_demo.Base.Table.{lookup}
use devops_demo.Store.Schema.{Tables}
use devops_demo.Store.Session.{Result, ok, err, is_ok, Session}
use devops_demo.Store.Session.Laws.{answers}
use devops_demo.Store.Reads.{BucketStats, stats_last24h}
use devops_demo.Store.Reads.Covered.{recent, stats_last24h-recent}
use devops_demo.Store.History.{empty_tables, History}
use devops_demo.Store.History.Exact.{has_expired}
use devops_demo.Store.History.Sound.{count_of}
use devops_demo.Server.{Response, stat_entries, Server, stats_reply, handle_stats, handle_request}
use devops_demo.Server.Routes.{route_of, is_get, serve_route, serve_http}

module _ {F : Type 0} (stamp : ℕ → ℕ) (serve_metrics : Server F → Response F × Server F)
    (now : ℕ) where
  -- Whether a count for each event type is that of the raw events of the last 24 hours.
  abbrev pub IsReport : (t : Tables F) → History stamp empty_tables t → BucketStats → Type 0
  IsReport t hist stats =
      (ty : String)
      → let counted = recent now ty t.item_events in
        let reported = count_of (lookup ty stats) in
        (counted ≡ reported) ⊎ ((has_expired stamp hist ≡ true) × (counted ≤ reported))

  abbrev pub Reported :
      (sv : Server F) → History stamp empty_tables sv.session.tables → Response F → Type 0
  Reported sv hist r =
      ((answers sv.session ≡ false) × (r.status ≡ 500))
      ⊎ ((stats : BucketStats) × (answers sv.session ≡ true)
          × (r.status ≡ 200)
          × (r.body ≡ stat_entries stats)
          × IsReport sv.session.tables hist stats)

  stats_last24h-result :
      (s : Session F)
      → ((answers s ≡ false) × (is_ok (stats_last24h now s).0 ≡ false))
        ⊎ ((answers s ≡ true) × (is_ok (stats_last24h now s).0 ≡ true))
  unfolding stats_last24h
  stats_last24h-result s = ground arith

  stats_reply-Reported :
      (sv : Server F) (hist : History stamp empty_tables sv.session.tables)
      (x : Result BucketStats × Session F)
      → stats_last24h now sv.session ≡ x
      → ((answers sv.session ≡ false) × (is_ok x.0 ≡ false))
        ⊎ ((answers sv.session ≡ true) × (is_ok x.0 ≡ true))
      → Reported sv hist (stats_reply sv x).0
  unfolding stats_reply
  stats_reply-Reported sv hist (err e, s) h seen = inl (ground arith, refl)
  stats_reply-Reported sv hist (ok stats, s) h seen = inr (
    stats,
    ground arith,
    refl,
    refl,
    λ ty. stats_last24h-recent stamp now sv.session s stats ty hist h,
  )

  -- After every history of store calls from empty tables, whatever the database answered: a GET or
  -- HEAD of /api/v1/stats is answered 500 if the database does not answer the query without a
  -- fault, and else 200 with a list of counts such that, for every event
  -- type, the count listed (0 where the type is not listed) is the number of the raw events of that
  -- type whose full hour begins in the last 24 hours, or, if DeleteEventsOlderThan was among the calls,
  -- at least that number.
  pub serve_http-stats :
      (method : String) (sv : Server F) (hist : History stamp empty_tables sv.session.tables)
      → is_get method ≡ true
      → Reported sv hist (serve_http serve_metrics now method "/api/v1/stats" sv).0
  unfolding serve_http route_of serve_route handle_request handle_stats
  serve_http-stats method sv hist get = rw get (
      stats_reply-Reported sv hist (stats_last24h now sv.session) refl
        (stats_last24h-result sv.session))
