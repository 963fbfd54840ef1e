-- ===== src/Server.antt =====
-- internal/httpserver/server.go: the handlers. http.ServeMux and the JSON encoder are the standard
-- library: a request is what the mux hands to a handler, a body is the value that is encoded.
pub mod Replies
pub mod Routes
use devops_demo.Base.{ℕ, String, Bool, true, false, Option, none, some, ℤ}
use devops_demo.Base.Parse.{parse_int}
use devops_demo.Store.Schema.{SeedMarker}
use devops_demo.Store.Session.{Result, ok, err, Session}
use devops_demo.Store.Reads.{CurrentItem, BucketStats, get_current_item, stats_last24h, ping}
use devops_demo.Store.Marker.{get_seed_marker}

-- The patterns of New; item_request has the path value item_id.
pub data Request : Type 0 where
  healthz readyz stats_request seed_marker_request : Request
  item_request : String → Request

-- itemResponse, []statEntry and seedMarkerResponse have the fields of the store's values.
pub data Body (F : Type 0) : Type 0 where
  empty : Body F
  -- of http.Error
  text_response : String → Body F
  item_response : CurrentItem → Body F
  stat_entries : BucketStats → Body F
  seed_marker_response : SeedMarker F → Body F

pub record Response (F : Type 0) : Type 0 where
  pub status : ℕ
  pub body : Body F

-- The database and the gauge analytics_db_up.
pub record Server (F : Type 0) : Type 0 where
  pub session : Session F
  pub db_up : ℕ

module _ {F : Type 0} where
  abbrev pub header : ℕ → Response F
  header status = record { status = status; body = empty }

  abbrev pub write_json : ℕ → Body F → Response F
  write_json status body = record { status = status; body = body }

  unfoldable pub handle_healthz : Server F → Response F × Server F
  handle_healthz sv = (header 200, sv)

  unfoldable pub readyz_reply : Result (Unit {0}) × Session F → Response F × Server F
  readyz_reply (ok u, s) = (header 200, record { session = s; db_up = 1 })
  readyz_reply (err e, s) = (header 503, record { session = s; db_up = 0 })

  unfoldable pub handle_readyz : Server F → Response F × Server F
  unfolding readyz_reply
  handle_readyz sv = readyz_reply (ping sv.session)

  unfoldable pub item_reply :
      Server F → Result (Option CurrentItem) × Session F → Response F × Server F
  item_reply sv (err e, s) = (header 500, record sv { session = s })
  item_reply sv (ok none, s) = (header 404, record sv { session = s })
  item_reply sv (ok (some item), s) =
      (write_json 200 (item_response item), record sv { session = s })

  -- A path value that is no int64 is answered without the database.
  unfoldable pub get_item_reply : Option ℤ → Server F → Response F × Server F
  unfolding item_reply
  get_item_reply none sv = (header 400, sv)
  get_item_reply (some id) sv = item_reply sv (get_current_item id sv.session)

  unfoldable pub handle_get_item : String → Server F → Response F × Server F
  unfolding get_item_reply
  handle_get_item text sv = get_item_reply (parse_int text) sv

  unfoldable pub stats_reply : Server F → Result BucketStats × Session F → Response F × Server F
  stats_reply sv (err e, s) = (header 500, record sv { session = s })
  stats_reply sv (ok stats, s) = (write_json 200 (stat_entries stats), record sv { session = s })

  -- `now` is the database's clock.
  unfoldable pub handle_stats : ℕ → Server F → Response F × Server F
  unfolding stats_reply
  handle_stats now sv = stats_reply sv (stats_last24h now sv.session)

  unfoldable pub marker_reply :
      Server F → Result (Option (SeedMarker F)) × Session F → Response F × Server F
  marker_reply sv (err e, s) = (header 500, record sv { session = s })
  marker_reply sv (ok none, s) = (header 404, record sv { session = s })
  marker_reply sv (ok (some marker), s) =
      (write_json 200 (seed_marker_response marker), record sv { session = s })

  unfoldable pub handle_seed_marker : Server F → Response F × Server F
  unfolding marker_reply
  handle_seed_marker sv = marker_reply sv (get_seed_marker sv.session)

  unfoldable pub handle_request : ℕ → Request → Server F → Response F × Server F
  unfolding handle_healthz handle_readyz handle_get_item handle_stats handle_seed_marker
  handle_request now healthz sv = handle_healthz sv
  handle_request now readyz sv = handle_readyz sv
  handle_request now (item_request text) sv = handle_get_item text sv
  handle_request now stats_request sv = handle_stats now sv
  handle_request now seed_marker_request sv = handle_seed_marker sv
