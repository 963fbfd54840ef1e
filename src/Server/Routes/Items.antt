-- ===== src/Server/Routes/Items.antt =====
-- The path of an item.
use Prim.Native.Char.{code}
use Prim.Native.String.{[], ◌∷◌}
use devops_demo.Base.{
  ℕ, zero, suc, ◌<◌, ◌≤◌, ◌^◌, String, ◌≡◌, ◌≢◌, refl, ap, Bool, true, false, some, nat_eq, text_eq,
  text_eq_iff, pos_part, neg_part, arith,
}
use devops_demo.Base.Address.{has_char, is_empty}
use devops_demo.Base.Decimal.{append_text, print_int}
use devops_demo.Base.Decimal.Read.{parse_int-print_int}
use devops_demo.Base.Decimal.Plain.{has_char-print_int, is_empty-print_int}
use devops_demo.Store.Schema.{EventRecord}
use devops_demo.Store.Session.{ok, Session}
use devops_demo.Store.Ingest.{ingest_event}
use devops_demo.Server.{item_request, Response, Server, handle_request}
use devops_demo.Server.Replies.{AnsweredMerged, handle_get_item-ingested}
use devops_demo.Server.Routes.{
  get_only, after_prefix, item_route, route_of, is_get, serve_route, serve_http,
}

-- The path of an item's id.
unfoldable pub item_path : String → String
unfolding append_text
item_path s = append_text "/api/v1/items/" s

-- The code of the character at a position, or 0 after the end.
abbrev code_at : ℕ → String → ℕ
code_at i [] = 0
code_at zero (ch ∷ s) = code ch
code_at (suc i) (ch ∷ s) = code_at i s

differs : (i : ℕ) (a b : String) → code_at i a ≢ code_at i b → text_eq a b ≡ false
differs i a b h =
    let other : a ≢ b = λ same. h (ap (code_at i) same) in ground (arith, text_eq_iff a b, other)

apart : (m n : ℕ) → nat_eq m n ≡ false → m ≢ n
apart m n h same = ground arith

item_path-route :
    (s : String)
    → is_empty s ≡ false
    → has_char 47 s ≡ false
    → route_of (item_path s) ≡ some (get_only (item_request s))
unfolding item_path route_of item_route after_prefix
item_path-route s filled one =
    rw
      (
        differs 1 (item_path s) "/healthz" (apart 97 104 refl),
        differs 1 (item_path s) "/readyz" (apart 97 114 refl),
        differs 1 (item_path s) "/metrics" (apart 97 109 refl),
        differs 8 (item_path s) "/api/v1/stats" (apart 105 115 refl),
        differs 8 (item_path s) "/api/v1/seed-marker" (apart 105 115 refl),
        filled,
        one,
      )
      refl

module _ {F : Type 0} (serve_metrics : Server F → Response F × Server F) (now : ℕ) where
  -- When IngestEvent has returned without an error for an event of an item with an int64 as id, a
  -- GET or HEAD for the path of that id, printed in decimal, on the tables it left is answered 500
  -- if the database does not answer the query without a fault, and else 200 with the row in which
  -- the event is merged into what was known of the item before. It is never answered 400, 404 or
  -- 405.
  pub serve_http-ingested :
      (stamp : ℕ → ℕ) (e : EventRecord) (s s' : Session F) (b : Bool) (method : String)
      (sv : Server F)
      → ingest_event stamp e s ≡ (ok b, s')
      → sv.session.tables ≡ s'.tables
      → pos_part e.item_id < 2 ^ 63
      → neg_part e.item_id ≤ 2 ^ 63
      → is_get method ≡ true
      → AnsweredMerged stamp e s sv.session
          (serve_http serve_metrics now method (item_path (print_int e.item_id)) sv).0
  unfolding serve_http serve_route handle_request
  serve_http-ingested stamp e s s' b method sv h same low high get =
      let id = e.item_id in
      let route =
        item_path-route (print_int id) (is_empty-print_int id low) (has_char-print_int id) in
      let read = parse_int-print_int id low high in
      rw (route, get) (handle_get_item-ingested stamp e s s' b (print_int id) sv h same read)
